-- ===== src/Broker/Sessions/Register.antt =====
-- How the part of `talk_to_client` under `mutex3` (practica4/proxy_broker.c) goes on from what was
-- decided about the client.
use sistemas_distribuidos_y.Common.{
  ℕ, ℤ, is_neg, Option, none, some, List, ◌∷◌, ◌≡◌, false, arith, World, ok, fault,
}
use sistemas_distribuidos_y.Broker.Types.{
  Broker, Message, Response, Status, Call, BrokerOs, mutex3, lock, unlock, send_response, print,
  nuevo_cliente,
}
use sistemas_distribuidos_y.Broker.Sessions.{
  Garbage, NewClient, accepted, refused, do_register, announce, register_client,
}
use sistemas_distribuidos_y.Broker.Counting.{counted, count_and_print_lem}

module _ (os : BrokerOs) (g : Garbage) (fd : ℤ) (message : Message) (w : World Broker Call) where
  -- The answer to the client is sent.
  abbrev pub Sends : Response → Type 0
  Sends r = is_neg (os (lock mutex3 ∷ w.trace) (send_response fd r)).ret ≡ false

  -- A client with an id is counted.
  pub register_client-accepted :
      (b : Broker) (id : ℕ) (c : NewClient)
      → do_register g fd message w.st ≡ some (b, accepted id, some c)
      → Sends (accepted id)
      → (tr : List Call) × (register_client os g fd message w
          ≡ ok (accepted id) (record {
            st = record b { all_topics = counted c 0 b.current_topics b.all_topics };
            trace = tr;
          }))
  unfolding register_client announce
  register_client-accepted b id c e h =
      let (tr, r) =
        count_and_print_lem os c b.current_topics 0 b.current_topics
          (record {
            st = b;
            trace =
                print (nuevo_cliente c.id c.client_type c.topic)
                ∷ send_response fd (accepted id)
                ∷ lock mutex3
                ∷ w.trace;
          })
          (omega arith) in
      (unlock mutex3 ∷ tr, ground (arith, r))

  -- One without an id is told so, and the state stays as it was decided.
  pub register_client-refused :
      (b : Broker) (s : Status) (c : Option NewClient)
      → do_register g fd message w.st ≡ some (b, refused s, c)
      → Sends (refused s)
      → register_client os g fd message w
        ≡ ok (refused s) (record {
          st = b;
          trace = unlock mutex3 ∷ send_response fd (refused s) ∷ lock mutex3 ∷ w.trace;
        })
  unfolding register_client announce
  register_client-refused b s c e h = ground arith

  pub register_client_fault :
      do_register g fd message w.st ≡ none → register_client os g fd message w ≡ fault
  unfolding register_client
  register_client_fault e = ground arith

  -- If it returns, the state is the one that was decided, or that one with the client counted.
  pub register_client-none :
      (b : Broker) (r s : Response) (w' : World Broker Call)
      → do_register g fd message w.st ≡ some (b, r, none)
      → register_client os g fd message w ≡ ok s w'
      → b ≡ w'.st
  unfolding register_client announce
  register_client-none b r s w' e h = ground arith

  pub register_client-some :
      (b : Broker) (id : ℕ) (s : Response) (c : NewClient) (w' : World Broker Call)
      → do_register g fd message w.st ≡ some (b, accepted id, some c)
      → register_client os g fd message w ≡ ok s w'
      → record b { all_topics = counted c 0 b.current_topics b.all_topics } ≡ w'.st
  unfolding register_client announce
  register_client-some b id s c w' e h =
      let (tr, q) =
        count_and_print_lem os c b.current_topics 0 b.current_topics
          (record {
            st = b;
            trace =
                print (nuevo_cliente c.id c.client_type c.topic)
                ∷ send_response fd (accepted id)
                ∷ lock mutex3
                ∷ w.trace;
          })
          (omega arith) in
      ground (arith, q)
