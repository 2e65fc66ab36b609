-- ===== src/Broker/Reachable.antt =====
-- The histories of the broker (practica4/proxy_broker.c): clients register, publish and leave, in any
-- order and with any answers of the system.
use sistemas_distribuidos_y.Common.{
  ℕ, ℤ, pos, String, true, none, some, ◌≡◌, ◌∙◌, refl, sym, ap, subst, inl, inr, arith, World, ok,
  ended, IsIn, Bool-cases, is_neg,
}
use sistemas_distribuidos_y.Broker.Types.{
  Client, Topic, Broker, Mode, Message, Operation, Response, Status, send_response, Call, BrokerOs,
  register_subscriber, register_publisher, unregister_subscriber, unregister_publisher,
  publish_data,
}
use sistemas_distribuidos_y.Broker.Clients.{unregister}
use sistemas_distribuidos_y.Broker.Sessions.{Garbage, do_register, register_client}
use sistemas_distribuidos_y.Broker.Sessions.Register.{register_client-none}
use sistemas_distribuidos_y.Broker.Publish.{publish_msg}
use sistemas_distribuidos_y.Broker.Publish.Calls.{publish_msg-subscribers}
use sistemas_distribuidos_y.Broker.Directory.{view, lists, subscribers_of, publishers_of}
use sistemas_distribuidos_y.Broker.Invariant.{IsValid}
use sistemas_distribuidos_y.Broker.Registration.Subscribing.{register_subscriber-IsValid}
use sistemas_distribuidos_y.Broker.Registration.Advertising.{register_publisher-IsValid}
use sistemas_distribuidos_y.Broker.Unregistration.Subscriber.{
  unregister-unsubscribe, unregister-unsubscribe_fails,
}
use sistemas_distribuidos_y.Broker.Unregistration.Publisher.{
  unregister-unadvertise, unregister-unadvertise_fails,
}

-- When a request of a new client, whatever it asks for, is served in a valid state and the broker goes
-- on, its state is valid again.
pub register_client-IsValid :
    (os : BrokerOs) (g : Garbage) (fd : ℤ) (message : Message) (w w' : World Broker Call)
    (r : Response)
    → IsValid w.st
    → register_client os g fd message w ≡ ok r w'
    → IsValid w'.st
unfolding do_register
register_client-IsValid os g fd message w w' r v h = go message.action refl
  where
    other : do_register g fd message w.st ≡ some (w.st, g.response, none) → IsValid w'.st
    other e = subst IsValid (register_client-none os g fd message w w.st g.response r w' e h) v

    go : (a : Operation) → message.action ≡ a → IsValid w'.st
    go register_subscriber e = register_subscriber-IsValid os g fd message w w' r v e h
    go register_publisher e = register_publisher-IsValid os g fd message w w' r v e h
    go unregister_subscriber e = other (rw e refl)
    go unregister_publisher e = other (rw e refl)
    go publish_data e = other (rw e refl)

-- A request that is served to its end, whatever topic and id it has.
pub data Step (s : Broker) : Broker → Type 0 where
  registers :
      (os : BrokerOs) (g : Garbage) (fd : ℤ) (message : Message) (w w' : World Broker Call)
      (r : Response)
      → w.st ≡ s
      → register_client os g fd message w ≡ ok r w'
      → Step s w'.st
  publishes :
      (os : BrokerOs) (message : Message) (w w' : World Broker Call)
      → w.st ≡ s
      → publish_msg os message w ≡ ok tt w'
      → Step s w'.st
  unsubscribes :
      (os : BrokerOs) (name : String) (id : ℤ) (w w' : World Broker Call)
      → w.st ≡ s
      → unregister os unregister_subscriber name id w ≡ ended w'
      → Step s w'.st
  unadvertises :
      (os : BrokerOs) (name : String) (id : ℤ) (w w' : World Broker Call)
      → w.st ≡ s
      → unregister os unregister_publisher name id w ≡ ended w'
      → Step s w'.st

-- The state of a program that was just started, with any bytes in the table of topics.
abbrev pub initial : Mode → (ℕ → Topic) → Broker
initial mode topics = record {
  addr = record { sin_port = 0; sin_addr = 0 };
  server_socket = pos 0;
  mode = mode;
  next_publisher_id = 0;
  next_subscriber_id = 1;
  current_publishers = 0;
  current_subscribers = 0;
  current_topics = 0;
  next_pub_position = pos 0;
  next_sub_position = pos 0;
  all_topics = topics;
}

pub data Reach (mode : Mode) (topics : ℕ → Topic) : Broker → Type 0 where
  begin : Reach mode topics (initial mode topics)
  later : {s t : Broker} → Reach mode topics s → Step s t → Reach mode topics t

-- A message is for a topic of the directory, and a client that leaves is one of its topic there.
abbrev pub IsProper : {s t : Broker} → Step s t → Type 0
IsProper (registers os g fd message w w' r e h) = Unit
IsProper {s} (publishes os message w w' e h) = lists (view s) message.topic ≡ true
IsProper {s} (unsubscribes os name id w w' e h) =
    (c : Client) × IsIn c (subscribers_of name (view s)) × (c.id ≡ id)
IsProper {s} (unadvertises os name id w w' e h) =
    (c : Client) × IsIn c (publishers_of name (view s)) × (c.id ≡ id)

-- So it is for each request of a history.
abbrev pub IsOrderly :
    {mode : Mode} {topics : ℕ → Topic} {s : Broker} → Reach mode topics s → Type 0
IsOrderly begin = Unit
IsOrderly (later r st) = IsOrderly r × IsProper st

pub initial-IsValid : (mode : Mode) (topics : ℕ → Topic) → IsValid (initial mode topics)
initial-IsValid mode topics = record {
  fits = omega arith;
  unchanged = refl;
  unique = λ i j p. absurd (omega arith);
  topics = λ i p. absurd (omega arith);
}

-- A publication leaves the state as it is.
publish_msg_st :
    (os : BrokerOs) (message : Message) (w w' : World Broker Call)
    → IsValid w.st
    → lists (view w.st) message.topic ≡ true
    → publish_msg os message w ≡ ok tt w'
    → w'.st ≡ w.st
publish_msg_st os message w w' v listed h = elim (publish_msg-subscribers os message w v listed) [
  | inl (_, e) ↦ cc
  | inr (_, _, _, _, _, _, e) ↦ absurd (cc)
]

module _ (os : BrokerOs) (name : String) (w w' : World Broker Call) (v : IsValid w.st)
    (c : Client) where
  unsubscribed-IsValid :
      IsIn c (subscribers_of name (view w.st))
      → unregister os unregister_subscriber name c.id w ≡ ended w'
      → IsValid w'.st
  unsubscribed-IsValid m h =
      elim (Bool-cases (
        is_neg
          (os w.trace
            (send_response c.fd (record { response_status = Status.ok; id = c.id }))).ret)) [
              | inl fails ↦
                  let (_, q) = unregister-unsubscribe_fails os name w v c m fails in absurd (cc)
              | inr sends ↦
                  let (u, q, _, _, valid) = unregister-unsubscribe os name w v c m sends in
                  let r : u ≡ w' = cc in subst (λ x. IsValid x.st) r valid
            ]

  unadvertised-IsValid :
      IsIn c (publishers_of name (view w.st))
      → unregister os unregister_publisher name c.id w ≡ ended w'
      → IsValid w'.st
  unadvertised-IsValid m h =
      elim (Bool-cases (
        is_neg
          (os w.trace
            (send_response c.fd (record { response_status = Status.ok; id = c.id }))).ret)) [
              | inl fails ↦
                  let (_, q) = unregister-unadvertise_fails os name w v c m fails in absurd (cc)
              | inr sends ↦
                  let (u, q, _, _, valid) = unregister-unadvertise os name w v c m sends in
                  let r : u ≡ w' = cc in subst (λ x. IsValid x.st) r valid
            ]

Step-IsValid : {s t : Broker} (st : Step s t) → IsProper st → IsValid s → IsValid t
Step-IsValid (registers os g fd message w w' r e h) p v =
    register_client-IsValid os g fd message w w' r (rw e v) h
Step-IsValid (publishes os message w w' e h) p v =
    subst IsValid (sym (publish_msg_st os message w w' (rw e v) (rw (← e) at p) h)) (rw e v)
Step-IsValid (unsubscribes os name id w w' e h) (c, m, same) v =
    unsubscribed-IsValid os name w w' (rw e v) c (rw (← e) at m)
      (ap (λ i. unregister os unregister_subscriber name i w) same ∙ h)
Step-IsValid (unadvertises os name id w w' e h) (c, m, same) v =
    unadvertised-IsValid os name w w' (rw e v) c (rw (← e) at m)
      (ap (λ i. unregister os unregister_publisher name i w) same ∙ h)

-- Take any history of registrations, publications and removals, one after the other and each served
-- to its end, in which each message is for a topic of the directory, each client that leaves is
-- registered for its topic, and no subscriber is written behind its array (from there on the
-- program is not defined, and there is no next state). After it, at most 10 topics have different
-- names, each has at most 900 subscribers and 100 publishers, and the clients of a topic have
-- different ids that were handed out before.
pub Reach-IsValid :
    {mode : Mode} {topics : ℕ → Topic} {s : Broker} (r : Reach mode topics s)
    → IsOrderly r
    → IsValid s
Reach-IsValid {mode} {topics} begin p = initial-IsValid mode topics
Reach-IsValid (later r st) (p, q) = Step-IsValid st q (Reach-IsValid r p)
