-- ===== src/ProxyClient/Exchange.antt =====
-- A subscriber (practica4/proxy_client.c) and the thread of the broker (practica4/proxy_broker.c) that
-- serves it.
use sistemas_distribuidos_y.Common.{
  ℕ, ◌<◌, ℤ, pos, is_neg, eq_ℤ, String, Bool, true, false, ◌∷◌, length, ◌≡◌, sym, ap, ◌∙◌, subst,
  arith, fits, strcpy, World, ok, ended,
}
use sistemas_distribuidos_y.Broker.Types.{
  Broker, Message, Response, Status, BrokerOs, register_subscriber, unregister_subscriber,
  max_topics, max_subscribers,
}
use sistemas_distribuidos_y.Broker.Types as Types
use sistemas_distribuidos_y.Broker.Sessions.{Garbage, accepted, register_client, talk_to_client}
use sistemas_distribuidos_y.Broker.Sessions.Register.{Sends}
use sistemas_distribuidos_y.Broker.Directory.{view, ensure, subscribers_of}
use sistemas_distribuidos_y.Broker.Invariant.{IsValid}
use sistemas_distribuidos_y.Broker.Registration.{subscriber as entry_of}
use sistemas_distribuidos_y.Broker.Unregistration.{SendsFarewell}
use sistemas_distribuidos_y.Broker.Visit.{first, reading, talk_to_client-subscriber}
use sistemas_distribuidos_y.ProxyClient.{
  subscriber, Peer, Call, send, socket, connect, recv_response, clock_gettime, print,
  connection_line, registrado, PeerOs, topic_size, type_of, registration, removal,
  start_data_transfer, socket_create, socket_connect, talk_to_server,
}
use sistemas_distribuidos_y.ProxyClient.Session.{joining, greeting, asked, farewell}

module _ (os : PeerOs) (garbage : Message) (topic ip : String) (port : ℤ)
    (p : World Peer Call) where
  abbrev pub client_fd : ℤ
  client_fd = (os p.trace socket).ret

  -- The request of the client, and the answer to it.
  abbrev pub request : Message
  request = greeting garbage topic p.st

  abbrev pub answer : Response
  answer = (os (asked garbage topic ip port client_fd p) (recv_response client_fd)).msg.response

  -- The topic is not too long, and the calls of the client up to the answer go well.
  pub record Connects : Type 0 where
    pub short : fits topic_size topic ≡ true
    pub valid : is_neg client_fd ≡ false
    pub connected : eq_ℤ (os (socket ∷ p.trace) (connect client_fd p.st.addr)).ret (pos 0) ≡ true
    pub went :
        is_neg
          (os
            (print (connection_line (type_of p.st.proc_name) p.st.proc_name ip port)
              ∷ clock_gettime
              ∷ connect client_fd p.st.addr
              ∷ socket
              ∷ p.trace)
            (send client_fd request)).ret
        ≡ false
    pub came :
        is_neg (os (asked garbage topic ip port client_fd p) (recv_response client_fd)).ret ≡ false

  -- The state of a client that was given the id of a response.
  abbrev pub joined : Response → Peer
  joined r = record (joining topic client_fd p.st) { client_id = r.id }

  abbrev pub registered : Response → World Peer Call
  registered r = record {
    st = joined r;
    trace =
        print (registrado r.id topic)
        ∷ clock_gettime
        ∷ recv_response client_fd
        ∷ asked garbage topic ip port client_fd p;
  }

  talk_to_server-registered :
      (n : ℕ) (opened : Bool)
      → Connects
      → answer.response_status ≡ Status.ok
      → talk_to_server os n opened garbage topic ip port p
        ≡ start_data_transfer os n opened garbage (registered answer)
  unfolding talk_to_server socket_create socket_connect strcpy
  talk_to_server-registered n opened c fine =
      ground (arith, c.short, c.valid, c.connected, c.went, c.came, fine)

-- A broker that has accepted the socket `fd`, and a client that it belongs to.
module _ (client : PeerOs) (broker : BrokerOs) (garbage farewell_garbage : Message)
    (topic ip : String) (port : ℤ) (p : World Peer Call) (g : Garbage) (fd : ℤ)
    (w : World Broker Types.Call) (named : type_of p.st.proc_name ≡ subscriber)
    (connects : Connects client garbage topic ip port p) (valid : IsValid w.st)
    (topics : w.st.current_topics < max_topics)
    (room : length (subscribers_of topic (view w.st)) < max_subscribers)
    (came : is_neg (broker w.trace (Types.recv fd)).ret ≡ false) where
  -- A client that is named as a subscriber asks to be registered and is interrupted later. The
  -- conditions are: the broker is in a valid state with fewer than 10 topics and fewer than 900
  -- subscribers of the topic; the topic fits into its array of the client, and the calls of the
  -- client up to the answer go well; the receives of the broker go well; its request is what the
  -- broker reads first, the answer of the broker is what the client gets, and the message of its
  -- signal handler is what the broker reads next; and the answers of the broker can be sent. Then
  -- the client goes on to its data with the next id of a subscriber, and its thread in the broker
  -- ends with the directory as it was, but for the topic, which stays.
  pub talk_to_server-talk_to_client :
      (n k : ℕ) (opened : Bool)
      → first broker g fd w ≡ request client garbage topic ip port p
      → Sends broker g fd
          (first broker g fd w)
          (reading broker g fd w)
          (accepted w.st.next_subscriber_id)
      → ((r : Response) (w' : World Broker Types.Call)
          → register_client broker g fd (first broker g fd w) (reading broker g fd w) ≡ ok r w'
          → (r ≡ answer client garbage topic ip port p)
            × (is_neg (broker w'.trace (Types.recv fd)).ret ≡ false)
            × ((broker w'.trace (Types.recv fd)).msg
                ≡ farewell farewell_garbage (joined client garbage topic ip port p r)))
      → ((w' : World Broker Types.Call)
          → SendsFarewell broker
              (entry_of g fd (first broker g fd w).topic w.st.next_subscriber_id)
              w')
      → (w'' : World Broker Types.Call) × (talk_to_client broker k g fd w ≡ ended w'')
        × (view w''.st ≡ ensure topic (view w.st))
        × (talk_to_server client n opened garbage topic ip port p
            ≡ start_data_transfer client n opened garbage
                (registered client garbage topic ip port p (accepted w.st.next_subscriber_id)))
  talk_to_server-talk_to_client n k opened there sends back answers =
      let asks : (first broker g fd w).action ≡ register_subscriber =
        ap (λ m. m.action) there ∙ ap registration named in
      let same : (first broker g fd w).topic ≡ topic = ap (λ m. m.topic) there in
      let (w', w'', e, q, gone) =
        talk_to_client-subscriber broker g fd w k came asks valid topics
          (subst (λ t. length (subscribers_of t (view w.st)) < max_subscribers) (sym same) room)
          sends
          (λ r w1 h.
            let (_, came', said) = back r w1 h in
            (
              came',
              ap (λ m. m.action) said ∙ ap removal named,
              ap (λ m. m.topic) said ∙ sym same,
              ap (λ m. m.id) said,
            ))
          answers in
      let (same_answer, _, _) = back (accepted w.st.next_subscriber_id) w' e in
      (
        w'',
        q,
        gone ∙ ap (λ t. ensure t (view w.st)) same,
        talk_to_server-registered client garbage topic ip port p n opened connects
              (sym (ap (λ r. r.response_status) same_answer))
            ∙ ap
                (λ r.
                  start_data_transfer client n opened garbage
                    (registered client garbage topic ip port p r))
                (sym same_answer),
      )
