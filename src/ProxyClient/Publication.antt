-- ===== src/ProxyClient/Publication.antt =====
-- A message from a publisher over the broker to a subscriber: a round of `transfer_publisher`, one of
-- `talk_to_publisher` of practica4/proxy_broker.c, and one of `transfer_subscriber`.
use sistemas_distribuidos_y.Common.{
  ℕ, suc, ℤ, is_neg, Bool, true, false, List, ◌∷◌, map, ◌≡◌, refl, arith, if◌then◌else◌, IsIn,
  World, ok,
}
use sistemas_distribuidos_y.Broker.Types.{
  Broker, Client, Message, Publish, Timespec, BrokerOs, publish_data, secuencial, send_publish,
  enviando,
}
use sistemas_distribuidos_y.Broker.Types as Types
use sistemas_distribuidos_y.Broker.Directory.{view, lists, subscribers_of}
use sistemas_distribuidos_y.Broker.Invariant.{IsValid}
use sistemas_distribuidos_y.Broker.Sessions.{serve_publisher}
use sistemas_distribuidos_y.Broker.Publish.Delivery.{logged, send_to}
use sistemas_distribuidos_y.Broker.Served.{logged-sent, announced, serve_publisher-sent}
use sistemas_distribuidos_y.ProxyClient.{
  Peer, Call, send, recv_publish, clock_gettime, sleep, fread, print, publicado, recibido, PeerOs,
  latency, as_float, transfer_publisher, transfer_subscriber,
}

-- The round of a publisher whose variable `message` holds `message`.
module _ (os : PeerOs) (opened : Bool) (message : Message) (p : World Peer Call) where
  abbrev reads : List Call
  reads = clock_gettime ∷ sleep 3 ∷ p.trace

  -- The message of the round, and the calls before it is sent.
  abbrev pub produced : Message
  produced = record message {
    action = publish_data;
    topic = p.st.client_topic;
    publish = record {
      time_generated_data = (os (sleep 3 ∷ p.trace) clock_gettime).msg.time;
      content = if opened then (os reads fread).msg.text else message.publish.content;
    };
  }

  abbrev pub producing : List Call
  producing =
      print
        (publicado p.st.client_topic produced.publish.content produced.publish.time_generated_data)
      ∷ (if opened then fread ∷ reads else reads)

  transfer_publisher-produced :
      (n : ℕ)
      → is_neg (os producing (send p.st.client_socket produced)).ret ≡ false
      → transfer_publisher os (suc n) opened message p
        ≡ transfer_publisher os n opened produced
            (record p { trace = send p.st.client_socket produced ∷ producing })
  unfolding transfer_publisher
  transfer_publisher-produced n went = ground (arith, went)

-- The round of a subscriber that receives `publish`.
module _ (os : PeerOs) (publish : Publish) (q : World Peer Call) where
  -- The time of its clock once it has received.
  abbrev pub arrival : Timespec
  arrival = (os (recv_publish q.st.client_socket ∷ q.trace) clock_gettime).msg.time

  abbrev pub printing : World Peer Call
  printing = record q {
    trace =
        print (
          recibido q.st.client_topic publish.content publish.time_generated_data arrival
            (as_float (latency arrival publish.time_generated_data)))
        ∷ clock_gettime
        ∷ recv_publish q.st.client_socket
        ∷ q.trace;
  }

  transfer_subscriber-printing :
      (n : ℕ)
      → is_neg (os q.trace (recv_publish q.st.client_socket)).ret ≡ false
      → (os q.trace (recv_publish q.st.client_socket)).msg.publish ≡ publish
      → transfer_subscriber os (suc n) q ≡ transfer_subscriber os n printing
  unfolding transfer_subscriber
  transfer_subscriber-printing n came same = ground (arith, came, same)

-- A publisher, a broker in a valid state and in the sequential mode, whose socket `fd` belongs to that
-- publisher, and a subscriber with the entry `c` for the topic of the publisher.
module _ (writer : PeerOs) (broker : BrokerOs) (reader : PeerOs) (opened : Bool) (message : Message)
    (p : World Peer Call) (fd : ℤ) (w : World Broker Types.Call) (c : Client) (q : World Peer Call)
    (valid : IsValid w.st) (listed : lists (view w.st) p.st.client_topic ≡ true)
    (mode : w.st.mode ≡ secuencial)
    (there : IsIn c (subscribers_of p.st.client_topic (view w.st))) where
  abbrev m : Message
  m = produced writer opened message p

  -- A round of a publisher, of the thread of the broker that serves it, and of a subscriber. The
  -- conditions are: the broker is in a valid state and in the sequential mode, its directory has the
  -- topic of the publisher, and the subscriber is registered for it; the publisher's send goes well,
  -- and what it sends is what the broker reads; the sends of the broker to all subscribers of the topic
  -- go well; and what it has sent to the subscriber is what the subscriber reads. Then the subscriber
  -- prints the text and the time that the publisher has put into its message, with the latency from
  -- that time to the one of its own clock, and each of the three goes on to its next round, the broker
  -- in the same state.
  pub transfer_publisher-transfer_subscriber :
      (n k : ℕ)
      → is_neg (writer (producing writer opened message p) (send p.st.client_socket m)).ret ≡ false
      → is_neg (broker w.trace (Types.recv fd)).ret ≡ false
      → (broker w.trace (Types.recv fd)).msg ≡ m
      → ((tr : List Types.Call) (d : Client)
          → IsIn d (subscribers_of p.st.client_topic (view w.st))
          → is_neg (broker tr (send_to m.publish d)).ret ≡ false)
      → ((w' : World Broker Types.Call)
          → serve_publisher broker fd w ≡ ok tt w'
          → IsIn (send_to m.publish c) w'.trace
          → (is_neg (reader q.trace (recv_publish q.st.client_socket)).ret ≡ false)
            × ((reader q.trace (recv_publish q.st.client_socket)).msg.publish ≡ m.publish))
      → (w' : World Broker Types.Call) × (transfer_publisher writer (suc n) opened message p
          ≡ transfer_publisher writer n opened m
              (record p { trace = send p.st.client_socket m ∷ producing writer opened message p }))
        × (serve_publisher broker fd w ≡ ok tt w')
        × (w'.st ≡ w.st)
        × (transfer_subscriber reader (suc k) q
            ≡ transfer_subscriber reader k (printing reader m.publish q))
  transfer_publisher-transfer_subscriber n k went came same sends arrives =
      let cs = subscribers_of p.st.client_topic (view w.st) in
      let w' : World Broker Types.Call = record w {
        trace = logged (map (send_to m.publish) cs) (announced broker fd m w).trace;
      } in
      let served = serve_publisher-sent broker fd m w came same refl valid listed mode sends in
      let (heard, read) =
        arrives w' served (logged-sent cs m.publish (announced broker fd m w).trace c there) in
      (
        w',
        transfer_publisher-produced writer opened message p n went,
        served,
        refl,
        transfer_subscriber-printing reader m.publish q k heard read,
      )
