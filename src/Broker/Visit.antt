-- ===== src/Broker/Visit.antt =====
-- The whole thread of practica4/proxy_broker.c that serves a subscriber.
pub mod Publisher
mod Tests
use sistemas_distribuidos_y.Common.{
  ℕ, ◌<◌, ℤ, is_neg, false, ◌∷◌, length, ◌≡◌, refl, arith, World, ok, ended,
}
use sistemas_distribuidos_y.Broker.Types.{
  Broker, Message, Response, Call, BrokerOs, register_subscriber, unregister_subscriber, recv,
  max_topics, max_subscribers,
}
use sistemas_distribuidos_y.Broker.Sessions.{
  Garbage, accepted, register_client, talk_to_client, talk_to_subscriber,
}
use sistemas_distribuidos_y.Broker.Sessions.Register.{Sends}
use sistemas_distribuidos_y.Broker.Directory.{view, ensure, subscribers_of}
use sistemas_distribuidos_y.Broker.Invariant.{IsValid}
use sistemas_distribuidos_y.Broker.Registration.{subscriber}
use sistemas_distribuidos_y.Broker.Registration.Subscribing.{register_client-subscribe}
use sistemas_distribuidos_y.Broker.Unregistration.{SendsFarewell}
use sistemas_distribuidos_y.Broker.Roundtrip.{unregister-subscribed}

module _ (os : BrokerOs) (g : Garbage) (fd : ℤ) (w : World Broker Call) where
  -- The first message of the client, and the broker that has read it.
  abbrev pub first : Message
  first = (os w.trace (recv fd)).msg

  abbrev pub reading : World Broker Call
  reading = record w { trace = recv fd ∷ w.trace }

  -- What is read after a registration that gave the response `r`: the removal under its id.
  abbrev pub Leaves : Response → World Broker Call → Type 0
  Leaves r w' =
      let m = (os w'.trace (recv fd)).msg in
      (is_neg (os w'.trace (recv fd)).ret ≡ false)
      × (m.action ≡ unregister_subscriber)
      × (m.topic ≡ first.topic)
      × (m.id ≡ r.id)

  -- The thread of a client that registers as a subscriber and then asks to be removed under the id
  -- that it was given: in a valid state with room for its topic and for itself, and if both of its
  -- messages arrive and both answers can be sent, the thread ends, and the directory is as it was, but
  -- for the topic, which stays.
  pub talk_to_client-subscriber :
      (n : ℕ)
      → is_neg (os w.trace (recv fd)).ret ≡ false
      → first.action ≡ register_subscriber
      → IsValid w.st
      → w.st.current_topics < max_topics
      → length (subscribers_of first.topic (view w.st)) < max_subscribers
      → Sends os g fd first reading (accepted w.st.next_subscriber_id)
      → ((r : Response) (w' : World Broker Call)
          → register_client os g fd first reading ≡ ok r w'
          → Leaves r w')
      → ((w' : World Broker Call)
          → SendsFarewell os (subscriber g fd first.topic w.st.next_subscriber_id) w')
      → (w' : World Broker Call) × (w'' : World Broker Call) × (register_client os g fd first
            reading
          ≡ ok (accepted w.st.next_subscriber_id) w')
        × (talk_to_client os n g fd w ≡ ended w'')
        × (view w''.st ≡ ensure first.topic (view w.st))
  unfolding talk_to_client talk_to_subscriber
  talk_to_client-subscriber n came action v topics room sends leaves answers =
      let (w', e, seen, _, v') =
        register_client-subscribe os g fd first reading v action topics room sends in
      let (came', action', topic', id') = leaves (accepted w.st.next_subscriber_id) w' e in
      let asked : World Broker Call = record w' { trace = recv fd ∷ w'.trace } in
      let (w'', q, gone) =
        unregister-subscribed os w.st (subscriber g fd first.topic w.st.next_subscriber_id)
          first.topic asked v refl v' seen (answers asked) in
      (w', w'', e, ground (arith, came, e, action, came', action', topic', id', q), gone)
