-- ===== src/Broker/Registration/Subscribing.antt =====
-- Registration of a subscriber by practica4/proxy_broker.c against the directory of the broker.
use sistemas_distribuidos_y.Common.{
  suc, ◌≤◌, ◌<◌, ℤ, String, ◌∷◌, subst, length, some, none, ◌≡◌, refl, inl, inr, arith, ltb, World,
  ok, fault, Bool-cases,
}
use sistemas_distribuidos_y.Broker.Types.{
  Response, Broker, Status, Message, Call, BrokerOs, register_subscriber, max_topics, lock, unlock,
  mutex3, send_response, max_subscribers,
}
use sistemas_distribuidos_y.Broker.Topics.{create_topic}
use sistemas_distribuidos_y.Broker.Sessions.{
  Garbage, do_register_subscriber, do_register, register_client, accepted, refused,
}
use sistemas_distribuidos_y.Broker.Sessions.Register.{
  Sends, register_client-none, register_client-some, register_client-accepted,
  register_client-refused, register_client_fault,
}
use sistemas_distribuidos_y.Broker.Directory.{view, subscribe, subscribers_of}
use sistemas_distribuidos_y.Broker.Invariant.{IsValid}
use sistemas_distribuidos_y.Broker.Registration.{subscriber, new_subscriber}
use sistemas_distribuidos_y.Broker.Registration.Placing.{
  decided, overflows, settled, settled-IsValid, view-settled,
}

-- In a valid state, with a free place in the table of topics and one in the array of its topic, a
-- subscriber whose answer can be sent is accepted under the next id. The directory of the broker then has the topic, with the new client
-- behind its other subscribers and with nothing else changed, and the state stays valid.
pub register_client-subscribe :
    (os : BrokerOs) (g : Garbage) (fd : ℤ) (message : Message) (w : World Broker Call)
    → IsValid w.st
    → message.action ≡ register_subscriber
    → w.st.current_topics < max_topics
    → length (subscribers_of message.topic (view w.st)) < max_subscribers
    → Sends os g fd message w (accepted w.st.next_subscriber_id)
    → (w' : World Broker Call) × (register_client os g fd message w
        ≡ ok (accepted w.st.next_subscriber_id) w')
      × (view w'.st
          ≡ subscribe message.topic
              (subscriber g fd message.topic w.st.next_subscriber_id)
              (view w.st))
      × (w'.st.next_subscriber_id ≡ suc w.st.next_subscriber_id)
      × IsValid w'.st
unfolding do_register
register_client-subscribe os g fd message w v action topics room sends =
    let (tr, e) =
      register_client-accepted os g fd message w _ w.st.next_subscriber_id
        (new_subscriber w.st.next_subscriber_id message.topic)
        (rw action (decided g message.topic w.st v topics fd room)) sends in
    (
      record { st = settled g message.topic w.st v topics fd; trace = tr },
      e,
      view-settled g message.topic w.st v topics fd,
      refl,
      settled-IsValid g message.topic w.st v topics fd room,
    )

refused_full :
    (g : Garbage) (fd : ℤ) (topic : String) (b : Broker)
    → max_topics ≤ b.current_topics
    → do_register_subscriber g fd topic b ≡ some (b, refused Status.error, none)
unfolding do_register_subscriber create_topic
refused_full g fd topic b full = ground arith

-- When the table of topics is full, every subscriber whose answer can be sent is refused with ERROR and
-- the state stays as it is, whether or not there is a topic of that name.
pub register_client-full :
    (os : BrokerOs) (g : Garbage) (fd : ℤ) (message : Message) (w : World Broker Call)
    → message.action ≡ register_subscriber
    → max_topics ≤ w.st.current_topics
    → Sends os g fd message w (refused Status.error)
    → register_client os g fd message w
      ≡ ok (refused Status.error) (record {
        st = w.st;
        trace = unlock mutex3 ∷ send_response fd (refused Status.error) ∷ lock mutex3 ∷ w.trace;
      })
unfolding do_register
register_client-full os g fd message w action full sends =
    register_client-refused os g fd message w w.st Status.error none
      (rw action (refused_full g fd message.topic w.st full)) sends

-- In a valid state with a free place in the table of topics, a subscriber of a topic that has 900 of
-- them is written behind the array of its topic, and is not answered that the limit is reached.
pub register_client-overflow :
    (os : BrokerOs) (g : Garbage) (fd : ℤ) (message : Message) (w : World Broker Call)
    → IsValid w.st
    → message.action ≡ register_subscriber
    → w.st.current_topics < max_topics
    → max_subscribers ≤ length (subscribers_of message.topic (view w.st))
    → register_client os g fd message w ≡ fault
unfolding do_register
register_client-overflow os g fd message w v action topics over =
    register_client_fault os g fd message w
      (rw action (overflows g message.topic w.st v topics fd over))

-- Whatever becomes of a subscriber, the state stays valid.
pub register_subscriber-IsValid :
    (os : BrokerOs) (g : Garbage) (fd : ℤ) (message : Message) (w w' : World Broker Call)
    (r : Response)
    → IsValid w.st
    → message.action ≡ register_subscriber
    → register_client os g fd message w ≡ ok r w'
    → IsValid w'.st
unfolding do_register
register_subscriber-IsValid os g fd message w w' r v action h =
    elim (Bool-cases (ltb w.st.current_topics max_topics)) [
      | inr full ↦
          subst IsValid
            (register_client-none os g fd message w _ (refused Status.error) r w'
              (rw action (refused_full g fd message.topic w.st (ground arith))) h)
            v
      | inl topics ↦ with_room (ground arith)
    ]
  where
    with_room : w.st.current_topics < max_topics → IsValid w'.st
    with_room lt =
        elim (Bool-cases
          (ltb (length (subscribers_of message.topic (view w.st))) max_subscribers)) [
            | inr over ↦
                let e = register_client-overflow os g fd message w v action lt (ground arith) in
                absurd (cc)
            | inl room ↦
                subst IsValid
                  (register_client-some os g fd message w _ w.st.next_subscriber_id r
                    (new_subscriber w.st.next_subscriber_id message.topic) w'
                    (rw action (decided g message.topic w.st v lt fd (ground arith))) h)
                  (settled-IsValid g message.topic w.st v lt fd (ground arith))
          ]
