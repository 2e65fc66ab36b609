-- ===== src/Broker/Registration/Advertising.antt =====
-- Registration of a publisher by practica4/proxy_broker.c against the directory of the broker.
use sistemas_distribuidos_y.Common.{
  ℕ, suc, ◌≤◌, ◌<◌, ℤ, rounds, String, true, [], ◌∷◌, ◌++◌, some, none, ◌≡◌, refl, ◌∙◌, inl, inr,
  arith, ltb, if◌then◌else◌, update, World, ok, Bool-cases, subst,
}
use sistemas_distribuidos_y.Broker.Types.{
  Client, Broker, Status, Response, Message, Call, BrokerOs, register_publisher, max_publishers,
  lock, unlock, mutex3, send_response,
}
use sistemas_distribuidos_y.Broker.Topics.{get_topic_id}
use sistemas_distribuidos_y.Broker.Topics.Lookup.{find_topic-name, has_topic-find_topic}
use sistemas_distribuidos_y.Broker.Clients.{on_topic}
use sistemas_distribuidos_y.Broker.Sessions.{
  Garbage, add_publisher, do_register_publisher, do_register, register_client, accepted, refused,
}
use sistemas_distribuidos_y.Broker.Sessions.Register.{
  Sends, register_client-none, register_client-some, register_client-accepted,
  register_client-refused,
}
use sistemas_distribuidos_y.Broker.Directory.{view, advertise, lists, lists-slice}
use sistemas_distribuidos_y.Broker.Invariant.{IsValid}
use sistemas_distribuidos_y.Broker.Counting.{counted, counted-IsValid, view-counted}
use sistemas_distribuidos_y.Broker.Registration.{
  store_lem, subscriber, new_publisher, put_publisher, view_topic-publisher, IsTopic-publisher,
}

-- The search finds a topic exactly if the directory lists it.
module _ (topic : String) (b : Broker) where
  abbrev place : ℕ
  place = get_topic_id b topic

  lists-place : lists (view b) topic ≡ ltb place b.current_topics
  unfolding view get_topic_id
  lists-place =
      lists-slice b.current_topics 0 b.all_topics topic
      ∙ ground (arith, has_topic-find_topic b.current_topics 0 b.all_topics topic)

  module _ (v : IsValid b) (listed : lists (view b) topic ≡ true) (g : Garbage) (fd : ℤ) where
    place-lt : place < b.current_topics
    place-lt = ground (arith, lists-place)

    place-name : (b.all_topics place).name ≡ topic
    unfolding get_topic_id
    place-name = find_topic-name b.current_topics 0 b.all_topics topic (omega (arith, place-lt))

    abbrev client : Client
    client = subscriber g fd topic b.next_publisher_id

    module _ (h : b.next_publisher_id < max_publishers) where
      room : rounds (b.all_topics place).num_publishers < max_publishers
      room = omega (arith, (v.topics place place-lt).pubs.few)

      decided :
          do_register_publisher g fd topic b
          ≡ some (
            record (on_topic place (put_publisher client) b) {
              next_publisher_id = suc b.next_publisher_id;
            },
            accepted b.next_publisher_id,
            some (new_publisher b.next_publisher_id topic),
          )
      unfolding do_register_publisher add_publisher
      decided = ground (
        arith,
        place-lt,
        store_lem max_publishers b.next_publisher_id (b.all_topics place).publishers
            (b.all_topics place).num_publishers client (v.topics place place-lt).pubs room,
      )

      abbrev settled : Broker
      settled = record b {
        next_publisher_id = suc b.next_publisher_id;
        all_topics =
            counted (new_publisher b.next_publisher_id topic) 0 b.current_topics
              (update b.all_topics place (put_publisher client (b.all_topics place)));
      }

      settled-IsValid : IsValid settled
      settled-IsValid =
          counted-IsValid b (new_publisher b.next_publisher_id topic) place b.next_subscriber_id
            (suc b.next_publisher_id) (put_publisher client (b.all_topics place)) v place-lt
            place-name refl (omega arith) (omega arith)
            (IsTopic-publisher (b.all_topics place) b.next_subscriber_id b.next_publisher_id
              (v.topics place place-lt) topic place-name client room refl)

      view-settled : view settled ≡ advertise topic client (view b)
      unfolding view advertise get_topic_id
      view-settled =
          view-counted (new_publisher b.next_publisher_id topic) b.current_topics place b.all_topics
            (put_publisher client (b.all_topics place))
            (λ e. record e { publishers = e.publishers ++ client ∷ [] }) v.unique refl place-lt
            (view_topic-publisher (b.all_topics place) b.next_subscriber_id b.next_publisher_id
              (v.topics place place-lt) topic place-name b.next_publisher_id client)

-- In a valid state, a publisher of a topic that is there, and whose answer can be sent, is accepted
-- under the next id, as long as fewer than 100 ids were handed out to publishers. The directory then has it behind the other publishers of that topic, nothing else
-- is changed, and the state stays valid.
pub register_client-advertise :
    (os : BrokerOs) (g : Garbage) (fd : ℤ) (message : Message) (w : World Broker Call)
    → IsValid w.st
    → message.action ≡ register_publisher
    → lists (view w.st) message.topic ≡ true
    → w.st.next_publisher_id < max_publishers
    → Sends os g fd message w (accepted w.st.next_publisher_id)
    → (w' : World Broker Call) × (register_client os g fd message w
        ≡ ok (accepted w.st.next_publisher_id) w')
      × (view w'.st
          ≡ advertise message.topic
              (subscriber g fd message.topic w.st.next_publisher_id)
              (view w.st))
      × (w'.st.next_publisher_id ≡ suc w.st.next_publisher_id)
      × (w'.st.mode ≡ w.st.mode)
      × IsValid w'.st
unfolding do_register
register_client-advertise os g fd message w v action listed h sends =
    let (tr, e) =
      register_client-accepted os g fd message w _ w.st.next_publisher_id
        (new_publisher w.st.next_publisher_id message.topic)
        (rw action (decided message.topic w.st v listed g fd h)) sends in
    (
      record { st = settled message.topic w.st v listed g fd h; trace = tr },
      e,
      view-settled message.topic w.st v listed g fd h,
      refl,
      refl,
      settled-IsValid message.topic w.st v listed g fd h,
    )

-- What a publisher is told that is not accepted.
abbrev pub refusal : Broker → Message → Status
refusal b message = if lists (view b) message.topic then Status.limit else Status.error

refused_publisher :
    (g : Garbage) (fd : ℤ) (message : Message) (b : Broker)
    → (lists (view b) message.topic ≡ true → max_publishers ≤ b.next_publisher_id)
    → do_register_publisher g fd message.topic b ≡ some (b, refused (refusal b message), none)
unfolding do_register_publisher
refused_publisher g fd message b none_left = ground (arith, lists-place message.topic b)

-- A publisher of a topic that is not there is refused with ERROR, and one that comes after 100 ids
-- were handed out with LIMIT, however many of those publishers have left. The state stays as it is. The
-- answer can be sent.
pub register_client-refuse_publisher :
    (os : BrokerOs) (g : Garbage) (fd : ℤ) (message : Message) (w : World Broker Call)
    → message.action ≡ register_publisher
    → (lists (view w.st) message.topic ≡ true → max_publishers ≤ w.st.next_publisher_id)
    → Sends os g fd message w (refused (refusal w.st message))
    → register_client os g fd message w
      ≡ ok (refused (refusal w.st message)) (record {
        st = w.st;
        trace =
            unlock mutex3
            ∷ send_response fd (refused (refusal w.st message))
            ∷ lock mutex3
            ∷ w.trace;
      })
unfolding do_register
register_client-refuse_publisher os g fd message w action none_left sends =
    register_client-refused os g fd message w w.st (refusal w.st message) none
      (rw action (refused_publisher g fd message w.st none_left)) sends

-- Whatever becomes of a publisher, the state stays valid.
pub register_publisher-IsValid :
    (os : BrokerOs) (g : Garbage) (fd : ℤ) (message : Message) (w w' : World Broker Call)
    (r : Response)
    → IsValid w.st
    → message.action ≡ register_publisher
    → register_client os g fd message w ≡ ok r w'
    → IsValid w'.st
unfolding do_register
register_publisher-IsValid os g fd message w w' r v action h =
    elim (Bool-cases (lists (view w.st) message.topic)) [
      | inr unknown ↦ refusing (λ e. absurd (cc))
      | inl listed ↦ elim (Bool-cases (ltb w.st.next_publisher_id max_publishers)) [
        | inr over ↦ refusing (λ _. ground arith)
        | inl left ↦
            subst IsValid
              (register_client-some os g fd message w _ w.st.next_publisher_id r
                (new_publisher w.st.next_publisher_id message.topic) w'
                (rw action (decided message.topic w.st v listed g fd (ground arith))) h)
              (settled-IsValid message.topic w.st v listed g fd (ground arith))
      ]
    ]
  where
    refusing :
        (lists (view w.st) message.topic ≡ true → max_publishers ≤ w.st.next_publisher_id)
        → IsValid w'.st
    refusing none_left =
        subst IsValid
          (register_client-none os g fd message w w.st (refused (refusal w.st message)) r w'
            (rw action (refused_publisher g fd message w.st none_left)) h)
          v
