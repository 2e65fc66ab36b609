-- ===== src/Broker/Registration/Placing.antt =====
-- Where practica4/proxy_broker.c puts a new subscriber, and the state that it leaves.
use sistemas_distribuidos_y.Common.{
  ℕ, suc, ◌≤◌, ◌<◌, ℤ, rounds, String, [], ◌∷◌, ◌++◌, subst, length, length-slice, some, none, ◌≡◌,
  refl, sym, ◌∙◌, ap, arith, update,
}
use sistemas_distribuidos_y.Broker.Types.{Client, Broker, max_topics, max_subscribers}
use sistemas_distribuidos_y.Broker.Topics.{get_topic_id, create_topic}
use sistemas_distribuidos_y.Broker.Topics.Lookup.{find_topic-name}
use sistemas_distribuidos_y.Broker.Clients.{on_topic}
use sistemas_distribuidos_y.Broker.Sessions.{
  Garbage, add_subscriber, do_register_subscriber, accepted,
}
use sistemas_distribuidos_y.Broker.Directory.{
  view, alter, subscribe, subscribers_of, members_of-ensure, members_of-slice,
}
use sistemas_distribuidos_y.Broker.Invariant.{IsTopic, IsValid}
use sistemas_distribuidos_y.Broker.Creation.{
  create_topic-IsValid, view-create_topic, create_topic-name, create_topic-status, create_topic_ids,
}
use sistemas_distribuidos_y.Broker.Counting.{counted, counted-IsValid, view-counted}
use sistemas_distribuidos_y.Broker.Registration.{
  store_lem, store_full, subscriber, new_subscriber, put_subscriber, view_topic-subscriber,
  IsTopic-subscriber,
}

-- A valid broker that has room for a topic, and the one with the topic in it.
module _ (g : Garbage) (topic : String) (b : Broker) (v : IsValid b)
    (h : b.current_topics < max_topics) where
  abbrev pub with_topic : Broker
  with_topic = (create_topic g.topic topic b).1

  abbrev pub place : ℕ
  place = get_topic_id with_topic topic

  valid : IsValid with_topic
  valid = create_topic-IsValid g.topic topic b v

  place-lt : place < with_topic.current_topics
  unfolding get_topic_id
  place-lt = create_topic-name g.topic topic b v h

  place-name : (with_topic.all_topics place).name ≡ topic
  unfolding get_topic_id
  place-name =
      find_topic-name with_topic.current_topics 0 with_topic.all_topics topic
        (omega (arith, create_topic-name g.topic topic b v h))

  -- The counter of the topic is the number of its subscribers.
  rounds-place :
      rounds (with_topic.all_topics place).num_subscribers ≡ length (subscribers_of topic (view b))
  unfolding view get_topic_id
  rounds-place =
      sym (length-slice _ 0 _)
      ∙ ap length (
          sym (
            members_of-slice (λ e. e.subscribers) topic with_topic.current_topics 0
              with_topic.all_topics (omega (arith, create_topic-name g.topic topic b v h)))
          ∙ ap (subscribers_of topic) (view-create_topic g.topic topic b h)
          ∙ members_of-ensure (λ e. e.subscribers) topic (view b) refl)

  module _ (fd : ℤ) where
    abbrev pub client : Client
    client = subscriber g fd topic b.next_subscriber_id

    pub decided :
        length (subscribers_of topic (view b)) < max_subscribers
        → do_register_subscriber g fd topic b
          ≡ some (
            record (on_topic place (put_subscriber client) with_topic) {
              next_subscriber_id = suc b.next_subscriber_id;
            },
            accepted b.next_subscriber_id,
            some (new_subscriber b.next_subscriber_id topic),
          )
    unfolding do_register_subscriber add_subscriber
    decided room = ground (
      arith,
      create_topic-status g.topic topic b h,
      create_topic_ids g.topic topic b,
      valid.unchanged,
      rounds-place,
      store_lem max_subscribers with_topic.next_subscriber_id
          (with_topic.all_topics place).subscribers (with_topic.all_topics place).num_subscribers
          client (valid.topics place place-lt).subs,
    )

    pub overflows :
        max_subscribers ≤ length (subscribers_of topic (view b))
        → do_register_subscriber g fd topic b ≡ none
    unfolding do_register_subscriber add_subscriber
    overflows over = ground (
      arith,
      create_topic-status g.topic topic b h,
      create_topic_ids g.topic topic b,
      valid.unchanged,
      rounds-place,
      store_full max_subscribers (with_topic.all_topics place).subscribers
          (with_topic.all_topics place).num_subscribers
          (subscriber g fd topic with_topic.next_subscriber_id),
    )

    -- The state after the client was counted.
    abbrev pub settled : Broker
    settled = record with_topic {
      next_subscriber_id = suc b.next_subscriber_id;
      all_topics = counted (new_subscriber b.next_subscriber_id topic) 0 with_topic.current_topics (
          update with_topic.all_topics place (put_subscriber client (with_topic.all_topics place)));
    }

    pub settled-IsValid : length (subscribers_of topic (view b)) < max_subscribers → IsValid settled
    settled-IsValid room =
        counted-IsValid with_topic (new_subscriber b.next_subscriber_id topic) place
          (suc b.next_subscriber_id) with_topic.next_publisher_id
          (put_subscriber client (with_topic.all_topics place)) valid place-lt place-name refl
          (omega (arith, create_topic_ids g.topic topic b)) (omega arith)
          (IsTopic-subscriber (with_topic.all_topics place) b.next_subscriber_id
            with_topic.next_publisher_id entry topic place-name client (omega (arith, rounds-place))
            refl)
      where
        entry :
            IsTopic b.next_subscriber_id with_topic.next_publisher_id (with_topic.all_topics place)
        entry =
            subst (λ s. IsTopic s with_topic.next_publisher_id (with_topic.all_topics place))
              (create_topic_ids g.topic topic b).0 (valid.topics place place-lt)

    pub view-settled : view settled ≡ subscribe topic client (view b)
    unfolding view subscribe get_topic_id
    view-settled =
        view-counted (new_subscriber b.next_subscriber_id topic) with_topic.current_topics place
          with_topic.all_topics (put_subscriber client (with_topic.all_topics place))
          (λ e. record e { subscribers = e.subscribers ++ client ∷ [] }) valid.unique refl place-lt
          (view_topic-subscriber (with_topic.all_topics place) with_topic.next_subscriber_id
            with_topic.next_publisher_id (valid.topics place place-lt) topic place-name
            b.next_subscriber_id client)
        ∙ ap (alter topic (λ e. record e { subscribers = e.subscribers ++ client ∷ [] }))
            (view-create_topic g.topic topic b h)
