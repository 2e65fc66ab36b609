-- ===== src/Broker/Creation.antt =====
-- What `create_topic` of practica4/proxy_broker.c does to the table of topics, on every branch.
use sistemas_distribuidos_y.Common.{
  ℕ, suc, ◌<◌, String, false, ◌≡◌, ◌≢◌, refl, inl, inr, arith, ◌==◌, Bool-cases, update, slice_snoc,
  ltb, lt→ltb,
}
use sistemas_distribuidos_y.Broker.Types.{
  Topic, Broker, max_topics, max_subscribers, max_publishers,
}
use sistemas_distribuidos_y.Broker.Topics.{find_topic, has_topic, new_topic, create_topic}
use sistemas_distribuidos_y.Broker.Topics.Lookup.{find_topic_first, has_topic-find_topic}
use sistemas_distribuidos_y.Broker.Clients.Roster.{IsRoster-empty}
use sistemas_distribuidos_y.Broker.Directory.{view, view_topic, ensure, lists-slice}
use sistemas_distribuidos_y.Broker.Invariant.{IsValid}

module _ (garbage : Topic) (name : String) (b : Broker) where
  -- A name that is not in the table has no topic.
  absent :
      (k : ℕ)
      → has_topic b.current_topics 0 b.all_topics name ≡ false
      → k < b.current_topics
      → (b.all_topics k).name ≢ name
  absent k h q =
      find_topic_first b.current_topics 0 k b.all_topics name (omega arith)
        (ground (arith, has_topic-find_topic b.current_topics 0 b.all_topics name))

  pub create_topic-IsValid : IsValid b → IsValid (create_topic garbage name b).1
  unfolding create_topic new_topic
  create_topic-IsValid v = elim (Bool-cases (ltb b.current_topics max_topics)) [
    | inr full ↦ rw full v
    | inl room ↦ elim (Bool-cases (has_topic b.current_topics 0 b.all_topics name)) [
      | inl old ↦ rw (room, old) v
      | inr new ↦
          rw (room, new)
            (record {
              fits = ground arith;
              unchanged = v.unchanged;
              unique = λ i j p q e. ground (arith, v.unique i j, absent i new, absent j new);
              topics = λ i p. elim (Bool-cases (b.current_topics == i)) [
                | inl last ↦ rw last (record {
                  subs = IsRoster-empty max_subscribers _ garbage.subscribers;
                  pubs = IsRoster-empty max_publishers _ garbage.publishers;
                })
                | inr old ↦ rw old (v.topics i (ground arith))
              ];
            })
    ]
  ]

  pub view-create_topic :
      b.current_topics < max_topics → view (create_topic garbage name b).1 ≡ ensure name (view b)
  unfolding create_topic view ensure new_topic
  view-create_topic room = elim (Bool-cases (has_topic b.current_topics 0 b.all_topics name)) [
    | inl old ↦
        rw (lt→ltb _ _ room, old, lists-slice b.current_topics 0 b.all_topics name, old) refl
    | inr new ↦
        rw (lt→ltb _ _ room, new, lists-slice b.current_topics 0 b.all_topics name, new)
          (slice_snoc (λ k. view_topic (b.all_topics k))
            (λ k. view_topic (update b.all_topics b.current_topics (new_topic garbage name) k))
            (view_topic (new_topic garbage name)) 0 b.current_topics b.current_topics (omega arith)
            (λ j p q. ground arith) (ground arith))
  ]

  pub create_topic-name :
      IsValid b
      → b.current_topics < max_topics
      → let b1 = (create_topic garbage name b).1 in
        find_topic b1.current_topics 0 b1.all_topics name < b1.current_topics
  unfolding create_topic new_topic
  create_topic-name v room = elim (Bool-cases (has_topic b.current_topics 0 b.all_topics name)) [
    | inl old ↦
        rw (lt→ltb _ _ room, old)
          (ground (arith, has_topic-find_topic b.current_topics 0 b.all_topics name))
    | inr new ↦
        rw (lt→ltb _ _ room, new)
          (ground (
            arith,
            find_topic_first (suc b.current_topics) 0 b.current_topics
                (update b.all_topics b.current_topics (new_topic garbage name)) name,
          ))
  ]

  pub create_topic-status :
      b.current_topics < max_topics → ((create_topic garbage name b).0 == 1) ≡ false
  unfolding create_topic
  create_topic-status room = ground arith

  -- The ids that are handed out next, and the count of subscribers that no code keeps, stay.
  pub create_topic_ids :
      let b1 = (create_topic garbage name b).1 in
      (b1.next_subscriber_id ≡ b.next_subscriber_id)
      × (b1.next_publisher_id ≡ b.next_publisher_id)
      × (b1.current_subscribers ≡ b.current_subscribers)
  unfolding create_topic
  create_topic_ids = ground arith
