-- ===== src/Broker/Invariant.antt =====
-- What holds of the state of the broker (practica4/proxy_broker.c) between two requests.
use sistemas_distribuidos_y.Common.{ℕ, ◌≤◌, ◌<◌, ◌≡◌}
use sistemas_distribuidos_y.Broker.Types.{
  Topic, Broker, max_topics, max_publishers, max_subscribers,
}
use sistemas_distribuidos_y.Broker.Topics.Lookup.{IsUnique}
use sistemas_distribuidos_y.Broker.Clients.Roster.{IsRoster}

pub record IsTopic (next_subscriber next_publisher : ℕ) (t : Topic) : Type 0 where
  pub subs : IsRoster max_subscribers next_subscriber t.subscribers t.num_subscribers
  pub pubs : IsRoster max_publishers next_publisher t.publishers t.num_publishers

-- The topics fit their table and have different names, and the clients of each are in order. No code
-- changes `current_subscribers`.
pub record IsValid (b : Broker) : Type 0 where
  pub fits : b.current_topics ≤ max_topics
  pub unchanged : b.current_subscribers ≡ 0
  pub unique : IsUnique b.current_topics b.all_topics
  pub topics :
      (i : ℕ)
      → i < b.current_topics
      → IsTopic b.next_subscriber_id b.next_publisher_id (b.all_topics i)
