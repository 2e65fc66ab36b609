-- ===== src/Broker/Topics.antt =====
-- The table of topics: `get_topic_id` and `create_topic` of practica4/proxy_broker.c.
pub mod Lookup
use sistemas_distribuidos_y.Common.{
  ℕ, zero, suc, pos, String, Bool, true, false, str_eq, ltb, if◌then◌else◌, update,
}
use sistemas_distribuidos_y.Broker.Types.{Topic, Broker, max_topics}

-- The loop of `get_topic_id`, with `n` rounds left, at position `i`: the position of the first topic
-- with that name, or the end.
unfoldable pub find_topic : ℕ → ℕ → (ℕ → Topic) → String → ℕ
find_topic zero i ts name = i
find_topic (suc n) i ts name = if str_eq (ts i).name name then i else find_topic n (suc i) ts name

unfoldable pub get_topic_id : Broker → String → ℕ
get_topic_id b name = find_topic b.current_topics 0 b.all_topics name

-- The loop of `create_topic` over the topics there are.
unfoldable pub has_topic : ℕ → ℕ → (ℕ → Topic) → String → Bool
has_topic zero i ts name = false
has_topic (suc n) i ts name = if str_eq (ts i).name name then true else has_topic n (suc i) ts name

-- The local variable `new_topic`, of which three fields are set: `garbage` is what was there before.
unfoldable pub new_topic : Topic → String → Topic
new_topic garbage name = record garbage {
  name = name;
  num_subscribers = pos 0;
  num_publishers = pos 0;
}

-- Returns 0 if the topic was created, 2 if there was one, and 1 if there is no room.
unfoldable pub create_topic : Topic → String → Broker → ℕ × Broker
create_topic garbage name b =
    if ltb b.current_topics max_topics
    then (if has_topic b.current_topics 0 b.all_topics name then (2, b) else (
      0,
      record b {
        all_topics = update b.all_topics b.current_topics (new_topic garbage name);
        current_topics = suc b.current_topics;
      },
    ))
    else (1, b)
