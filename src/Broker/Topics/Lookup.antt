-- ===== src/Broker/Topics/Lookup.antt =====
-- What the search for a topic of practica4/proxy_broker.c finds.
use sistemas_distribuidos_y.Common.{
  ℕ, zero, suc, ◌+◌, ◌≤◌, ◌<◌, String, eq_iff, ◌≡◌, ◌≢◌, inl, inr, arith, ltb, Bool-cases,
}
use sistemas_distribuidos_y.Broker.Types.{Topic}
use sistemas_distribuidos_y.Broker.Topics.{find_topic, has_topic}

pub find_topic_bounds :
    (n i : ℕ) (ts : ℕ → Topic) (name : String)
    → (i ≤ find_topic n i ts name) × (find_topic n i ts name ≤ i + n)
unfolding find_topic
find_topic_bounds zero i ts name = omega arith
find_topic_bounds (suc n) i ts name = ground (arith, find_topic_bounds n (suc i) ts name)

-- Below the end, what is found has the name.
pub find_topic-name :
    (n i : ℕ) (ts : ℕ → Topic) (name : String)
    → find_topic n i ts name < i + n
    → (ts (find_topic n i ts name)).name ≡ name
unfolding find_topic
find_topic-name zero i ts name h = absurd (omega arith)
find_topic-name (suc n) i ts name h =
    ground (arith, eq_iff (ts i).name name, find_topic-name n (suc i) ts name)

-- No topic in front of it has.
pub find_topic_first :
    (n i k : ℕ) (ts : ℕ → Topic) (name : String)
    → i ≤ k
    → k < find_topic n i ts name
    → (ts k).name ≢ name
unfolding find_topic
find_topic_first zero i k ts name p q = absurd (omega arith)
find_topic_first (suc n) i k ts name p q = elim (Bool-cases (ltb i k)) [
  | inl later ↦ ground (arith, find_topic_first n (suc i) k ts name)
  | inr here ↦ ground (arith, eq_iff (ts i).name name)
]

pub has_topic-find_topic :
    (n i : ℕ) (ts : ℕ → Topic) (name : String)
    → has_topic n i ts name ≡ ltb (find_topic n i ts name) (i + n)
unfolding find_topic has_topic
has_topic-find_topic zero i ts name = ground arith
has_topic-find_topic (suc n) i ts name = ground (arith, has_topic-find_topic n (suc i) ts name)

-- The names of the first `n` topics differ.
abbrev pub IsUnique : ℕ → (ℕ → Topic) → Type 0
IsUnique n ts = (i j : ℕ) → i < n → j < n → (ts i).name ≡ (ts j).name → i ≡ j

pub find_topic_unique :
    (n p : ℕ) (ts : ℕ → Topic) (name : String)
    → IsUnique n ts
    → p < n
    → (ts p).name ≡ name
    → find_topic n 0 ts name ≡ p
find_topic_unique n p ts name unique h e = ground (
  arith,
  find_topic_first n 0 p ts name,
  find_topic-name n 0 ts name,
  unique (find_topic n 0 ts name) p,
)
