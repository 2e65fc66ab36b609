-- ===== src/Broker/Counting.antt =====
-- The loop of `talk_to_client` (practica4/proxy_broker.c) that counts a new client, as a change of
-- the table of topics.
use sistemas_distribuidos_y.Common.{
  ℕ, zero, suc, ◌+◌, ◌≤◌, ◌<◌, eq_iff, List, ◌≡◌, refl, ◌∙◌, ap, sym, inl, inr, arith, ◌==◌,
  Bool-cases, if◌then◌else◌, update, slice, slice_ext, ltb, World, ok, fun_ext,
}
use sistemas_distribuidos_y.Broker.Types.{Topic, Broker, Call, BrokerOs}
use sistemas_distribuidos_y.Broker.Topics.{find_topic}
use sistemas_distribuidos_y.Broker.Topics.Lookup.{IsUnique, find_topic-name}
use sistemas_distribuidos_y.Broker.Sessions.{NewClient, count_client, count_and_print}
use sistemas_distribuidos_y.Broker.Clients.Roster.{IsRoster-mono}
use sistemas_distribuidos_y.Broker.Invariant.{IsTopic, IsValid}
use sistemas_distribuidos_y.Broker.Directory.{Entry, view_topic, alter, alter-slice}

-- The table after the rounds from `i` to `j`.
abbrev pub counted : NewClient → ℕ → ℕ → (ℕ → Topic) → ℕ → Topic
counted c i j ts k = if ltb k i then ts k else if ltb k j then count_client c (ts k) else ts k

abbrev with_topics : World Broker Call → (ℕ → Topic) → List Call → World Broker Call
with_topics w ts tr = record { st = record w.st { all_topics = ts }; trace = tr }

-- The loop ends, and changes nothing but the table.
pub count_and_print_lem :
    (os : BrokerOs) (c : NewClient) (n i j : ℕ) (w : World Broker Call)
    → i + n ≡ j
    → (tr : List Call) × (count_and_print os c n i w
        ≡ ok tt (record {
          st = record w.st { all_topics = counted c i j w.st.all_topics };
          trace = tr;
        }))
unfolding count_and_print
count_and_print_lem os c zero i j w h =
    (w.trace, ap (λ ts. ok tt (with_topics w ts w.trace)) (fun_ext (λ k. ground arith)))
count_and_print_lem os c (suc n) i j w h =
    let (tr, e) = count_and_print_lem os c n (suc i) j _ (omega arith) in
    (tr, e ∙ ap (λ ts. ok tt (with_topics w ts tr)) (fun_ext (λ k. ground arith)))

-- Only the topic that the client was put into changes, if its name is on one topic only.
pub counted_at :
    (c : NewClient) (n i k : ℕ) (ts : ℕ → Topic) (x : Topic)
    → IsUnique n ts
    → i < n
    → k < n
    → (ts i).name ≡ c.topic
    → counted c 0 n (update ts i x) k ≡ (if k == i then count_client c x else ts k)
unfolding count_client
counted_at c n i k ts x unique p q e = elim (Bool-cases (k == i)) [
  | inl here ↦ ground arith
  | inr other ↦ ground (arith, eq_iff c.topic (ts k).name, unique i k)
]

-- So the directory changes at the entry of that name.
pub view-counted :
    (c : NewClient) (n i : ℕ) (ts : ℕ → Topic) (x : Topic) (f : Entry → Entry)
    → IsUnique n ts
    → find_topic n 0 ts c.topic ≡ i
    → i < n
    → view_topic (count_client c x) ≡ f (view_topic (ts i))
    → slice (λ k. view_topic (counted c 0 n (update ts i x) k)) 0 n
      ≡ alter c.topic f (slice (λ k. view_topic (ts k)) 0 n)
view-counted c n i ts x f unique e p g =
    slice_ext _ _ 0 n at ∙ sym (alter-slice n 0 i ts c.topic f e)
  where
    named : (ts i).name ≡ c.topic
    named = rw (← e) (find_topic-name n 0 ts c.topic (omega arith))

    at :
        (k : ℕ)
        → 0 ≤ k
        → k < 0 + n
        → view_topic (counted c 0 n (update ts i x) k)
          ≡ (if k == i then f (view_topic (ts k)) else view_topic (ts k))
    at k a b = elim (Bool-cases (k == i)) [
      | inl here ↦
          let q : k ≡ i = ground arith in
          ap view_topic (counted_at c n i k ts x unique p (omega arith) named) ∙ rw (here, q) g
      | inr other ↦
          ap view_topic (counted_at c n i k ts x unique p (omega arith) named) ∙ rw other refl
    ]

count_client-name : (c : NewClient) (t : Topic) → (count_client c t).name ≡ t.name
unfolding count_client
count_client-name c t = ground arith

-- The state stays valid when a client is put into the topic `i` and counted.
pub counted-IsValid :
    (b : Broker) (c : NewClient) (i s p : ℕ) (x : Topic)
    → IsValid b
    → i < b.current_topics
    → (b.all_topics i).name ≡ c.topic
    → x.name ≡ (b.all_topics i).name
    → b.next_subscriber_id ≤ s
    → b.next_publisher_id ≤ p
    → IsTopic s p (count_client c x)
    → IsValid (record b {
      next_subscriber_id = s;
      next_publisher_id = p;
      all_topics = counted c 0 b.current_topics (update b.all_topics i x);
    })
counted-IsValid b c i s p x v h named same hs hp t = record {
  fits = v.fits;
  unchanged = v.unchanged;
  unique = λ j k q r e. v.unique j k q r (sym (name-at j q) ∙ e ∙ name-at k r);
  topics = λ k q. elim (Bool-cases (k == i)) [
    | inl here ↦ rw (at k q, here) t
    | inr other ↦ rw (at k q, other) (grow (v.topics k q))
  ];
}
  where
    at :
        (k : ℕ)
        → k < b.current_topics
        → counted c 0 b.current_topics (update b.all_topics i x) k
          ≡ (if k == i then count_client c x else b.all_topics k)
    at k q = counted_at c b.current_topics i k b.all_topics x v.unique h q named

    name-at :
        (k : ℕ)
        → k < b.current_topics
        → (counted c 0 b.current_topics (update b.all_topics i x) k).name ≡ (b.all_topics k).name
    name-at k q = ground (arith, at k q, count_client-name c x)

    grow : {t : Topic} → IsTopic b.next_subscriber_id b.next_publisher_id t → IsTopic s p t
    grow u = record { subs = IsRoster-mono hs u.subs; pubs = IsRoster-mono hp u.pubs }
