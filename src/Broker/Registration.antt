-- ===== src/Broker/Registration.antt =====
-- Registration of a client by `talk_to_client` of practica4/proxy_broker.c: what is decided about a
-- subscriber and about a publisher, and what becomes of the topic that it goes to.
pub mod Placing
pub mod Subscribing
pub mod Advertising
use sistemas_distribuidos_y.Common.{
  ℕ, zero, suc, ◌+◌, ◌≤◌, ◌<◌, ℤ, pos, inc, rounds, String, str_eq, eq_iff, true, false, List, [],
  ◌∷◌, ◌++◌, Option, some, none, ◌≡◌, ◌≢◌, refl, sym, ◌∙◌, ap, inl, inr, arith, ◌==◌, ltb, lt→ltb,
  Bool-cases, if◌then◌else◌, update,
}
use sistemas_distribuidos_y.Broker.Types.{
  Client, Topic, Broker, Status, Response, max_topics, max_subscribers, max_publishers,
}
use sistemas_distribuidos_y.Broker.Topics.{
  find_topic, get_topic_id, has_topic, new_topic, create_topic,
}
use sistemas_distribuidos_y.Broker.Topics.Lookup.{find_topic-name, find_topic_bounds, IsUnique}
use sistemas_distribuidos_y.Broker.Clients.{on_topic}
use sistemas_distribuidos_y.Broker.Clients.Roster.{
  clients, clients-update, IsRoster, IsRoster-mono, IsRoster-update,
}
use sistemas_distribuidos_y.Broker.Sessions.{
  Garbage, NewClient, Registration, store, add_subscriber, do_register_subscriber, add_publisher,
  do_register_publisher, count_client, accepted, refused,
}
use sistemas_distribuidos_y.Broker.Directory.{view_topic, Entry, view, alter}
use sistemas_distribuidos_y.Broker.Invariant.{IsTopic, IsValid}
use sistemas_distribuidos_y.Broker.Creation.{
  create_topic-IsValid, create_topic-name, create_topic-status,
}
use sistemas_distribuidos_y.Broker.Counting.{counted, counted_at, view-counted}

pub store_lem :
    (max next : ℕ) (cs : ℕ → Client) (num : ℤ) (c : Client)
    → IsRoster max next cs num
    → rounds num < max
    → store max cs num c ≡ some (update cs (rounds num) c)
unfolding store
store_lem max next cs (pos n) c v h = ground arith
store_lem max next cs num c v h = absurd (ground (arith, v.nonneg))

-- An array with no room for one more client.
pub store_full :
    (max : ℕ) (cs : ℕ → Client) (num : ℤ) (c : Client)
    → max ≤ rounds num
    → store max cs num c ≡ none
unfolding store
store_full max cs (pos n) c h = ground arith
store_full max cs num c h = refl

-- The entries that the code writes for a new client.
abbrev pub subscriber : Garbage → ℤ → String → ℕ → Client
subscriber g fd topic id = record g.client { fd = fd; topic = topic; id = pos id }

abbrev pub new_subscriber : ℕ → String → NewClient
new_subscriber id topic = record { id = pos id; client_type = "Suscriptor"; topic = topic }

abbrev pub new_publisher : ℕ → String → NewClient
new_publisher id topic = record { id = pos id; client_type = "Publicador"; topic = topic }

abbrev pub put_subscriber : Client → Topic → Topic
put_subscriber c t = record t { subscribers = update t.subscribers (rounds t.num_subscribers) c }

abbrev pub put_publisher : Client → Topic → Topic
put_publisher c t = record t { publishers = update t.publishers (rounds t.num_publishers) c }

module _ (t : Topic) (s p : ℕ) (v : IsTopic s p t) (topic : String) (named : t.name ≡ topic) where
  -- Stored and counted, a client stands behind the others of its topic.
  pub view_topic-subscriber :
      (id : ℕ) (c : Client)
      → view_topic (count_client (new_subscriber id topic) (put_subscriber c t))
        ≡ record (view_topic t) { subscribers = clients t.subscribers t.num_subscribers ++ c ∷ [] }
  unfolding count_client
  view_topic-subscriber id c = ground (arith, eq_iff topic t.name, clients-update v.subs c)

  pub view_topic-publisher :
      (id : ℕ) (c : Client)
      → view_topic (count_client (new_publisher id topic) (put_publisher c t))
        ≡ record (view_topic t) { publishers = clients t.publishers t.num_publishers ++ c ∷ [] }
  unfolding count_client
  view_topic-publisher id c = ground (arith, eq_iff topic t.name, clients-update v.pubs c)

  pub IsTopic-subscriber :
      (c : Client)
      → rounds t.num_subscribers < max_subscribers
      → c.id ≡ pos s
      → IsTopic (suc s) p (count_client (new_subscriber s topic) (put_subscriber c t))
  unfolding count_client
  IsTopic-subscriber c h e =
      rw ((eq_iff topic t.name).1 (sym named))
        (record { subs = IsRoster-update v.subs c h e; pubs = v.pubs })

  pub IsTopic-publisher :
      (c : Client)
      → rounds t.num_publishers < max_publishers
      → c.id ≡ pos p
      → IsTopic s (suc p) (count_client (new_publisher p topic) (put_publisher c t))
  unfolding count_client
  IsTopic-publisher c h e =
      rw ((eq_iff topic t.name).1 (sym named))
        (record { subs = v.subs; pubs = IsRoster-update v.pubs c h e })
