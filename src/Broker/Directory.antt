-- ===== src/Broker/Directory.antt =====
-- The broker of practica4/proxy_broker.c as a client sees it: a list of topics, each with the
-- subscribers and the publishers that are registered, in the order in which they came.
use sistemas_distribuidos_y.Common.{
  ℕ, zero, suc, ◌+◌, ◌<◌, String, str_eq, Bool, true, false, List, [], ◌∷◌, ◌++◌, ◌≡◌, refl, ap₂,
  inl, inr, arith, ◌==◌, Bool-cases, if◌then◌else◌, slice, slice_ext, IsIn,
}
use sistemas_distribuidos_y.Broker.Types.{Client, Topic, Broker}
use sistemas_distribuidos_y.Broker.Topics.{find_topic, has_topic}
use sistemas_distribuidos_y.Broker.Topics.Lookup.{find_topic_bounds}
use sistemas_distribuidos_y.Broker.Clients.Roster.{clients}

pub record Entry : Type 0 where
  pub name : String
  pub subscribers : List Client
  pub publishers : List Client

abbrev pub Directory : Type 0
Directory = List Entry

abbrev pub view_topic : Topic → Entry
view_topic t = record {
  name = t.name;
  subscribers = clients t.subscribers t.num_subscribers;
  publishers = clients t.publishers t.num_publishers;
}

unfoldable pub view : Broker → Directory
view b = slice (λ k. view_topic (b.all_topics k)) 0 b.current_topics

-- A change of the first entry of a name.
unfoldable pub alter : String → (Entry → Entry) → Directory → Directory
alter name f [] = []
alter name f (e ∷ es) = if str_eq e.name name then f e ∷ es else e ∷ alter name f es

unfoldable pub lists : Directory → String → Bool
lists [] name = false
lists (e ∷ es) name = if str_eq e.name name then true else lists es name

-- The directory with the topic, at the end if it is new.
unfoldable pub ensure : String → Directory → Directory
unfolding lists
ensure name d =
    if lists d name then d else d ++ record { name = name; subscribers = []; publishers = [] } ∷ []

-- What a registration and a removal should do.
unfoldable pub subscribe : String → Client → Directory → Directory
subscribe name c d =
    alter name (λ e. record e { subscribers = e.subscribers ++ c ∷ [] }) (ensure name d)

unfoldable pub advertise : String → Client → Directory → Directory
advertise name c d = alter name (λ e. record e { publishers = e.publishers ++ c ∷ [] }) d

-- A part of the first entry of a name, and nothing if there is no such entry.
unfoldable pub members_of : (Entry → List Client) → String → Directory → List Client
members_of part name [] = []
members_of part name (e ∷ es) = if str_eq e.name name then part e else members_of part name es

abbrev pub subscribers_of : String → Directory → List Client
subscribers_of = members_of (λ e. e.subscribers)

abbrev pub publishers_of : String → Directory → List Client
publishers_of = members_of (λ e. e.publishers)

module _ (part : Entry → List Client) (name : String) where
  members_of-append :
      (d : Directory) (e : Entry)
      → lists d name ≡ false
      → part e ≡ []
      → members_of part name (d ++ e ∷ []) ≡ members_of part name d
  unfolding members_of lists
  members_of-append [] e h q = ground arith
  members_of-append (x ∷ d) e h q = ground (arith, members_of-append d e)

  pub members_of-ensure :
      (d : Directory)
      → part (record { name = name; subscribers = []; publishers = [] }) ≡ []
      → members_of part name (ensure name d) ≡ members_of part name d
  unfolding ensure
  members_of-ensure d h = elim (Bool-cases (lists d name)) [
    | inl old ↦ rw old refl
    | inr new ↦ rw new (members_of-append d _ new h)
  ]

  -- They stand at the position that the code searches for.
  pub members_of-slice :
      (n i : ℕ) (ts : ℕ → Topic)
      → find_topic n i ts name < i + n
      → members_of part name (slice (λ k. view_topic (ts k)) i n)
        ≡ part (view_topic (ts (find_topic n i ts name)))
  unfolding members_of find_topic
  members_of-slice zero i ts h = absurd (omega arith)
  members_of-slice (suc n) i ts h = elim (Bool-cases (str_eq (ts i).name name)) [
    | inl here ↦ rw here refl
    | inr later ↦ rw later (members_of-slice n (suc i) ts (ground arith))
  ]

  -- A topic that has members is found.
  pub members_of-found :
      (n i : ℕ) (ts : ℕ → Topic) (c : Client)
      → IsIn c (members_of part name (slice (λ k. view_topic (ts k)) i n))
      → find_topic n i ts name < i + n
  unfolding members_of find_topic
  members_of-found zero i ts c m = absurd m
  members_of-found (suc n) i ts c m = elim (Bool-cases (str_eq (ts i).name name)) [
    | inl here ↦ rw here (omega arith)
    | inr later ↦ rw later (omega (arith, members_of-found n (suc i) ts c (rw later at m)))
  ]

pub lists-slice :
    (n i : ℕ) (ts : ℕ → Topic) (name : String)
    → lists (slice (λ k. view_topic (ts k)) i n) name ≡ has_topic n i ts name
unfolding lists has_topic
lists-slice zero i ts name = refl
lists-slice (suc n) i ts name = ground (arith, lists-slice n (suc i) ts name)

-- A change of the first entry of a name is a change at the position that the code searches for.
pub alter-slice :
    (n i p : ℕ) (ts : ℕ → Topic) (name : String) (f : Entry → Entry)
    → find_topic n i ts name ≡ p
    → alter name f (slice (λ k. view_topic (ts k)) i n)
      ≡ slice (λ k. if k == p then f (view_topic (ts k)) else view_topic (ts k)) i n
unfolding alter find_topic
alter-slice zero i p ts name f e = refl
alter-slice (suc n) i p ts name f e = elim (Bool-cases (str_eq (ts i).name name)) [
  | inl here ↦ rw here (ap₂ ◌∷◌ (ground arith) (slice_ext _ _ (suc i) n (λ k q r. ground arith)))
  | inr later ↦ rw later (
      ap₂ ◌∷◌ (ground (arith, find_topic_bounds n (suc i) ts name))
        (alter-slice n (suc i) p ts name f (ground arith)))
]
