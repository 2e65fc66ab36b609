-- ===== src/Broker/Unregistration.antt =====
-- `unregister` of practica4/proxy_broker.c against the directory of the broker.
pub mod Subscriber
pub mod Publisher
use mathlib.Core.List.{append_assoc}
use sistemas_distribuidos_y.Common.{
  ℕ, zero, suc, ◌+◌, ◌≤◌, ◌<◌, ℤ, dec, rounds, is_neg, String, true, false, List, [], ◌∷◌, ◌++◌,
  some, ◌≡◌, refl, sym, ◌∙◌, ap, inl, inr, arith, ◌==◌, ltb, lt→ltb, Bool-cases, if◌then◌else◌,
  update, World, ok, ended, slice, slice_ext, IsIn, IsIn-slice,
}
use sistemas_distribuidos_y.Broker.Types.{
  Client, Topic, Broker, Status, Response, Call, BrokerOs, unregister_subscriber,
  unregister_publisher, max_topics, max_subscribers, max_publishers, send_response, send_publish,
  print, eliminado_cliente, resumen,
}
use sistemas_distribuidos_y.Broker.Topics.{find_topic, get_topic_id}
use sistemas_distribuidos_y.Broker.Topics.Lookup.{IsUnique, find_topic-name}
use sistemas_distribuidos_y.Broker.Clients.{
  shift_left, fd_to_del, on_topic, answer_unregister, shift_client_list, print_resumen,
  remove_client, unregister,
}
use sistemas_distribuidos_y.Broker.Clients.Removal.{remove, fd_to_del_lem}
use sistemas_distribuidos_y.Broker.Clients.Roster.{
  find_client-eq, clients-shift_left, IsRoster-shift_left,
}
use sistemas_distribuidos_y.Broker.Directory.{Entry, view_topic, view, alter, alter-slice}
use sistemas_distribuidos_y.Broker.Invariant.{IsTopic, IsValid}

-- The messages that were sent to subscribers, newest first.
abbrev pub publications : List Call → List Call
publications [] = []
publications (send_publish fd p ∷ tr) = send_publish fd p ∷ publications tr
publications (_ ∷ tr) = publications tr

pub publications-append :
    (rows tr : List Call) → publications rows ≡ [] → publications (rows ++ tr) ≡ publications tr
publications-append [] tr h = refl
publications-append (c ∷ rows) tr h = ground (arith, publications-append rows tr)

-- The rows of the summary are printed, and nothing else happens.
pub print_resumen_lem :
    (os : BrokerOs) (n i : ℕ) (w : World Broker Call)
    → (rows : List Call) × (print_resumen os n i w
        ≡ ok tt (record { st = w.st; trace = rows ++ w.trace }))
      × (publications rows ≡ [])
unfolding print_resumen
print_resumen_lem os zero i w = ([], refl, refl)
print_resumen_lem os (suc n) i w =
    let t = w.st.all_topics i in
    let row : Call = print (resumen t.name t.num_subscribers t.num_publishers) in
    let (rows, e, none) = print_resumen_lem os n (suc i) (record w { trace = row ∷ w.trace }) in
    (
      rows ++ row ∷ [],
      e
          ∙ ap (λ tr. ok tt (record { st = w.st; trace = tr }))
              (sym (append_assoc rows (row ∷ []) w.trace)),
      publications-append rows (row ∷ []) none,
    )

-- A table in which the topic at one position was replaced by one of the same name.
module _ (b : Broker) (v : IsValid b) (i : ℕ) (x : Topic) (ts : ℕ → Topic)
    (changed : (k : ℕ) → ts k ≡ (if k == i then x else b.all_topics k)) where
  names : x.name ≡ (b.all_topics i).name → (k : ℕ) → (ts k).name ≡ (b.all_topics k).name
  names e k = ground (arith, changed k)

  pub changed-IsValid :
      x.name ≡ (b.all_topics i).name
      → IsTopic b.next_subscriber_id b.next_publisher_id x
      → (sp pp : ℤ)
      → IsValid (record b { all_topics = ts; next_sub_position = sp; next_pub_position = pp })
  changed-IsValid e t sp pp = record {
    fits = v.fits;
    unchanged = v.unchanged;
    unique = λ j k p q r. v.unique j k p q (sym (names e j) ∙ r ∙ names e k);
    topics = λ k p. elim (Bool-cases (k == i)) [
      | inl here ↦ rw (changed k, here) t
      | inr other ↦ rw (changed k, other) (v.topics k p)
    ];
  }

  pub view-changed :
      (name : String) (f : Entry → Entry)
      → find_topic b.current_topics 0 b.all_topics name ≡ i
      → view_topic x ≡ f (view_topic (b.all_topics i))
      → slice (λ k. view_topic (ts k)) 0 b.current_topics ≡ alter name f (view b)
  unfolding view
  view-changed name f e q =
      slice_ext _ _ 0 b.current_topics at
      ∙ sym (alter-slice b.current_topics 0 i b.all_topics name f e)
    where
      at :
          (k : ℕ)
          → 0 ≤ k
          → k < 0 + b.current_topics
          → view_topic (ts k)
            ≡ (if k == i then f (view_topic (b.all_topics k)) else view_topic (b.all_topics k))
      at k _ _ = elim (Bool-cases (k == i)) [
        | inl here ↦ let r : k ≡ i = ground arith in ap view_topic (changed k) ∙ rw (here, r) q
        | inr other ↦ ap view_topic (changed k) ∙ rw other refl
      ]

-- The last calls of a thread that served a client: the answer to it, a line and the summary, in which
-- no message is sent to a subscriber.
abbrev pub Farewell : String → String → Client → World Broker Call → World Broker Call → Type 0
Farewell kind name c w w' =
    (rows : List Call) × (w'.trace
      ≡ rows
        ++ print (eliminado_cliente c.id kind name)
          ∷ send_response c.fd (record { response_status = Status.ok; id = c.id })
          ∷ w.trace)
    × (publications rows ≡ [])

-- The answer to a client that leaves is sent.
abbrev pub SendsFarewell : BrokerOs → Client → World Broker Call → Type 0
SendsFarewell os c w =
    is_neg (os w.trace (send_response c.fd (record { response_status = Status.ok; id = c.id }))).ret
    ≡ false
