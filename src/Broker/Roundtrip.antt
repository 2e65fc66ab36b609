-- ===== src/Broker/Roundtrip.antt =====
-- A subscriber or a publisher that registers and leaves again (practica4/proxy_broker.c).
use sistemas_distribuidos_y.Common.{
  ◌<◌, ℤ, pos, eq_ℤ, eq_ℤ_iff, String, str_eq, eq_iff, true, List, [], ◌∷◌, ◌++◌, length, ◌≡◌, ◌≢◌,
  refl, ◌∙◌, ap, inl, inr, arith, Bool-cases, World, ok, ended, IsIn, IsIn-slice,
}
use sistemas_distribuidos_y.Broker.Types.{
  Client, Broker, Message, Call, BrokerOs, register_subscriber, unregister_subscriber,
  unregister_publisher, max_topics, max_subscribers,
}
use sistemas_distribuidos_y.Broker.Topics.{find_topic}
use sistemas_distribuidos_y.Broker.Clients.{unregister}
use sistemas_distribuidos_y.Broker.Clients.Removal.{remove}
use sistemas_distribuidos_y.Broker.Sessions.{Garbage, register_client, accepted}
use sistemas_distribuidos_y.Broker.Sessions.Register.{Sends}
use sistemas_distribuidos_y.Broker.Directory.{
  Entry, Directory, view, lists, alter, ensure, subscribe, advertise, subscribers_of, publishers_of,
  members_of, members_of-found, members_of-slice, members_of-ensure,
}
use sistemas_distribuidos_y.Broker.Invariant.{IsValid}
use sistemas_distribuidos_y.Broker.Registration.{subscriber}
use sistemas_distribuidos_y.Broker.Registration.Subscribing.{register_client-subscribe}
use sistemas_distribuidos_y.Broker.Unregistration.{Farewell, SendsFarewell}
use sistemas_distribuidos_y.Broker.Unregistration.Publisher.{unregister-unadvertise}
use sistemas_distribuidos_y.Broker.Unregistration.Subscriber.{unregister-unsubscribe}

-- No client of the list has the id.
abbrev Lacks : ℤ → List Client → Type 0
Lacks id cs = (c : Client) → IsIn c cs → c.id ≢ id

remove-append : (cs : List Client) (c : Client) → Lacks c.id cs → remove c.id (cs ++ c ∷ []) ≡ cs
unfolding remove
remove-append [] c h = rw ((eq_ℤ_iff c.id c.id).1 refl) refl
remove-append (x ∷ cs) c h = elim (Bool-cases (eq_ℤ x.id c.id)) [
  | inl same ↦ absurd (h x (inl refl) ((eq_ℤ_iff x.id c.id).0 same))
  | inr other ↦ rw other (ap (◌∷◌ x) (remove-append cs c (λ d m. h d (inr m))))
]

-- The subscribers or the publishers of an entry.
record Part : Type 0 where
  get : Entry → List Client
  put : Entry → List Client → Entry
  put_name : (e : Entry) (cs : List Client) → (put e cs).name ≡ e.name
  get-put : (e : Entry) (cs : List Client) → get (put e cs) ≡ cs
  put-put : (e : Entry) (cs : List Client) → put (put e cs) (get e) ≡ e

abbrev the_subscribers : Part
the_subscribers = record {
  get = λ e. e.subscribers;
  put = λ e cs. record e { subscribers = cs };
  put_name = λ e cs. refl;
  get-put = λ e cs. refl;
  put-put = λ e cs. refl;
}

abbrev the_publishers : Part
the_publishers = record {
  get = λ e. e.publishers;
  put = λ e cs. record e { publishers = cs };
  put_name = λ e cs. refl;
  get-put = λ e cs. refl;
  put-put = λ e cs. refl;
}

module _ (part : Part) (name : String) (c : Client) where
  abbrev added : Entry → Entry
  added e = part.put e (part.get e ++ c ∷ [])

  -- Putting a client behind the others and taking it away again.
  alter-alter :
      (d : Directory)
      → Lacks c.id (members_of part.get name d)
      → alter name (λ e. part.put e (remove c.id (part.get e))) (alter name added d) ≡ d
  unfolding alter members_of
  alter-alter [] h = refl
  alter-alter (e ∷ d) h = elim (Bool-cases (str_eq e.name name)) [
    | inl here ↦
        rw
          (
            here,
            part.put_name e (part.get e ++ c ∷ []),
            here,
            part.get-put e (part.get e ++ c ∷ []),
            remove-append (part.get e) c (rw here at h),
            part.put-put e (part.get e ++ c ∷ []),
          )
          refl
    | inr later ↦ rw later (rw later (ap (◌∷◌ e) (alter-alter d (rw later at h))))
  ]

  member :
      (d : Directory) → lists d name ≡ true → IsIn c (members_of part.get name (alter name added d))
  unfolding alter members_of lists
  member [] h = cc
  member (e ∷ d) h = elim (Bool-cases (str_eq e.name name)) [
    | inl here ↦
        rw
          (
            here,
            part.put_name e (part.get e ++ c ∷ []),
            here,
            part.get-put e (part.get e ++ c ∷ []),
          )
          (at_end (part.get e))
    | inr later ↦ rw later (rw later (member d (rw later at h)))
  ]
    where
      at_end : (cs : List Client) → IsIn c (cs ++ c ∷ [])
      at_end [] = inl refl
      at_end (x ∷ cs) = inr (at_end cs)

module _ (name : String) where
  lists-append :
      (d : Directory)
      → lists (d ++ record { name = name; subscribers = []; publishers = [] } ∷ []) name ≡ true
  unfolding lists
  lists-append [] = rw ((eq_iff name name).1 refl) refl
  lists-append (e ∷ d) = ground (arith, lists-append d)

  lists-ensure : (d : Directory) → lists (ensure name d) name ≡ true
  unfolding ensure
  lists-ensure d = elim (Bool-cases (lists d name)) [
    | inl old ↦ rw old old
    | inr new ↦ rw new (lists-append d)
  ]

-- The id that is handed out next belongs to no subscriber.
fresh :
    (b : Broker) (name : String)
    → IsValid b
    → Lacks (pos b.next_subscriber_id) (subscribers_of name (view b))
unfolding view
fresh b name v c m e =
    let found = members_of-found (λ e. e.subscribers) name b.current_topics 0 b.all_topics c m in
    let (k, _, h, q) = IsIn-slice c _ 0 _ (
      rw (members_of-slice (λ e. e.subscribers) name b.current_topics 0 b.all_topics found) at m) in
    let (j, r, lt) =
      (v.topics (find_topic b.current_topics 0 b.all_topics name)
          (omega (arith, found))).subs.handed
        k (omega (arith, h)) in
    ground (arith, ap (λ c. c.id) q)

-- The subscriber that registered last leaves the directory as it was, but for its topic.
pub unregister-subscribed :
    (os : BrokerOs) (b : Broker) (c : Client) (name : String) (w : World Broker Call)
    → IsValid b
    → c.id ≡ pos b.next_subscriber_id
    → IsValid w.st
    → view w.st ≡ subscribe name c (view b)
    → SendsFarewell os c w
    → (w' : World Broker Call) × (unregister os unregister_subscriber name c.id w ≡ ended w')
      × (view w'.st ≡ ensure name (view b))
unfolding subscribe
unregister-subscribed os b c name w v id v' seen answers =
    let (w', q, gone, _, _) =
      unregister-unsubscribe os name w v' c
        (rw seen (member the_subscribers name c _ (lists-ensure name (view b)))) answers in
    (
      w',
      q,
      gone
          ∙ rw seen (
              alter-alter the_subscribers name c (ensure name (view b)) (
                rw (members_of-ensure (λ e. e.subscribers) name (view b) refl)
                  (rw id (fresh b name v)))),
    )

-- In a valid state with room for the topic and the subscriber, and when both answers can be sent, a
-- subscriber that registers and then leaves under the id that it was given leaves the directory as it
-- was before it came, but for its topic, which stays.
pub register_client-unregister :
    (os : BrokerOs) (g : Garbage) (fd : ℤ) (message : Message) (w : World Broker Call)
    → IsValid w.st
    → message.action ≡ register_subscriber
    → w.st.current_topics < max_topics
    → length (subscribers_of message.topic (view w.st)) < max_subscribers
    → Sends os g fd message w (accepted w.st.next_subscriber_id)
    → ((w' : World Broker Call)
        → SendsFarewell os (subscriber g fd message.topic w.st.next_subscriber_id) w')
    → (w' : World Broker Call) × (w'' : World Broker Call) × (register_client os g fd message w
        ≡ ok (accepted w.st.next_subscriber_id) w')
      × (unregister os unregister_subscriber message.topic (pos w.st.next_subscriber_id) w'
          ≡ ended w'')
      × (view w''.st ≡ ensure message.topic (view w.st))
register_client-unregister os g fd message w v action topics room sends answers =
    let (w', e, seen, _, v') =
      register_client-subscribe os g fd message w v action topics room sends in
    let (w'', q, gone) =
      unregister-subscribed os w.st (subscriber g fd message.topic w.st.next_subscriber_id)
        message.topic w' v refl v' seen (answers w') in
    (w', w'', e, q, gone)

fresh_publisher :
    (b : Broker) (name : String)
    → IsValid b
    → Lacks (pos b.next_publisher_id) (publishers_of name (view b))
unfolding view
fresh_publisher b name v c m e =
    let found = members_of-found (λ e. e.publishers) name b.current_topics 0 b.all_topics c m in
    let (k, _, h, q) =
      IsIn-slice c _ 0 _ (
        rw (members_of-slice (λ e. e.publishers) name b.current_topics 0 b.all_topics found) at
          m) in
    let (j, r, lt) =
      (v.topics (find_topic b.current_topics 0 b.all_topics name)
          (omega (arith, found))).pubs.handed
        k (omega (arith, h)) in
    ground (arith, ap (λ c. c.id) q)

-- The publisher that registered last leaves the directory as it was.
pub unregister-advertised :
    (os : BrokerOs) (b : Broker) (c : Client) (name : String) (w : World Broker Call)
    → IsValid b
    → c.id ≡ pos b.next_publisher_id
    → lists (view b) name ≡ true
    → IsValid w.st
    → view w.st ≡ advertise name c (view b)
    → SendsFarewell os c w
    → (w' : World Broker Call) × (unregister os unregister_publisher name c.id w ≡ ended w')
      × (view w'.st ≡ view b)
      × Farewell "Publicador" name c w w'
unfolding advertise
unregister-advertised os b c name w v id listed v' seen answers =
    let (w', q, gone, bye, _) =
      unregister-unadvertise os name w v' c (rw seen (member the_publishers name c (view b) listed))
        answers in
    (
      w',
      q,
      gone
          ∙ rw seen (alter-alter the_publishers name c (view b) (rw id (fresh_publisher b name v))),
      bye,
    )
