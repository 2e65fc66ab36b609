-- ===== src/Broker/Unregistration/Subscriber.antt =====
-- A subscriber leaves: `unregister` of practica4/proxy_broker.c against the directory of the broker.
use sistemas_distribuidos_y.Common.{
  ℕ, ◌<◌, dec, rounds, is_neg, String, true, List, [], ◌∷◌, ◌++◌, ◌≡◌, refl, subst, ap, arith, ◌==◌,
  if◌then◌else◌, World, ok, exited, ended, IsIn, IsIn-slice,
}
use sistemas_distribuidos_y.Broker.Types.{
  Client, Topic, Broker, Status, Call, BrokerOs, unregister_subscriber, max_subscribers,
  send_response, print, eliminado_cliente,
}
use sistemas_distribuidos_y.Broker.Topics.{get_topic_id}
use sistemas_distribuidos_y.Broker.Clients.{
  shift_left, on_topic, answer_unregister, shift_client_list, remove_client, unregister,
}
use sistemas_distribuidos_y.Broker.Clients.Removal.{remove, fd_to_del_lem}
use sistemas_distribuidos_y.Broker.Clients.Roster.{
  find_client-eq, clients-shift_left, IsRoster-shift_left,
}
use sistemas_distribuidos_y.Broker.Directory.{view_topic, view, alter}
use sistemas_distribuidos_y.Broker.Invariant.{IsTopic, IsValid}
use sistemas_distribuidos_y.Broker.Directory.{members_of-found, members_of-slice, subscribers_of}
use sistemas_distribuidos_y.Broker.Unregistration.{
  publications, print_resumen_lem, changed-IsValid, view-changed, Farewell, SendsFarewell,
}

-- What a subscriber that leaves can rely on.
abbrev Unregisters : BrokerOs → String → Client → World Broker Call → Type 0
Unregisters os name c w =
    SendsFarewell os c w
    → (w' : World Broker Call) × (unregister os unregister_subscriber name c.id w ≡ ended w')
      × (view w'.st
          ≡ alter name (λ e. record e { subscribers = remove c.id e.subscribers }) (view w.st))
      × Farewell "Suscriptor" name c w w'
      × IsValid w'.st

abbrev Fails : BrokerOs → String → Client → World Broker Call → Type 0
Fails os name c w =
    is_neg (os w.trace (send_response c.fd (record { response_status = Status.ok; id = c.id }))).ret
      ≡ true
    → (w' : World Broker Call) × (unregister os unregister_subscriber name c.id w ≡ exited 1 w')

module _ (os : BrokerOs) (name : String) (w : World Broker Call) (v : IsValid w.st) where
  abbrev b : Broker
  b = w.st

  abbrev i : ℕ
  i = get_topic_id b name

  abbrev t : Topic
  t = b.all_topics i

  module _ (found : i < b.current_topics) (k : ℕ) (h : k < rounds t.num_subscribers) where
    abbrev leaver : Client
    leaver = t.subscribers k

    entry : IsTopic b.next_subscriber_id b.next_publisher_id t
    entry = v.topics i found

    without_subscriber : Broker
    without_subscriber =
        record (on_topic i (λ t. record t { num_subscribers = dec t.num_subscribers })
          (on_topic i
            (λ t'. record t' { subscribers = shift_left max_subscribers t.subscribers leaver.id })
            b)) { next_sub_position = dec b.next_sub_position }

    remove_client-leaver :
        SendsFarewell os leaver w
        → remove_client os i unregister_subscriber leaver.id w
          ≡ ok "Suscriptor" (record {
            st = without_subscriber;
            trace =
                send_response leaver.fd (record { response_status = Status.ok; id = leaver.id })
                ∷ w.trace;
          })
    unfolding remove_client shift_client_list answer_unregister without_subscriber
    remove_client-leaver sends = ground (
      arith,
      fd_to_del_lem max_subscribers k t.subscribers leaver.id (omega (arith, entry.subs.room))
          (find_client-eq entry.subs k h),
    )

    unregister-leaver :
        SendsFarewell os leaver w
        → (rows : List Call) × (unregister os unregister_subscriber name leaver.id w
            ≡ ended (record {
              st = without_subscriber;
              trace =
                  rows
                  ++ print (eliminado_cliente leaver.id "Suscriptor" name)
                    ∷ send_response leaver.fd
                        (record { response_status = Status.ok; id = leaver.id })
                    ∷ w.trace;
            }))
          × (publications rows ≡ [])
    unfolding unregister
    unregister-leaver sends =
        let (rows, e, none) = print_resumen_lem os without_subscriber.current_topics 0 (record {
          st = without_subscriber;
          trace =
              print (eliminado_cliente leaver.id "Suscriptor" name)
              ∷ send_response leaver.fd (record { response_status = Status.ok; id = leaver.id })
              ∷ w.trace;
        }) in
        (rows, ground (arith, remove_client-leaver sends, e, v.fits), none)

    -- Without an answer the process ends.
    unregister-failing :
        is_neg
            (os w.trace (
              send_response leaver.fd (record { response_status = Status.ok; id = leaver.id }))).ret
          ≡ true
        → (w' : World Broker Call) × (unregister os unregister_subscriber name leaver.id w
            ≡ exited 1 w')
    unfolding unregister remove_client shift_client_list answer_unregister without_subscriber
    unregister-failing fails = (
      record {
        st =
            on_topic i
              (λ t'. record t' { subscribers = shift_left max_subscribers t.subscribers leaver.id })
              b;
        trace =
            send_response leaver.fd (record { response_status = Status.ok; id = leaver.id })
            ∷ w.trace;
      },
      ground (
        arith,
        v.fits,
        fd_to_del_lem max_subscribers k t.subscribers leaver.id (omega (arith, entry.subs.room))
            (find_client-eq entry.subs k h),
      ),
    )

    -- Position by position, the topic is the only one that changes.
    abbrev left : Topic
    left = record t {
      subscribers = shift_left max_subscribers t.subscribers leaver.id;
      num_subscribers = dec t.num_subscribers;
    }

    changed : (j : ℕ) → without_subscriber.all_topics j ≡ (if j == i then left else b.all_topics j)
    unfolding without_subscriber
    changed j = ground arith

    without_subscriber-IsValid : IsValid without_subscriber
    unfolding without_subscriber
    without_subscriber-IsValid =
        changed-IsValid b v i left without_subscriber.all_topics changed refl
          (record { subs = IsRoster-shift_left entry.subs k h; pubs = entry.pubs })
          (dec b.next_sub_position) b.next_pub_position

    view-without_subscriber :
        view without_subscriber
        ≡ alter name (λ e. record e { subscribers = remove leaver.id e.subscribers }) (view b)
    unfolding without_subscriber view get_topic_id
    view-without_subscriber =
        view-changed b v i left without_subscriber.all_topics changed name
          (λ e. record e { subscribers = remove leaver.id e.subscribers }) refl
          (ap (λ l. record (view_topic t) { subscribers = l }) (clients-shift_left entry.subs k h))

    unregister-leaver_full : Unregisters os name leaver w
    unregister-leaver_full sends =
        let (rows, e, none) = unregister-leaver sends in
        (_, e, view-without_subscriber, (rows, refl, none), without_subscriber-IsValid)

-- In a valid state, a subscriber of a topic that asks to be removed, and whose answer can be sent, is
-- answered with OK on its own socket, and its
-- thread ends. The directory then lacks the client of that id among the subscribers of that topic,
-- the others keep their order, nothing else is changed, and the state stays valid.
pub unregister-unsubscribe :
    (os : BrokerOs) (name : String) (w : World Broker Call)
    → IsValid w.st
    → (c : Client) → IsIn c (subscribers_of name (view w.st))
    → SendsFarewell os c w
    → (w' : World Broker Call) × (unregister os unregister_subscriber name c.id w ≡ ended w')
      × (view w'.st
          ≡ alter name (λ e. record e { subscribers = remove c.id e.subscribers }) (view w.st))
      × Farewell "Suscriptor" name c w w'
      × IsValid w'.st
unfolding view get_topic_id
unregister-unsubscribe os name w v c m =
    let found =
      members_of-found (λ e. e.subscribers) name w.st.current_topics 0 w.st.all_topics c m in
    let (k, _, h, e) = IsIn-slice c _ 0 _ (
      rw (members_of-slice (λ e. e.subscribers) name w.st.current_topics 0 w.st.all_topics found) at
        m) in
    subst (λ c. Unregisters os name c w) e
      (unregister-leaver_full os name w v (omega (arith, found)) k (omega (arith, h)))

-- In a valid state, when the answer to a subscriber that asks to be removed cannot be sent, the
-- process exits with status 1.
pub unregister-unsubscribe_fails :
    (os : BrokerOs) (name : String) (w : World Broker Call)
    → IsValid w.st
    → (c : Client) → IsIn c (subscribers_of name (view w.st))
    → is_neg
        (os w.trace (send_response c.fd (record { response_status = Status.ok; id = c.id }))).ret
      ≡ true
    → (w' : World Broker Call) × (unregister os unregister_subscriber name c.id w ≡ exited 1 w')
unfolding view get_topic_id
unregister-unsubscribe_fails os name w v c m =
    let found =
      members_of-found (λ e. e.subscribers) name w.st.current_topics 0 w.st.all_topics c m in
    let (k, _, h, e) = IsIn-slice c _ 0 _ (
      rw (members_of-slice (λ e. e.subscribers) name w.st.current_topics 0 w.st.all_topics found) at
        m) in
    subst (λ c. Fails os name c w) e
      (unregister-failing os name w v (omega (arith, found)) k (omega (arith, h)))
