-- ===== src/Broker/Unregistration/Publisher.antt =====
-- A publisher leaves: `unregister` of practica4/proxy_broker.c against the directory of the broker.
use sistemas_distribuidos_y.Common.{
  ℕ, ◌<◌, dec, rounds, is_neg, String, true, List, [], ◌∷◌, ◌++◌, ◌≡◌, refl, subst, ap, arith, ◌==◌,
  if◌then◌else◌, World, ok, exited, ended, IsIn, IsIn-slice,
}
use sistemas_distribuidos_y.Broker.Types.{
  Client, Topic, Broker, Status, Call, BrokerOs, unregister_publisher, max_publishers,
  send_response, print, eliminado_cliente,
}
use sistemas_distribuidos_y.Broker.Topics.{get_topic_id}
use sistemas_distribuidos_y.Broker.Clients.{
  shift_left, on_topic, answer_unregister, shift_client_list, remove_client, unregister,
}
use sistemas_distribuidos_y.Broker.Clients.Removal.{remove, fd_to_del_lem}
use sistemas_distribuidos_y.Broker.Clients.Roster.{
  find_client-eq, clients-shift_left, IsRoster-shift_left,
}
use sistemas_distribuidos_y.Broker.Directory.{view_topic, view, alter}
use sistemas_distribuidos_y.Broker.Invariant.{IsTopic, IsValid}
use sistemas_distribuidos_y.Broker.Directory.{members_of-found, members_of-slice, publishers_of}
use sistemas_distribuidos_y.Broker.Unregistration.{
  publications, print_resumen_lem, changed-IsValid, view-changed, Farewell, SendsFarewell,
}

-- What a publisher that leaves can rely on.
abbrev Unregisters : BrokerOs → String → Client → World Broker Call → Type 0
Unregisters os name c w =
    SendsFarewell os c w
    → (w' : World Broker Call) × (unregister os unregister_publisher name c.id w ≡ ended w')
      × (view w'.st
          ≡ alter name (λ e. record e { publishers = remove c.id e.publishers }) (view w.st))
      × Farewell "Publicador" name c w w'
      × IsValid w'.st

abbrev Fails : BrokerOs → String → Client → World Broker Call → Type 0
Fails os name c w =
    is_neg (os w.trace (send_response c.fd (record { response_status = Status.ok; id = c.id }))).ret
      ≡ true
    → (w' : World Broker Call) × (unregister os unregister_publisher name c.id w ≡ exited 1 w')

module _ (os : BrokerOs) (name : String) (w : World Broker Call) (v : IsValid w.st) where
  abbrev b : Broker
  b = w.st

  abbrev i : ℕ
  i = get_topic_id b name

  abbrev t : Topic
  t = b.all_topics i

  module _ (found : i < b.current_topics) (k : ℕ) (h : k < rounds t.num_publishers) where
    abbrev leaver : Client
    leaver = t.publishers k

    entry : IsTopic b.next_subscriber_id b.next_publisher_id t
    entry = v.topics i found

    without_publisher : Broker
    without_publisher =
        record (on_topic i (λ t. record t { num_publishers = dec t.num_publishers })
          (on_topic i
            (λ t'. record t' { publishers = shift_left max_publishers t.publishers leaver.id })
            b)) { next_pub_position = dec b.next_pub_position }

    remove_client-leaver :
        SendsFarewell os leaver w
        → remove_client os i unregister_publisher leaver.id w
          ≡ ok "Publicador" (record {
            st = without_publisher;
            trace =
                send_response leaver.fd (record { response_status = Status.ok; id = leaver.id })
                ∷ w.trace;
          })
    unfolding remove_client shift_client_list answer_unregister without_publisher
    remove_client-leaver sends = ground (
      arith,
      fd_to_del_lem max_publishers k t.publishers leaver.id (omega (arith, entry.pubs.room))
          (find_client-eq entry.pubs k h),
    )

    unregister-leaver :
        SendsFarewell os leaver w
        → (rows : List Call) × (unregister os unregister_publisher name leaver.id w
            ≡ ended (record {
              st = without_publisher;
              trace =
                  rows
                  ++ print (eliminado_cliente leaver.id "Publicador" name)
                    ∷ send_response leaver.fd
                        (record { response_status = Status.ok; id = leaver.id })
                    ∷ w.trace;
            }))
          × (publications rows ≡ [])
    unfolding unregister
    unregister-leaver sends =
        let (rows, e, none) = print_resumen_lem os without_publisher.current_topics 0 (record {
          st = without_publisher;
          trace =
              print (eliminado_cliente leaver.id "Publicador" name)
              ∷ send_response leaver.fd (record { response_status = Status.ok; id = leaver.id })
              ∷ w.trace;
        }) in
        (rows, ground (arith, remove_client-leaver sends, e, v.fits), none)

    -- Without an answer the process ends.
    unregister-failing :
        is_neg
            (os w.trace (
              send_response leaver.fd (record { response_status = Status.ok; id = leaver.id }))).ret
          ≡ true
        → (w' : World Broker Call) × (unregister os unregister_publisher name leaver.id w
            ≡ exited 1 w')
    unfolding unregister remove_client shift_client_list answer_unregister without_publisher
    unregister-failing fails = (
      record {
        st =
            on_topic i
              (λ t'. record t' { publishers = shift_left max_publishers t.publishers leaver.id }) b;
        trace =
            send_response leaver.fd (record { response_status = Status.ok; id = leaver.id })
            ∷ w.trace;
      },
      ground (
        arith,
        v.fits,
        fd_to_del_lem max_publishers k t.publishers leaver.id (omega (arith, entry.pubs.room))
            (find_client-eq entry.pubs k h),
      ),
    )

    -- Position by position, the topic is the only one that changes.
    abbrev left : Topic
    left = record t {
      publishers = shift_left max_publishers t.publishers leaver.id;
      num_publishers = dec t.num_publishers;
    }

    changed : (j : ℕ) → without_publisher.all_topics j ≡ (if j == i then left else b.all_topics j)
    unfolding without_publisher
    changed j = ground arith

    without_publisher-IsValid : IsValid without_publisher
    unfolding without_publisher
    without_publisher-IsValid =
        changed-IsValid b v i left without_publisher.all_topics changed refl
          (record { subs = entry.subs; pubs = IsRoster-shift_left entry.pubs k h })
          b.next_sub_position (dec b.next_pub_position)

    view-without_publisher :
        view without_publisher
        ≡ alter name (λ e. record e { publishers = remove leaver.id e.publishers }) (view b)
    unfolding without_publisher view get_topic_id
    view-without_publisher =
        view-changed b v i left without_publisher.all_topics changed name
          (λ e. record e { publishers = remove leaver.id e.publishers }) refl
          (ap (λ l. record (view_topic t) { publishers = l }) (clients-shift_left entry.pubs k h))

    unregister-leaver_full : Unregisters os name leaver w
    unregister-leaver_full sends =
        let (rows, e, none) = unregister-leaver sends in
        (_, e, view-without_publisher, (rows, refl, none), without_publisher-IsValid)

-- In a valid state, a publisher of a topic that asks to be removed, and whose answer can be sent, is
-- answered with OK on its own socket, and its
-- thread ends. The directory then lacks the client of that id among the publishers of that topic,
-- the others keep their order, nothing else is changed, and the state stays valid.
pub unregister-unadvertise :
    (os : BrokerOs) (name : String) (w : World Broker Call)
    → IsValid w.st
    → (c : Client) → IsIn c (publishers_of name (view w.st))
    → SendsFarewell os c w
    → (w' : World Broker Call) × (unregister os unregister_publisher name c.id w ≡ ended w')
      × (view w'.st
          ≡ alter name (λ e. record e { publishers = remove c.id e.publishers }) (view w.st))
      × Farewell "Publicador" name c w w'
      × IsValid w'.st
unfolding view get_topic_id
unregister-unadvertise os name w v c m =
    let found =
      members_of-found (λ e. e.publishers) name w.st.current_topics 0 w.st.all_topics c m in
    let (k, _, h, e) = IsIn-slice c _ 0 _ (
      rw (members_of-slice (λ e. e.publishers) name w.st.current_topics 0 w.st.all_topics found) at
        m) in
    subst (λ c. Unregisters os name c w) e
      (unregister-leaver_full os name w v (omega (arith, found)) k (omega (arith, h)))

-- In a valid state, when the answer to a publisher that asks to be removed cannot be sent, the
-- process exits with status 1.
pub unregister-unadvertise_fails :
    (os : BrokerOs) (name : String) (w : World Broker Call)
    → IsValid w.st
    → (c : Client) → IsIn c (publishers_of name (view w.st))
    → is_neg
        (os w.trace (send_response c.fd (record { response_status = Status.ok; id = c.id }))).ret
      ≡ true
    → (w' : World Broker Call) × (unregister os unregister_publisher name c.id w ≡ exited 1 w')
unfolding view get_topic_id
unregister-unadvertise_fails os name w v c m =
    let found =
      members_of-found (λ e. e.publishers) name w.st.current_topics 0 w.st.all_topics c m in
    let (k, _, h, e) = IsIn-slice c _ 0 _ (
      rw (members_of-slice (λ e. e.publishers) name w.st.current_topics 0 w.st.all_topics found) at
        m) in
    subst (λ c. Fails os name c w) e
      (unregister-failing os name w v (omega (arith, found)) k (omega (arith, h)))
