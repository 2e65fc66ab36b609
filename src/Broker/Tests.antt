-- ===== src/Broker/Tests.antt =====
-- The theorems on practica4/proxy_broker.c at concrete brokers.
use sistemas_distribuidos_y.Common.{
  pos, String, true, false, none, some, List, Libc, Opt, opt_p, opt_m, last, optarg_m, optarg_p,
  all_known, exited, ◌⊎◌, [], ◌∷◌, length, ◌≡◌, refl, inl, IsIn, arith, World, ok, ended, fault,
  ◌>>◌,
}
use sistemas_distribuidos_y.Broker.Types.{
  Broker, Client, secuencial, justo, register_subscriber, register_publisher, unregister_subscriber,
  unregister_publisher, Status, Call, lock, unlock, mutex3, send_response, print, enviando,
}
use sistemas_distribuidos_y.Broker.Start.{is_mode, known, main, any_ip, main_lem}
use sistemas_distribuidos_y.Broker.Setup.{init_broker, accept_clients}
use sistemas_distribuidos_y.Broker.Clients.{unregister}
use sistemas_distribuidos_y.Broker.Clients.Removal.{remove}
use sistemas_distribuidos_y.Broker.Sessions.{register_client, accepted, refused}
use sistemas_distribuidos_y.Broker.Publish.{publish_msg}
use sistemas_distribuidos_y.Broker.Publish.Calls.{deliveries, Delivers, publish_msg-subscribers}
use sistemas_distribuidos_y.Broker.Directory.{
  view, lists, alter, subscribe, ensure, advertise, members_of, subscribers_of,
}
use sistemas_distribuidos_y.Broker.Invariant.{IsValid}
use sistemas_distribuidos_y.Broker.Registration.{subscriber}
use sistemas_distribuidos_y.Broker.Registration.Subscribing.{
  register_client-subscribe, register_client-full, register_client-overflow,
}
use sistemas_distribuidos_y.Broker.Registration.Advertising.{
  register_client-advertise, register_client-refuse_publisher,
}
use sistemas_distribuidos_y.Broker.Unregistration.{Farewell}
use sistemas_distribuidos_y.Broker.Unregistration.Subscriber.{unregister-unsubscribe}
use sistemas_distribuidos_y.Broker.Unregistration.Publisher.{unregister-unadvertise}
use sistemas_distribuidos_y.Broker.Reachable.{
  initial, initial-IsValid, begin, later, registers, unsubscribes, Reach-IsValid,
}
use sistemas_distribuidos_y.Broker.Samples.{
  request, willing, reader, writer, news, garbage, crowd, crowd-IsValid, length-readers, listed,
  first_reader, first_writer,
}

register_client-subscribe_example :
    (w' : World Broker Call) × (register_client willing garbage
        (pos 7)
        (request register_subscriber)
        (crowd justo 1 2 1)
      ≡ ok (accepted 3) w')
    × (view w'.st
        ≡ subscribe "news" (subscriber garbage (pos 7) "news" 3) (view (crowd justo 1 2 1).st))
    × (w'.st.next_subscriber_id ≡ 4)
    × IsValid w'.st
register_client-subscribe_example =
    register_client-subscribe willing garbage (pos 7) (request register_subscriber)
      (crowd justo 1 2 1) (crowd-IsValid justo 2 1 (omega arith) (omega arith)) refl (omega arith)
      (omega (arith, length-readers justo 2 1)) refl

unregister-unsubscribe_example :
    (w' : World Broker Call) × (unregister willing unregister_subscriber "news"
        (pos 1)
        (crowd justo 1 2 1)
      ≡ ended w')
    × (view w'.st
        ≡ alter "news"
            (λ e. record e { subscribers = remove (pos 1) e.subscribers })
            (view (crowd justo 1 2 1).st))
    × Farewell "Suscriptor" "news" (reader 0) (crowd justo 1 2 1) w'
    × IsValid w'.st
unregister-unsubscribe_example =
    unregister-unsubscribe willing "news" (crowd justo 1 2 1)
      (crowd-IsValid justo 2 1 (omega arith) (omega arith)) (reader 0) (first_reader justo 1 1) refl

unregister-unadvertise_example :
    (w' : World Broker Call) × (unregister willing unregister_publisher "news"
        (pos 0)
        (crowd justo 1 2 1)
      ≡ ended w')
    × (view w'.st
        ≡ alter "news"
            (λ e. record e { publishers = remove (pos 0) e.publishers })
            (view (crowd justo 1 2 1).st))
    × Farewell "Publicador" "news" (writer 0) (crowd justo 1 2 1) w'
    × IsValid w'.st
unregister-unadvertise_example =
    unregister-unadvertise willing "news" (crowd justo 1 2 1)
      (crowd-IsValid justo 2 1 (omega arith) (omega arith)) (writer 0) (first_writer justo 2 0) refl

publish_msg-subscribers_example :
    let cs = subscribers_of "news" (view (crowd secuencial 1 2 1).st) in
    Delivers willing
      (record (crowd secuencial 1 2 1) { trace = print (enviando "news" (pos (length cs))) ∷ [] })
      (deliveries secuencial (request register_publisher) cs)
      []
      (publish_msg willing (request register_publisher) (crowd secuencial 1 2 1))
publish_msg-subscribers_example =
    publish_msg-subscribers willing (request register_publisher) (crowd secuencial 1 2 1)
      (crowd-IsValid secuencial 2 1 (omega arith) (omega arith)) (listed secuencial 2 1)

register_client-advertise_example :
    (w' : World Broker Call) × (register_client willing garbage
        (pos 7)
        (request register_publisher)
        (crowd justo 1 2 1)
      ≡ ok (accepted 1) w')
    × (view w'.st
        ≡ advertise "news" (subscriber garbage (pos 7) "news" 1) (view (crowd justo 1 2 1).st))
    × (w'.st.next_publisher_id ≡ 2)
    × (w'.st.mode ≡ justo)
    × IsValid w'.st
register_client-advertise_example =
    register_client-advertise willing garbage (pos 7) (request register_publisher)
      (crowd justo 1 2 1) (crowd-IsValid justo 2 1 (omega arith) (omega arith)) refl
      (listed justo 2 1) (omega arith) refl

register_client-full_example :
    register_client willing garbage (pos 7) (request register_subscriber) (crowd justo 10 2 1)
    ≡ ok (refused Status.error) (record {
      st = (crowd justo 10 2 1).st;
      trace = unlock mutex3 ∷ send_response (pos 7) (refused Status.error) ∷ lock mutex3 ∷ [];
    })
register_client-full_example =
    register_client-full willing garbage (pos 7) (request register_subscriber) (crowd justo 10 2 1)
      refl (omega arith) refl

register_client-overflow_example :
    register_client willing garbage (pos 7) (request register_subscriber) (crowd justo 1 900 1)
    ≡ fault
register_client-overflow_example =
    register_client-overflow willing garbage (pos 7) (request register_subscriber)
      (crowd justo 1 900 1) (crowd-IsValid justo 900 1 (omega arith) (omega arith)) refl
      (omega arith) (omega (arith, length-readers justo 900 1))

register_client-refuse_publisher_example :
    register_client willing garbage (pos 7) (request register_publisher) (crowd justo 0 0 100)
    ≡ ok (refused Status.error) (record {
      st = (crowd justo 0 0 100).st;
      trace = unlock mutex3 ∷ send_response (pos 7) (refused Status.error) ∷ lock mutex3 ∷ [];
    })
unfolding view lists
register_client-refuse_publisher_example =
    register_client-refuse_publisher willing garbage (pos 7) (request register_publisher)
      (crowd justo 0 0 100) refl (λ _. omega arith) refl

-- The state of a program that was just started.
abbrev fresh_start : World Broker Call
fresh_start = record { st = initial secuencial (λ _. news 5 5); trace = [] }

no_readers : length (subscribers_of "news" (view fresh_start.st)) ≡ 0
unfolding view members_of
no_readers = refl

-- The first subscriber.
abbrev first_reader_there : Client
first_reader_there = subscriber garbage (pos 7) "news" 1

joined_readers :
    subscribers_of "news" (subscribe "news" first_reader_there (view fresh_start.st))
    ≡ first_reader_there ∷ []
unfolding view members_of subscribe ensure alter lists
joined_readers = refl

first_step :
    (w' : World Broker Call) × (register_client willing garbage
        (pos 7)
        (request register_subscriber)
        fresh_start
      ≡ ok (accepted 1) w')
    × IsIn first_reader_there (subscribers_of "news" (view w'.st))
    × IsValid w'.st
first_step =
    let (w', e, seen, _, valid) =
      register_client-subscribe willing garbage (pos 7) (request register_subscriber) fresh_start
        (initial-IsValid secuencial (λ _. news 5 5)) refl (omega arith) (omega (arith, no_readers))
        refl in
    (w', e, rw (seen, joined_readers) (inl refl), valid)

-- It leaves again.
second_step :
    (w' : World Broker Call) × (unregister willing unregister_subscriber "news" (pos 1) first_step.0
      ≡ ended w')
second_step =
    let (w', e, _, _, _) =
      unregister-unsubscribe willing "news" first_step.0 first_step.3 first_reader_there
        first_step.2 refl in
    (w', e)

Reach-IsValid_example : IsValid second_step.0.st
Reach-IsValid_example =
    Reach-IsValid
      (later
        (later begin (
          registers willing garbage (pos 7) (request register_subscriber) fresh_start first_step.0
            (accepted 1) refl first_step.1))
        (unsubscribes willing "news" (pos 1) first_step.0 second_step.0 refl second_step.1))
      ((tt, tt), (first_reader_there, first_step.2, refl))

-- A command line with its options, and a library that reads every number as 80.
abbrev given_options : List Opt
given_options = opt_p "80" ∷ opt_m "paralelo" ∷ opt_m "justo" ∷ []

abbrev eighty : Libc
eighty = record { atoi = λ a. pos 80; htons = λ n. 80; inet_addr = λ a. 0 }

main_lem_example :
    let opts = given_options in
    let w : World Broker Call = crowd secuencial 0 0 0 in
    ((all_known known opts ≡ false) × (main eighty willing opts 1 w ≡ exited 1 w))
    ⊎ ((all_known known opts ≡ true)
        × (last optarg_m opts ≡ none)
        × (main eighty willing opts 1 w ≡ fault))
    ⊎ ((mode : String) × (all_known known opts ≡ true)
        × (last optarg_m opts ≡ some mode)
        × (is_mode mode ≡ false)
        × (main eighty willing opts 1 w ≡ exited 1 w))
    ⊎ ((mode : String) × (all_known known opts ≡ true)
        × (last optarg_m opts ≡ some mode)
        × (is_mode mode ≡ true)
        × (last optarg_p opts ≡ none)
        × (main eighty willing opts 1 w ≡ fault))
    ⊎ ((mode : String) × (port : String) × (all_known known opts ≡ true)
        × (last optarg_m opts ≡ some mode)
        × (is_mode mode ≡ true)
        × (last optarg_p opts ≡ some port)
        × (main eighty willing opts 1 w
            ≡ (init_broker willing eighty any_ip (pos 80) mode >> accept_clients willing 1) w))
main_lem_example = main_lem eighty willing given_options 1 (crowd secuencial 0 0 0)
