-- ===== src/ProxyClient/Tests.antt =====
-- The theorems on practica4/proxy_client.c at concrete clients.
use sistemas_distribuidos_y.Common.{
  pos, true, false, [], ◌∷◌, ◌≡◌, refl, ◌⊎◌, arith, World, exited, fault, fits, ok, ended, is_neg,
  subst, String, List, Opt, opt_i, opt_p, opt_m, Libc, address_of, some, all_known, last, optarg_i,
  optarg_p, optarg_m, exit, ◌>>◌,
}
use sistemas_distribuidos_y.Broker.Types.{Message, Status, Timespec, Publish, publish_data}
use sistemas_distribuidos_y.ProxyClient.{
  Peer, subscriber, Call, send, type_of, transfer_publisher, transfer_subscriber, PeerOs,
  topic_size, is_ok, sighandler, talk_to_server, start_data_transfer, recv_response, clock_gettime,
  close, print, de_registrado, registrado,
}
use sistemas_distribuidos_y.Broker.Types as Types
use sistemas_distribuidos_y.Broker.Types.{
  Broker, Response, BrokerOs, register_subscriber, justo, secuencial,
}
use sistemas_distribuidos_y.Broker.Samples as Samples
use sistemas_distribuidos_y.Broker.Samples.{
  request, crowd, crowd-IsValid, length-readers, listed, first_reader, visitor, arriving,
  visitor_answer,
}
use sistemas_distribuidos_y.Broker.Sessions.{
  accepted, register_client, talk_to_client, serve_publisher,
}
use sistemas_distribuidos_y.Broker.Directory.{view, ensure}
use sistemas_distribuidos_y.ProxyClient.Exchange as Exchange
use sistemas_distribuidos_y.ProxyClient.Exchange.{
  answer, joined, registered, talk_to_server-talk_to_client,
}
use sistemas_distribuidos_y.ProxyClient.Publication.{
  produced, producing, printing, transfer_publisher-transfer_subscriber,
}
use sistemas_distribuidos_y.ProxyClient.Start.{known, all_given, client_main, client_main_lem}
use sistemas_distribuidos_y.ProxyClient.Session.{
  accepts, farewell, rounds_of, sighandler-leaves, joining, asked, talk_to_server_lem,
}
use sistemas_distribuidos_y.ProxyClient.{publisher}
use sistemas_distribuidos_y.ProxyClient.Old.Subscriber
use sistemas_distribuidos_y.ProxyClient.Old.Data.{
  shown, course, renew, start_data_transfer-transfer_subscriber,
}

abbrev some_data : Publish
some_data = record { time_generated_data = record { tv_sec = 1; tv_nsec = 2 }; content = "hola" }

abbrev old_message : Message
old_message = record { action = publish_data; topic = ""; id = pos 0; publish = some_data }

-- A system that answers every request with OK and the id 4.
abbrev kind : PeerOs
kind tr c = record {
  ret = pos 0;
  msg = record {
    response = record { response_status = Status.ok; id = pos 4 };
    publish = some_data;
    time = record { tv_sec = 1; tv_nsec = 2 };
    text = "0.1";
  };
}

abbrev reading : World Peer Call
reading = record {
  st = record {
    proc_name = "Subscriber";
    addr = record { sin_port = 0; sin_addr = 0 };
    client_socket = pos 3;
    client_topic = "news";
    client_id = pos 4;
    client_type = subscriber;
  };
  trace = [];
}

sighandler-leaves_example :
    sighandler kind 5 old_message reading
    ≡ exited 1 (record {
      st = reading.st;
      trace =
          close (pos 3)
          ∷ print (de_registrado (pos 4))
          ∷ clock_gettime
          ∷ rounds_of (pos 3) (farewell old_message reading.st) 1 [];
    })
sighandler-leaves_example =
    sighandler-leaves kind old_message 5 0 reading (omega arith) (accepts refl refl refl)

talk_to_server_lem_example :
    ((fits topic_size "news" ≡ false)
      × (talk_to_server kind 9 true old_message "news" "127.0.0.1" (pos 80) reading ≡ fault))
    ⊎ ((w' : World Peer Call) × (talk_to_server kind 9 true old_message "news" "127.0.0.1"
            (pos 80)
            reading
          ≡ exited 1 w'))
    ⊎ ((is_ok Status.ok ≡ true)
        × (talk_to_server kind 9 true old_message "news" "127.0.0.1" (pos 80) reading
            ≡ start_data_transfer kind 9 true old_message (record {
              st = record (joining "news" (pos 0) reading.st) { client_id = pos 4 };
              trace =
                  print (registrado (pos 4) "news")
                  ∷ clock_gettime
                  ∷ recv_response (pos 0)
                  ∷ asked old_message "news" "127.0.0.1" (pos 80) (pos 0) reading;
            })))
talk_to_server_lem_example =
    talk_to_server_lem kind 9 true old_message "news" "127.0.0.1" (pos 80) reading

abbrev sent_at : Timespec
sent_at = record { tv_sec = 7; tv_nsec = 900000000 }

abbrev got_at : Timespec
got_at = record { tv_sec = 8; tv_nsec = 100000000 }

start_data_transfer-transfer_subscriber_example :
    renew (course (Subscriber.start_data_transfer kind 6 reading))
    ≡ course (transfer_subscriber kind 6 reading)
unfolding shown
start_data_transfer-transfer_subscriber_example =
    start_data_transfer-transfer_subscriber kind kind reading.st (λ old new a. (refl, refl)) 6 []
      refl

abbrev writing : World Peer Call
writing = record reading {
  st = record reading.st { proc_name = "Publisher"; client_type = publisher };
}

-- The message that the subscriber sends, and the broker's answer to it.
abbrev third : PeerOs
third tr c = record {
  ret = pos 0;
  msg = record (kind tr c).msg { response = record { response_status = Status.ok; id = pos 3 } };
}

abbrev blank : Message
blank = request register_subscriber

visitor-back :
    (r : Response) (w' : World Broker Types.Call)
    → register_client visitor Samples.garbage (pos 7) (request register_subscriber) arriving
      ≡ ok r w'
    → (r ≡ answer third blank "news" "127.0.0.1" (pos 80) reading)
      × (is_neg (visitor w'.trace (Types.recv (pos 7))).ret ≡ false)
      × ((visitor w'.trace (Types.recv (pos 7))).msg
          ≡ farewell blank (joined third blank "news" "127.0.0.1" (pos 80) reading r))
unfolding type_of
visitor-back r w' e =
    subst
      (λ (x : Response × List Types.Call).
        (x.0 ≡ answer third blank "news" "127.0.0.1" (pos 80) reading)
        × (is_neg (visitor x.1 (Types.recv (pos 7))).ret ≡ false)
        × ((visitor x.1 (Types.recv (pos 7))).msg
            ≡ farewell blank (joined third blank "news" "127.0.0.1" (pos 80) reading x.0)))
      (visitor_answer r w' e) (refl, refl, refl)

reading_request :
    request register_subscriber ≡ Exchange.request third blank "news" "127.0.0.1" (pos 80) reading
unfolding type_of
reading_request = refl

reading_type : type_of reading.st.proc_name ≡ subscriber
unfolding type_of
reading_type = refl

talk_to_server-talk_to_client_example :
    (w'' : World Broker Types.Call) × (talk_to_client visitor 0 Samples.garbage
        (pos 7)
        (crowd justo 1 2 1)
      ≡ ended w'')
    × (view w''.st ≡ ensure "news" (view (crowd justo 1 2 1).st))
    × (talk_to_server third 9 true blank "news" "127.0.0.1" (pos 80) reading
        ≡ start_data_transfer third 9 true blank
            (registered third blank "news" "127.0.0.1" (pos 80) reading (accepted 3)))
talk_to_server-talk_to_client_example =
    talk_to_server-talk_to_client third visitor blank blank "news" "127.0.0.1" (pos 80) reading
      Samples.garbage (pos 7) (crowd justo 1 2 1) reading_type
      (record { short = refl; valid = refl; connected = refl; went = refl; came = refl })
      (crowd-IsValid justo 2 1 (omega arith) (omega arith)) (omega arith)
      (omega (arith, length-readers justo 2 1)) refl 9 0 true reading_request refl visitor-back
      (λ w'. refl)

-- A broker that receives the message of the publisher.
abbrev posted : Message
posted = produced kind true old_message writing

abbrev carrying : BrokerOs
carrying tr c = record { ret = pos 0; msg = posted }

abbrev subscribed : PeerOs
subscribed tr c = record { ret = pos 0; msg = record (kind tr c).msg { publish = posted.publish } }

transfer_publisher-transfer_subscriber_example :
    (w' : World Broker Types.Call) × (transfer_publisher kind 5 true old_message writing
      ≡ transfer_publisher kind 4 true posted (record writing {
        trace = send (pos 3) posted ∷ producing kind true old_message writing;
      }))
    × (serve_publisher carrying (pos 6) (crowd secuencial 1 2 1) ≡ ok tt w')
    × (w'.st ≡ (crowd secuencial 1 2 1).st)
    × (transfer_subscriber subscribed 8 reading
        ≡ transfer_subscriber subscribed 7 (printing subscribed posted.publish reading))
transfer_publisher-transfer_subscriber_example =
    transfer_publisher-transfer_subscriber kind carrying subscribed true old_message writing (pos 6)
      (crowd secuencial 1 2 1) (Samples.reader 0) reading
      (crowd-IsValid secuencial 2 1 (omega arith) (omega arith)) (listed secuencial 2 1) refl
      (first_reader secuencial 1 1) 4 7 refl refl refl (λ tr d i. refl) (λ w' e i. (refl, refl))

abbrev given_options : List Opt
given_options = opt_i "127.0.0.1" ∷ opt_p "80" ∷ opt_m "news" ∷ []

abbrev eighty : Libc
eighty = record { atoi = λ a. pos 80; htons = λ n. 80; inet_addr = λ a. 0 }

client_main_lem_example :
    let opts = given_options in
    let run = client_main eighty "Subscriber" kind opts 9 true old_message reading in
    ((all_known known opts ≡ false) × (run ≡ exited 1 reading))
    ⊎ ((all_known known opts ≡ true) × (all_given opts ≡ false) × (run ≡ fault))
    ⊎ ((ip : String) × (port : String) × (topic : String) × (all_known known opts ≡ true)
        × (last optarg_i opts ≡ some ip)
        × (last optarg_p opts ≡ some port)
        × (last optarg_m opts ≡ some topic)
        × (run
            ≡ (talk_to_server kind 9 true old_message topic ip (pos 80) >> exit 0) (record reading {
              st = record reading.st {
                proc_name = "Subscriber";
                addr = address_of eighty ip (pos 80);
              };
            })))
client_main_lem_example =
    client_main_lem eighty "Subscriber" kind given_options 9 true old_message reading refl
