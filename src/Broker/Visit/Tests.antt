-- ===== src/Broker/Visit/Tests.antt =====
-- The theorems on the whole threads of practica4/proxy_broker.c at concrete clients.
use sistemas_distribuidos_y.Common.{
  pos, false, List, is_neg, subst, [], ◌∷◌, ◌≡◌, refl, arith, World, ok, ended,
}
use sistemas_distribuidos_y.Common.{Outcome, ap}
use sistemas_distribuidos_y.Broker.Types.{Message, BrokerOs, publish_data, send_publish}
use sistemas_distribuidos_y.Broker.Types.{
  Broker, Response, secuencial, justo, register_subscriber, register_publisher,
  unregister_subscriber, unregister_publisher, Call, unlock, recv,
}
use sistemas_distribuidos_y.Broker.Topics.{get_topic_id, find_topic}
use sistemas_distribuidos_y.Broker.Sessions.{
  announce, count_and_print, do_register, do_register_publisher, add_publisher, count_client, store,
}
use sistemas_distribuidos_y.Broker.Visit.Publisher.{
  Publishes, sends_of, after, next, none_left, talk_to_client-publisher,
}
use sistemas_distribuidos_y.Broker.Publish.Delivery.{logged}
use sistemas_distribuidos_y.Broker.Unregistration.{publications}
use sistemas_distribuidos_y.Broker.Visit.{first, reading, Leaves, talk_to_client-subscriber}
use sistemas_distribuidos_y.Broker.Sessions.{talk_to_client}
use sistemas_distribuidos_y.Broker.Sessions.{register_client, accepted}
use sistemas_distribuidos_y.Broker.Directory.{view, lists, ensure, members_of}
use sistemas_distribuidos_y.Broker.Samples.{
  request, garbage, crowd, crowd-IsValid, length-readers, listed, visitor, arriving, visitor_answer,
}

visitor-Leaves :
    (r : Response) (w' : World Broker Call)
    → register_client visitor garbage (pos 7) (request register_subscriber) arriving ≡ ok r w'
    → Leaves visitor garbage (pos 7) (crowd justo 1 2 1) r w'
visitor-Leaves r w' e =
    subst
      (λ (x : Response × List Call).
        (is_neg (visitor x.1 (recv (pos 7))).ret ≡ false)
        × ((visitor x.1 (recv (pos 7))).msg.action ≡ unregister_subscriber)
        × ((visitor x.1 (recv (pos 7))).msg.topic ≡ "news")
        × ((visitor x.1 (recv (pos 7))).msg.id ≡ x.0.id))
      (visitor_answer r w' e) (refl, refl, refl, refl)

talk_to_client-subscriber_example :
    (w' : World Broker Call) × (w'' : World Broker Call) × (register_client visitor garbage
        (pos 7)
        (first visitor garbage (pos 7) (crowd justo 1 2 1))
        (reading visitor garbage (pos 7) (crowd justo 1 2 1))
      ≡ ok (accepted 3) w')
    × (talk_to_client visitor 0 garbage (pos 7) (crowd justo 1 2 1) ≡ ended w'')
    × (view w''.st ≡ ensure "news" (view (crowd justo 1 2 1).st))
talk_to_client-subscriber_example =
    talk_to_client-subscriber visitor garbage (pos 7) (crowd justo 1 2 1) 0 refl refl
      (crowd-IsValid justo 2 1 (omega arith) (omega arith)) (omega arith)
      (omega (arith, length-readers justo 2 1)) refl visitor-Leaves (λ w'. refl)

-- A client of this system registers as a publisher, sends one message, and asks to be removed.
abbrev publishes : List Call → Message
publishes (unlock k ∷ tr) = request publish_data
publishes (send_publish fd p ∷ tr) = record (request unregister_publisher) { id = pos 1 }
publishes _ = request register_publisher

abbrev newsroom : BrokerOs
newsroom tr c = record { ret = pos 0; msg = publishes tr }

abbrev opening : World Broker Call
opening = record (crowd secuencial 1 2 1) { trace = recv (pos 7) ∷ [] }

abbrev result_of : Outcome (World Broker Call) Response → Response × World Broker Call
result_of (ok r w) = (r, w)
result_of _ = (accepted 0, opening)

abbrev opened : Response × World Broker Call
opened = result_of (register_client newsroom garbage (pos 7) (request register_publisher) opening)

opened-Publishes :
    Publishes newsroom garbage
      (pos 7)
      (crowd secuencial 1 2 1)
      (request publish_data ∷ [])
      opened.0
      opened.1
unfolding register_client announce count_and_print do_register do_register_publisher add_publisher
    count_client get_topic_id find_topic store view lists members_of
opened-Publishes = record {
  last_world = after newsroom (pos 7) opened.1 (request publish_data);
  arrive = next refl refl refl refl (λ tr c i. refl) none_left;
  came = refl;
  action = refl;
  topic = refl;
  id = refl;
}

newsroom-Publishes :
    (r : Response) (w' : World Broker Call)
    → register_client newsroom garbage (pos 7) (request register_publisher) opening ≡ ok r w'
    → Publishes newsroom garbage (pos 7) (crowd secuencial 1 2 1) (request publish_data ∷ []) r w'
newsroom-Publishes r w' e =
    subst
      (λ (x : Response × World Broker Call).
        Publishes newsroom garbage (pos 7) (crowd secuencial 1 2 1) (request publish_data ∷ []) x.0
          x.1)
      (ap result_of e) opened-Publishes

talk_to_client-publisher_example :
    (w' : World Broker Call) × (w'' : World Broker Call) × (register_client newsroom garbage
        (pos 7)
        (first newsroom garbage (pos 7) (crowd secuencial 1 2 1))
        (reading newsroom garbage (pos 7) (crowd secuencial 1 2 1))
      ≡ ok (accepted 1) w')
    × (talk_to_client newsroom 2 garbage (pos 7) (crowd secuencial 1 2 1) ≡ ended w'')
    × (view w''.st ≡ view (crowd secuencial 1 2 1).st)
    × (publications w''.trace
        ≡ logged (sends_of (view w'.st) (request publish_data ∷ [])) (publications w'.trace))
talk_to_client-publisher_example =
    talk_to_client-publisher newsroom garbage (pos 7) (crowd secuencial 1 2 1) 0
      (request publish_data ∷ []) refl refl
      (crowd-IsValid secuencial 2 1 (omega arith) (omega arith)) refl (listed secuencial 2 1)
      (omega arith) refl newsroom-Publishes (λ w'. refl)
