-- ===== src/Broker/Samples.antt =====
-- Concrete brokers, clients and systems to try practica4/proxy_broker.c on.
use sistemas_distribuidos_y.Common.{
  ℕ, suc, ◌≤◌, pos, negsuc, true, [], length, length-slice, ◌≡◌, refl, inl, arith, slice, World, ap,
  List, ◌∷◌, Option, none, some, Outcome, ok, IsIn,
}
use sistemas_distribuidos_y.Broker.Types.{
  Client, Topic, Broker, Mode, Operation, register_subscriber, Publish, Message, Status, Call,
  Response, justo, unregister_subscriber, recv, lock, unlock, mutex3, send_response, print, resumen,
  nuevo_cliente, BrokerOs, max_subscribers, max_publishers,
}
use sistemas_distribuidos_y.Broker.Topics.{
  create_topic, new_topic, has_topic, get_topic_id, find_topic,
}
use sistemas_distribuidos_y.Broker.Sessions.{
  Garbage, accepted, register_client, announce, count_and_print, do_register,
  do_register_subscriber, add_subscriber, count_client, store,
}
use sistemas_distribuidos_y.Broker.Directory.{
  view, lists, members_of, subscribers_of, publishers_of,
}
use sistemas_distribuidos_y.Broker.Invariant.{IsValid}

abbrev pub no_data : Publish
no_data = record { time_generated_data = record { tv_sec = 1; tv_nsec = 2 }; content = "hola" }

abbrev pub request : Operation → Message
request action = record { action = action; topic = "news"; id = negsuc 0; publish = no_data }

-- A system that does everything, and one that does nothing.
abbrev pub willing : BrokerOs
willing tr c = record { ret = pos 0; msg = request register_subscriber }

abbrev pub broken : BrokerOs
broken tr c = record { ret = negsuc 0; msg = request register_subscriber }

-- The subscriber at position `k` has the id `k + 1`, and the publisher the id `k`.
abbrev pub reader : ℕ → Client
reader k = record { topic = "news"; id = pos (suc k); id_in_topic = pos 0; fd = pos (suc k) }

abbrev pub writer : ℕ → Client
writer k = record { topic = "news"; id = pos k; id_in_topic = pos 0; fd = pos k }

-- A topic with `n` subscribers and `m` publishers.
abbrev pub news : ℕ → ℕ → Topic
news n m = record {
  name = "news";
  content = "";
  num_subscribers = pos n;
  num_publishers = pos m;
  subscribers = reader;
  publishers = writer;
}

abbrev pub garbage : Garbage
garbage = record {
  topic = news 5 5;
  client = reader 77;
  response = record { response_status = Status.ok; id = pos 3 };
}

-- A broker with that topic, and one with ten topics of that name, which is full.
abbrev pub crowd : Mode → ℕ → ℕ → ℕ → World Broker Call
crowd mode topics n m = record {
  st = record {
    addr = record { sin_port = 0; sin_addr = 0 };
    server_socket = pos 3;
    mode = mode;
    next_publisher_id = m;
    next_subscriber_id = suc n;
    current_publishers = 0;
    current_subscribers = 0;
    current_topics = topics;
    next_pub_position = pos 0;
    next_sub_position = pos 0;
    all_topics = λ _. news n m;
  };
  trace = [];
}

pub crowd-IsValid :
    (mode : Mode) (n m : ℕ)
    → n ≤ max_subscribers
    → m ≤ max_publishers
    → IsValid (crowd mode 1 n m).st
crowd-IsValid mode n m h q = record {
  fits = omega arith;
  unchanged = refl;
  unique = λ i j a b e. omega arith;
  topics = λ i a. record {
    subs = record {
      nonneg = refl;
      room = h;
      few = omega arith;
      handed = λ k b. (suc k, refl, omega arith);
      distinct = λ k l a b e. ground arith;
    };
    pubs = record {
      nonneg = refl;
      room = q;
      few = omega arith;
      handed = λ k b. (k, refl, omega arith);
      distinct = λ k l a b e. ground arith;
    };
  };
}

pub readers :
    (mode : Mode) (n m : ℕ) → subscribers_of "news" (view (crowd mode 1 n m).st) ≡ slice reader 0 n
unfolding view members_of
readers mode n m = refl

pub length-readers :
    (mode : Mode) (n m : ℕ) → length (subscribers_of "news" (view (crowd mode 1 n m).st)) ≡ n
length-readers mode n m = rw (readers mode n m) (length-slice reader 0 n)

pub listed : (mode : Mode) (n m : ℕ) → lists (view (crowd mode 1 n m).st) "news" ≡ true
unfolding view lists
listed mode n m = refl

pub first_reader :
    (mode : Mode) (n m : ℕ)
    → IsIn (reader 0) (subscribers_of "news" (view (crowd mode 1 (suc n) m).st))
first_reader mode n m = rw (readers mode (suc n) m) (inl refl)

pub first_writer :
    (mode : Mode) (n m : ℕ)
    → IsIn (writer 0) (publishers_of "news" (view (crowd mode 1 n (suc m)).st))
unfolding view members_of
first_writer mode n m = inl refl

-- A client of this system asks to be registered, and then to be removed under the id that it got.
abbrev asks : List Call → Message
asks (unlock k ∷ tr) = record (request unregister_subscriber) { id = pos 3 }
asks _ = request register_subscriber

abbrev pub visitor : BrokerOs
visitor tr c = record { ret = pos 0; msg = asks tr }

-- The broker that has read its first message.
abbrev pub arriving : World Broker Call
arriving = record (crowd justo 1 2 1) { trace = recv (pos 7) ∷ [] }

abbrev answer_in : Outcome (World Broker Call) Response → Option (Response × List Call)
answer_in (ok r w) = some (r, w.trace)
answer_in _ = none

the_same : {A : Type 0} {a b : A} → some a ≡ some b → a ≡ b
the_same e = cc

-- The calls and the answer of its registration.
abbrev visit : Response × List Call
visit = (
  accepted 3,
  unlock mutex3
      ∷ print (resumen "news" (pos 3) (pos 1))
      ∷ print (nuevo_cliente (pos 3) "Suscriptor" "news")
      ∷ send_response (pos 7) (accepted 3)
      ∷ lock mutex3
      ∷ recv (pos 7)
      ∷ [],
)

pub visitor_answer :
    (r : Response) (w' : World Broker Call)
    → register_client visitor garbage (pos 7) (request register_subscriber) arriving ≡ ok r w'
    → visit ≡ (r, w'.trace)
unfolding register_client announce count_and_print do_register do_register_subscriber add_subscriber
    count_client create_topic new_topic has_topic get_topic_id find_topic store
visitor_answer r w' e = let f : some visit ≡ some (r, w'.trace) = ap answer_in e in the_same f
