-- ===== src/Broker/Sessions.antt =====
-- The thread that serves a client: `talk_to_client`, `talk_to_publisher` and `talk_to_subscriber` of
-- practica4/proxy_broker.c, and its signal handler.
pub mod Register
use sistemas_distribuidos_y.Common.{
  ℕ, zero, suc, ℤ, pos, negsuc, inc, eq_ℤ, String, str_eq, not, Option, none, some, ltb, ◌==◌,
  if◌then◌else◌, update, ◌>>=◌, ◌>>◌, undefined, get, put, modify, when, exit, call_, must,
  call_or_exit, pthread_exit, pure,
}
use sistemas_distribuidos_y.Broker.Types.{
  Client, Topic, Broker, register_publisher, register_subscriber, unregister_publisher,
  unregister_subscriber, publish_data, Status, Response, Message, BrokerOs, BrokerThread,
  max_publishers, max_subscribers, mutex3, lock, unlock, recv, send_response, close, print,
  nuevo_cliente, resumen, recibido,
}
use sistemas_distribuidos_y.Broker.Topics.{get_topic_id, create_topic}
use sistemas_distribuidos_y.Broker.Clients.{on_topic, unregister}
use sistemas_distribuidos_y.Broker.Publish.{publish_msg}

-- What the variables of the stack hold before they are set.
pub record Garbage : Type 0 where
  pub topic : Topic
  pub client : Client
  pub response : Response

-- The variables `id`, `client_type` and `topic`, which are set for a client that was registered.
pub record NewClient : Type 0 where
  pub id : ℤ
  pub client_type : String
  pub topic : String

-- `a[num] = client;` for an array of `max` clients; a write outside of it is a fault.
unfoldable pub store : ℕ → (ℕ → Client) → ℤ → Client → Option (ℕ → Client)
store max cs (pos n) c = if ltb n max then some (update cs n c) else none
store max cs (negsuc n) c = none

abbrev pub refused : Status → Response
refused s = record { response_status = s; id = negsuc 0 }

abbrev pub accepted : ℕ → Response
accepted id = record { response_status = Status.ok; id = pos id }

abbrev pub Registration : Type 0
Registration = Broker × Response × Option NewClient

-- The new client is put behind the last one of its topic.
unfoldable pub add_subscriber : Garbage → ℤ → String → Broker → Option Registration
add_subscriber g fd topic b =
    let id = b.next_subscriber_id in
    let i = get_topic_id b topic in
    let t = b.all_topics i in
    let c : Client = record g.client { fd = fd; topic = topic; id = pos id } in
    elim (store max_subscribers t.subscribers t.num_subscribers c) [
      | none ↦ none
      | some cs ↦ some (
        record (on_topic i (λ t. record t { subscribers = cs }) b) { next_subscriber_id = suc id },
        accepted id,
        some (record { id = pos id; client_type = "Suscriptor"; topic = topic }),
      )
    ]

-- The branch of `talk_to_client` for REGISTER_SUBSCRIBER.
unfoldable pub do_register_subscriber : Garbage → ℤ → String → Broker → Option Registration
do_register_subscriber g fd topic b =
    let (create_topic_status, b1) = create_topic g.topic topic b in
    if not (create_topic_status == 1)
    then (if ltb b1.current_subscribers max_subscribers
        then add_subscriber g fd topic b1
        else some (b1, refused Status.limit, none))
    else some (b1, refused Status.error, none)

unfoldable pub add_publisher : Garbage → ℤ → String → ℕ → Broker → Option Registration
add_publisher g fd topic i b =
    let id = b.next_publisher_id in
    let t = b.all_topics i in
    let c : Client = record g.client { fd = fd; topic = topic; id = pos id } in
    elim (store max_publishers t.publishers t.num_publishers c) [
      | none ↦ none
      | some cs ↦ some (
        record (on_topic i (λ t. record t { publishers = cs }) b) { next_publisher_id = suc id },
        accepted id,
        some (record { id = pos id; client_type = "Publicador"; topic = topic }),
      )
    ]

-- The branch of `talk_to_client` for REGISTER_PUBLISHER. Its loop over the topics is the one of
-- `get_topic_id`, and ends before the last topic exactly if it sets `topic_exists`.
unfoldable pub do_register_publisher : Garbage → ℤ → String → Broker → Option Registration
do_register_publisher g fd topic b =
    let topic_id = get_topic_id b topic in
    if ltb topic_id b.current_topics
    then (if ltb b.next_publisher_id max_publishers
        then add_publisher g fd topic topic_id b
        else some (b, refused Status.limit, none))
    else some (b, refused Status.error, none)

unfoldable pub do_register : Garbage → ℤ → Message → Broker → Option Registration
do_register g fd message b = elim message.action [
  | register_subscriber ↦ do_register_subscriber g fd message.topic b
  | register_publisher ↦ do_register_publisher g fd message.topic b
  | _ ↦ some (b, g.response, none)
]

-- One round of the loop that counts the new client: every topic of that name gets it.
unfoldable pub count_client : NewClient → Topic → Topic
count_client c t =
    if str_eq c.topic t.name
    then (if str_eq c.client_type "Publicador"
        then record t { num_publishers = inc t.num_publishers }
        else record t { num_subscribers = inc t.num_subscribers })
    else t

module _ (os : BrokerOs) where
  -- The loop, with `n` rounds left, at position `i`.
  unfoldable pub count_and_print : NewClient → ℕ → ℕ → BrokerThread (Unit {0})
  count_and_print c zero i = pure tt
  count_and_print c (suc n) i = do
    modify (on_topic i (count_client c))
    b ← get
    let t = b.all_topics i
    call_ os (print (resumen t.name t.num_subscribers t.num_publishers))
    count_and_print c n (suc i)

  -- What follows the answer, for a client that was registered: `if (response.id != -1)`.
  unfoldable pub announce : Response → Option NewClient → BrokerThread (Unit {0})
  announce r c = if eq_ℤ r.id (negsuc 0) then pure tt else elim c [
    | none ↦ undefined
    | some c ↦ do
      call_ os (print (nuevo_cliente c.id c.client_type c.topic))
      b ← get
      count_and_print c b.current_topics 0
  ]

  -- One round of the loop of `talk_to_publisher`.
  unfoldable pub serve_publisher : ℤ → BrokerThread (Unit {0})
  serve_publisher fd = do
    r ← call_or_exit os (recv fd)
    let message = r.msg
    elim message.action [
      | unregister_publisher ↦ unregister os message.action message.topic message.id
      | publish_data ↦ do
        call_ os (
            print
              (recibido message.topic message.publish.content message.publish.time_generated_data))
        publish_msg os message
      | _ ↦ pure tt
    ]

  -- `while(1)`: the first `n` rounds.
  unfoldable pub talk_to_publisher : ℕ → ℤ → BrokerThread (Unit {0})
  talk_to_publisher zero fd = pure tt
  talk_to_publisher (suc n) fd = do serve_publisher fd; talk_to_publisher n fd

  unfoldable pub talk_to_subscriber : ℤ → BrokerThread (Unit {0})
  talk_to_subscriber fd = do
    r ← call_or_exit os (recv fd)
    let message = r.msg
    elim message.action [
      | unregister_subscriber ↦ unregister os message.action message.topic message.id
      | _ ↦ pure tt
    ]

  -- The part of `talk_to_client` under `mutex3`.
  unfoldable pub register_client : Garbage → ℤ → Message → BrokerThread Response
  register_client g fd message = do
    call_ os (lock mutex3)
    b ← get
    response ← elim (do_register g fd message b) [
      | none ↦ undefined
      | some (b1, response, c) ↦ do
        put b1
        must os (send_response fd response)
        announce response c
        pure response
    ]
    call_ os (unlock mutex3)
    pure response

  -- The number is how many messages of a publisher are served, of the `while(1)` that serves all.
  unfoldable pub talk_to_client : ℕ → Garbage → ℤ → BrokerThread (Unit {0})
  talk_to_client n g fd = do
    r ← call_or_exit os (recv fd)
    response ← register_client g fd r.msg
    let registered = not (eq_ℤ response.id (negsuc 0))
    elim r.msg.action [
      | register_publisher ↦ when registered (talk_to_publisher n fd)
      | register_subscriber ↦ when registered (talk_to_subscriber fd)
      | _ ↦ pure tt
    ]
    pthread_exit

  unfoldable pub sighandler : BrokerThread (Unit {0})
  sighandler = do b ← get; call_ os (close b.server_socket); exit 1
