-- ===== src/Broker/Clients.antt =====
-- The clients of a topic: `shift_client_list` and `unregister` of practica4/proxy_broker.c.
pub mod Removal
pub mod Roster
use sistemas_distribuidos_y.Common.{
  ℕ, zero, suc, ◌-◌, ℤ, dec, eq_ℤ, String, Option, none, some, ltb, if◌then◌else◌, update, ◌>>=◌,
  ◌>>◌, undefined, get, modify, call_, must, pthread_exit, pure,
}
use sistemas_distribuidos_y.Broker.Types.{
  Client, Topic, Broker, Operation, unregister_subscriber, unregister_publisher, Status, BrokerOs,
  BrokerThread, max_topics, max_subscribers, max_publishers, send_response, print, resumen,
  eliminado_cliente,
}
use sistemas_distribuidos_y.Broker.Topics.{get_topic_id}

-- The first loop, with `n` rounds left, at position `i`: where the client with that id is, or the end.
unfoldable pub find_client : ℕ → ℕ → (ℕ → Client) → ℤ → ℕ
find_client zero i cs id = i
find_client (suc n) i cs id = if eq_ℤ (cs i).id id then i else find_client n (suc i) cs id

-- The second loop, with `n` rounds left, at position `i`. Its last round reads behind the array.
unfoldable pub shift_loop : ℕ → ℕ → (ℕ → Client) → ℕ → Client
shift_loop zero i cs = cs
shift_loop (suc n) i cs = shift_loop n (suc i) (update cs i (cs (suc i)))

-- Both loops over an array of `max` clients.
unfoldable pub shift_left : ℕ → (ℕ → Client) → ℤ → ℕ → Client
shift_left max cs id = let p = find_client max 0 cs id in shift_loop (max - p) p cs

-- The variable `fd_to_del`, which is not set if no client has the id.
unfoldable pub fd_to_del : ℕ → (ℕ → Client) → ℤ → Option ℤ
fd_to_del max cs id = let p = find_client max 0 cs id in if ltb p max then some (cs p).fd else none

-- A change of the topic at one position.
abbrev pub on_topic : ℕ → (Topic → Topic) → Broker → Broker
on_topic i f b = record b { all_topics = update b.all_topics i (f (b.all_topics i)) }

module _ (os : BrokerOs) where
  -- The answer to a client that leaves.
  unfoldable pub answer_unregister : Option ℤ → ℤ → BrokerThread (Unit {0})
  answer_unregister none id = undefined
  answer_unregister (some fd) id = do
    must os (send_response fd (record { response_status = Status.ok; id = id }))

  unfoldable pub shift_client_list : ℕ → Operation → ℤ → BrokerThread (Unit {0})
  shift_client_list i unregister_subscriber id = do
    b ← get
    let cs = (b.all_topics i).subscribers
    modify (on_topic i (λ t. record t { subscribers = shift_left max_subscribers cs id }))
    answer_unregister (fd_to_del max_subscribers cs id) id
  shift_client_list i unregister_publisher id = do
    b ← get
    let cs = (b.all_topics i).publishers
    modify (on_topic i (λ t. record t { publishers = shift_left max_publishers cs id }))
    answer_unregister (fd_to_del max_publishers cs id) id
  shift_client_list i _ id = answer_unregister none id

  -- The rows of the summary, with `n` rounds left, at position `i`.
  unfoldable pub print_resumen : ℕ → ℕ → BrokerThread (Unit {0})
  print_resumen zero i = pure tt
  print_resumen (suc n) i = do
    b ← get
    let t = b.all_topics i
    call_ os (print (resumen t.name t.num_subscribers t.num_publishers))
    print_resumen n (suc i)

  -- The two branches of `unregister` that change the state.
  unfoldable pub remove_client : ℕ → Operation → ℤ → BrokerThread String
  remove_client i unregister_subscriber id = do
    shift_client_list i unregister_subscriber id
    modify (on_topic i (λ t. record t { num_subscribers = dec t.num_subscribers }))
    modify (λ b. record b { next_sub_position = dec b.next_sub_position })
    pure "Suscriptor"
  remove_client i unregister_publisher id = do
    shift_client_list i unregister_publisher id
    modify (on_topic i (λ t. record t { num_publishers = dec t.num_publishers }))
    modify (λ b. record b { next_pub_position = dec b.next_pub_position })
    pure "Publicador"
  remove_client i _ id = undefined

  -- A position behind `all_topics` is a fault.
  unfoldable pub unregister : Operation → String → ℤ → BrokerThread (Unit {0})
  unregister action topic_name id = do
    b ← get
    let topic_id = get_topic_id b topic_name
    client_type ← if ltb topic_id max_topics then remove_client topic_id action id else undefined
    call_ os (print (eliminado_cliente id client_type topic_name))
    b' ← get
    print_resumen b'.current_topics 0
    pthread_exit
