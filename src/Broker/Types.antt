-- ===== src/Broker/Types.antt =====
-- The data of the broker: practica4/proxy_broker.h, the global variables of
-- practica4/proxy_broker.c, and the system calls that it makes.
use sistemas_distribuidos_y.Common.{ℕ, ℤ, String, Os, Thread, SockaddrIn}

-- MAX_TOPICS, MAX_PUBLISHERS and MAX_SUBSCRIBERS.
abbrev pub max_topics : ℕ
max_topics = 10

abbrev pub max_publishers : ℕ
max_publishers = 100

abbrev pub max_subscribers : ℕ
max_subscribers = 900

-- SECUENCIAL, PARALELO and JUSTO, the values of `mode`.
pub data Mode : Type 0 where
  secuencial paralelo justo : Mode

-- `struct publisher` and `struct subscriber`, which have the same fields.
pub record Client : Type 0 where
  pub topic : String
  pub id : ℤ
  pub id_in_topic : ℤ
  pub fd : ℤ

-- `struct topic`. The field `content` is `data`, which no code uses.
pub record Topic : Type 0 where
  pub name : String
  pub content : String
  pub num_subscribers : ℤ
  pub num_publishers : ℤ
  pub subscribers : ℕ → Client
  pub publishers : ℕ → Client

-- `enum operations`.
pub data Operation : Type 0 where
  register_publisher unregister_publisher : Operation
  register_subscriber unregister_subscriber : Operation
  publish_data : Operation

pub record Timespec : Type 0 where
  pub tv_sec : ℕ
  pub tv_nsec : ℕ

-- `struct publish`; `content` is `data`.
pub record Publish : Type 0 where
  pub time_generated_data : Timespec
  pub content : String

-- `struct message`; `publish` is `data`.
pub record Message : Type 0 where
  pub action : Operation
  pub topic : String
  pub id : ℤ
  pub publish : Publish

-- `struct send_message`.
pub record SendMessage : Type 0 where
  pub message : Message
  pub fd : ℤ

-- `enum status`.
pub data Status : Type 0 where
  error limit ok : Status

-- `struct response`.
pub record Response : Type 0 where
  pub response_status : Status
  pub id : ℤ

-- The global variables. Those that only grow from 0 or 1 are natural numbers. The name of the process,
-- which no code sets, is not here.
pub record Broker : Type 0 where
  pub addr : SockaddrIn
  pub server_socket : ℤ
  pub mode : Mode
  pub next_publisher_id : ℕ
  pub next_subscriber_id : ℕ
  pub current_publishers : ℕ
  pub current_subscribers : ℕ
  pub current_topics : ℕ
  pub next_pub_position : ℤ
  pub next_sub_position : ℤ
  pub all_topics : ℕ → Topic

-- `mutex2`, held while a fair publication goes on, and `mutex3`, held while a client registers.
pub data Mutex : Type 0 where
  mutex2 mutex3 : Mutex

-- A line that the broker prints, without the time in front.
pub data Line : Type 0 where
  nuevo_cliente : (id : ℤ) (client_type topic : String) → Line
  eliminado_cliente : (id : ℤ) (client_type topic : String) → Line
  resumen : (name : String) (num_subscribers num_publishers : ℤ) → Line
  enviando : (topic : String) (num_subscribers : ℤ) → Line
  recibido : (topic content : String) (generated : Timespec) → Line

-- The functions that the broker starts threads with, to send one message to one subscriber.
pub data Routine : Type 0 where
  send_parallel send_just : Routine

-- What the broker asks of the system. `recv` asks for a `Message`.
pub data Call : Type 0 where
  socket : Call
  bind : (fd : ℤ) (addr : SockaddrIn) → Call
  listen : (fd : ℤ) (backlog : ℕ) → Call
  accept : (fd : ℤ) → Call
  close : (fd : ℤ) → Call
  recv : (fd : ℤ) → Call
  send_response : (fd : ℤ) (response : Response) → Call
  send_publish : (fd : ℤ) (publish : Publish) → Call
  pthread_create : (routine : Routine) (argument : SendMessage) → Call
  pthread_create_client : (fd : ℤ) → Call
  pthread_join : (thread : ℕ) → Call
  lock : (mutex : Mutex) → Call
  unlock : (mutex : Mutex) → Call
  print : (line : Line) → Call

abbrev pub BrokerOs : Type 0
BrokerOs = Os Call Message

abbrev pub BrokerThread : Type 0 → Type 0
BrokerThread = Thread Broker Call
