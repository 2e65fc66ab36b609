-- ===== src/ProxyClient.antt =====
-- A client of the broker: practica4/proxy_client.c, with the types of practica4/proxy_client.h, which
-- declares the same messages as proxy_broker.h.
pub mod Latency
pub mod Session
pub mod Exchange
pub mod Start
pub mod Publication
pub mod Old
mod Tests
use sistemas_distribuidos_y.Common.{
  ℕ, zero, suc, ◌+◌, ◌-◌, ◌*◌, ℤ, pos, negsuc, dec, eq_ℤ, String, str_eq, Bool, true, false, Os,
  Thread, ltb, if◌then◌else◌, is_neg, ◌>>=◌, ◌>>◌, get, modify, exit, strcpy, call, call_, must,
  pure, SockaddrIn,
}
use sistemas_distribuidos_y.Broker.Types.{
  Operation, register_publisher, register_subscriber, unregister_publisher, unregister_subscriber,
  publish_data, Timespec, Publish, Message, Status, Response,
}

-- PUBLISHER and SUBSCRIBER.
pub data ClientType : Type 0 where
  publisher subscriber : ClientType

-- The global variables; `client_socket` is the socket to the broker.
pub record Peer : Type 0 where
  pub addr : SockaddrIn
  pub proc_name : String
  pub client_socket : ℤ
  pub client_topic : String
  pub client_id : ℤ
  pub client_type : ClientType

-- A `float`, as the operations that it comes from: how each of them is rounded is left to the machine.
pub data Float : Type 0 where
  from_long : (n : ℤ) → Float
  plus over : Float → Float → Float

-- A line that is printed, without the time in front. `recibido_long` is the one of
-- practica4/Old/proxy_subscriber.c, which prints the latency as two numbers, and has the time in front
-- from another reading of the clock than `received`.
pub data Line : Type 0 where
  conectado : (proc_name : String) → Line
  conectado_con : (proc_name ip : String) (port : ℤ) → Line
  registrado : (id : ℤ) (topic : String) → Line
  registro_error : (status : Status) → Line
  publicado : (topic content : String) (generated : Timespec) → Line
  recibido : (topic content : String) (generated received : Timespec) (latency : Float) → Line
  recibido_long :
      (time : Timespec) (topic content : String) (generated received : Timespec)
      (latency_seconds latency_nanoseconds : ℤ)
      → Line
  de_registrado : (id : ℤ) → Line

-- What a client asks of the system.
pub data Call : Type 0 where
  socket : Call
  connect : (fd : ℤ) (addr : SockaddrIn) → Call
  send : (fd : ℤ) (message : Message) → Call
  recv_response : (fd : ℤ) → Call
  recv_publish : (fd : ℤ) → Call
  clock_gettime : Call
  sleep : (seconds : ℕ) → Call
  fread : Call
  close : (fd : ℤ) → Call
  print : (line : Line) → Call

-- What the system fills in: each call is read for the one of these that it asks for.
pub record Filled : Type 0 where
  pub response : Response
  pub publish : Publish
  pub time : Timespec
  pub text : String

abbrev pub PeerOs : Type 0
PeerOs = Os Call Filled

abbrev pub PeerThread : Type 0 → Type 0
PeerThread = Thread Peer Call

-- The bytes of `client_topic`, and of the topic of a message.
abbrev pub topic_size : ℕ
topic_size = 100

abbrev pub nanoseconds_per_second : ℕ
nanoseconds_per_second = 1000000000

-- `a - b` on `long`.
unfoldable pub difference : ℕ → ℕ → ℤ
difference a b = if ltb a b then negsuc (b - a - 1) else pos (a - b)

-- `latency_seconds` and `latency_nanoseconds` of `transfer_subscriber`.
unfoldable pub latency : Timespec → Timespec → ℤ × ℤ
latency received generated =
    if is_neg (difference received.tv_nsec generated.tv_nsec)
    then (
      dec (difference received.tv_sec generated.tv_sec),
      difference (received.tv_nsec + nanoseconds_per_second) generated.tv_nsec,
    )
    else (
      difference received.tv_sec generated.tv_sec,
      difference received.tv_nsec generated.tv_nsec,
    )

-- `latency_seconds + latency_nanoseconds / 1000000000.f`
unfoldable pub as_float : ℤ × ℤ → Float
as_float late =
    plus (from_long late.0) (over (from_long late.1) (from_long (pos nanoseconds_per_second)))

abbrev pub is_ok : Status → Bool
is_ok Status.ok = true
is_ok _ = false

-- The actions of the two types of client.
abbrev pub registration : ClientType → Operation
registration publisher = register_publisher
registration subscriber = register_subscriber

abbrev pub removal : ClientType → Operation
removal publisher = unregister_publisher
removal subscriber = unregister_subscriber

unfoldable pub type_of : String → ClientType
type_of name = if str_eq name "Publisher" then publisher else subscriber

-- What a client prints once it is connected.
unfoldable pub connection_line : ClientType → String → String → ℤ → Line
connection_line subscriber proc_name ip port = conectado_con proc_name ip port
connection_line publisher proc_name ip port = conectado proc_name

module _ (os : PeerOs) where
  -- `do … while (response.response_status != OK)`: at most `n` rounds. Returns whether it was left.
  unfoldable pub unregister_until : ℕ → ℤ → Message → PeerThread Bool
  unregister_until zero fd message = pure false
  unregister_until (suc n) fd message = do
    must os (send fd message)
    r ← call os (recv_response fd)
    if is_neg r.ret
        then exit 1
        else (if is_ok r.msg.response.response_status
            then pure true
            else unregister_until n fd message)

  -- The handler of SIGINT. `garbage` is what the variable `message` holds before it is set.
  unfoldable pub sighandler : ℕ → Message → PeerThread Bool
  sighandler n garbage = do
    p ← get
    done ← unregister_until n p.client_socket (record garbage {
      action = removal p.client_type;
      topic = p.client_topic;
      id = p.client_id;
    })
    if done
        then (do
          call_ os clock_gettime
          call_ os (print (de_registrado p.client_id))
          call_ os (close p.client_socket)
          exit 1)
        else pure false

  -- `while(1)` of `transfer_publisher`, which sends what it reads: the first `n` rounds.
  unfoldable pub transfer_publisher : ℕ → Bool → Message → PeerThread (Unit {0})
  transfer_publisher zero opened message = pure tt
  transfer_publisher (suc n) opened message = do
    call_ os (sleep 3)
    now ← call os clock_gettime
    content ←
        (if opened then (do r ← call os fread; pure r.msg.text) else pure message.publish.content)
    p ← get
    let m = record message {
      action = publish_data;
      topic = p.client_topic;
      publish = record { time_generated_data = now.msg.time; content = content };
    }
    call_ os (print (publicado p.client_topic content now.msg.time))
    must os (send p.client_socket m)
    transfer_publisher n opened m

  -- `while(1)` of `transfer_subscriber`: the first `n` rounds.
  unfoldable pub transfer_subscriber : ℕ → PeerThread (Unit {0})
  transfer_subscriber zero = pure tt
  transfer_subscriber (suc n) = do
    p ← get
    r ← call os (recv_publish p.client_socket)
    if is_neg r.ret then exit 1 else (do
      now ← call os clock_gettime
      let generated = r.msg.publish.time_generated_data
      let late = latency now.msg.time generated
      call_ os (
          print
            (recibido p.client_topic r.msg.publish.content generated now.msg.time (as_float late)))
      transfer_subscriber n)

  -- `opened` says whether `/proc/loadavg` could be opened.
  unfoldable pub start_data_transfer : ℕ → Bool → Message → PeerThread (Unit {0})
  start_data_transfer n opened garbage = do
    p ← get
    elim p.client_type [
      | publisher ↦ transfer_publisher n opened garbage
      | subscriber ↦ transfer_subscriber n
    ]

  unfoldable pub socket_create : PeerThread ℤ
  socket_create = do r ← call os socket; if is_neg r.ret then exit 1 else pure r.ret

  unfoldable pub socket_connect : ℤ → PeerThread (Unit {0})
  socket_connect fd = do
    p ← get
    r ← call os (connect fd p.addr)
    if eq_ℤ r.ret (pos 0) then pure tt else exit 1

  -- The first `n` messages after the registration.
  unfoldable pub talk_to_server : ℕ → Bool → Message → String → String → ℤ → PeerThread (Unit {0})
  talk_to_server n opened garbage topic ip port = do
    modify (λ p. record p { client_type = type_of p.proc_name })
    strcpy topic_size topic
    modify (λ p. record p { client_topic = topic })
    fd ← socket_create
    modify (λ p. record p { client_socket = fd })
    socket_connect fd
    call_ os clock_gettime
    p ← get
    call_ os (print (connection_line p.client_type p.proc_name ip port))
    must os (send fd (record garbage { action = registration p.client_type; topic = topic }))
    r ← call os (recv_response fd)
    if is_neg r.ret then exit 1 else (do
      modify (λ p. record p { client_id = r.msg.response.id })
      call_ os clock_gettime
      if is_ok r.msg.response.response_status
          then (do
            call_ os (print (registrado r.msg.response.id topic))
            start_data_transfer n opened garbage)
          else (do call_ os (print (registro_error r.msg.response.response_status)); exit 1))
