-- ===== src/Readers/Server.antt =====
-- The server of practica3 as one of its threads runs it: `do_request` of proxy.c. What other threads do
-- to the global variables while this one waits for a lock or a condition is a parameter, `meanwhile`.
pub mod Parts
pub mod Alone
pub mod Steps
use sistemas_distribuidos_y.Common.{
  ℕ, zero, suc, ◌+◌, ◌-◌, ◌*◌, ℤ, pos, negsuc, is_neg, eq_ℤ, sub_ℕ, ◌+ℤ◌, ◌*ℤ◌, String, str_eq,
  Bool, true, false, not, ◌&&◌, ◌||◌, ltb, ◌==◌, if◌then◌else◌, update, Os, Thread, ◌>>=◌, ◌>>◌,
  undefined, get, put, modify, when, exit, call, call_, must, call_or_exit, pthread_exit, pure,
  SockaddrIn,
}
use Prim.Native.Nat.{◌/◌, ◌%◌}
use sistemas_distribuidos_y.Readers.{
  Action, read, write, same, Shared, max_threads, set_priority, get_free_fd, is_due, depart, leave,
}
use sistemas_distribuidos_y.Readers.Requests.{
  enter, must_wait, needs_mutex, count_ratio, change_counter,
}

pub record Request : Type 0 where
  pub action : Action
  pub id : ℕ

pub record Response : Type 0 where
  pub action : Action
  pub counter : ℕ
  pub waiting_time : ℤ

-- `struct timespec`.
pub record Timespec : Type 0 where
  pub tv_sec : ℕ
  pub tv_nsec : ℕ

-- The global variables. The address is not part of it.
pub record Server : Type 0 where
  pub addr : SockaddrIn
  pub server_socket : ℤ
  pub client_sockets : ℕ → ℤ
  pub current_threads : ℤ
  pub counter : ℕ
  pub shared : Shared

pub data Mutex : Type 0 where
  mutex counter_mutex current_threads_mutex free_fd_mutex : Mutex
  ratio_mutex writers_mutex readers_mutex : Mutex

pub data Condition : Type 0 where
  not_full allow_writers allow_readers : Condition

-- `[ms] [action #id] verb contador con valor counter`
pub data Line : Type 0 where
  turno : (microseconds : ℕ) (action : Action) (id counter : ℕ) → Line

pub data Call : Type 0 where
  socket : Call
  bind : (fd : ℤ) (addr : SockaddrIn) → Call
  listen : (fd : ℤ) (backlog : ℕ) → Call
  accept : (fd : ℤ) → Call
  close : (fd : ℤ) → Call
  recv_request : (fd : ℤ) → Call
  send_response : (fd : ℤ) (response : Response) → Call
  pthread_create : (id : ℕ) (client_socket : ℤ) → Call
  clock_gettime : Call
  rand : Call
  nanosleep : (nanoseconds : ℕ) → Call
  lock : (mutex : Mutex) → Call
  unlock : (mutex : Mutex) → Call
  cond_wait : (condition : Condition) (mutex : Mutex) → Call
  cond_signal : (condition : Condition) → Call
  fopen : (mode : String) → Call  -- of server_output.txt; 0 is `NULL`
  read_last : Call  -- the last line of the file, as a number
  fprintf : (counter : ℕ) → Call
  fclose : Call
  print : (line : Line) → Call

-- What the system fills in: each call is read for the one of these that it asks for.
pub record Filled : Type 0 where
  pub request : Request
  pub time : Timespec
  pub number : ℕ

abbrev pub ServerOs : Type 0
ServerOs = Os Call Filled

abbrev pub ServerThread : Type 0 → Type 0
ServerThread = Thread Server Call

-- The mutex and the condition of an action.
abbrev pub mutex_of : Action → Mutex
mutex_of read = readers_mutex
mutex_of write = writers_mutex

abbrev pub condition_of : Action → Condition
condition_of read = allow_readers
condition_of write = allow_writers

abbrev pub on_shared : (Shared → Shared) → Server → Server
on_shared f s = record s { shared = f s.shared }

-- `waited_total_ns`
unfoldable pub waiting_time : Timespec → Timespec → ℤ
waiting_time begin end =
    sub_ℕ end.tv_nsec begin.tv_nsec +ℤ sub_ℕ end.tv_sec begin.tv_sec *ℤ pos 1000000000

-- Whether the client that leaves signals because of the ratio, under `ratio_mutex`.
unfoldable pub by_ratio : Action → Shared → Bool
by_ratio action s =
    is_due s
    && ((same action read && ltb 0 s.current_writers)
        || (same action write && ltb 0 s.current_readers))

module _ (os : ServerOs) where
  unfoldable pub write_output : ServerThread (Unit {0})
  write_output = do
    r ← call os (fopen "w")
    s ← get
    if eq_ℤ r.ret (pos 0) then undefined else (do call_ os (fprintf s.counter); call_ os fclose)

module _ (os : ServerOs) (meanwhile : Server → Server) where
  abbrev pub acquire : Mutex → ServerThread (Unit {0})
  acquire m = call_ os (lock m) >> modify meanwhile

  abbrev pub release : Mutex → ServerThread (Unit {0})
  release m = call_ os (unlock m)

  abbrev pub wait_for : Condition → Mutex → ServerThread (Unit {0})
  wait_for c m = call_ os (cond_wait c m) >> modify meanwhile

  -- `clock_gettime`, which must return 0.
  unfoldable pub now : ServerThread Timespec
  now = do r ← call os clock_gettime; if eq_ℤ r.ret (pos 0) then pure r.msg.time else exit 1

  -- `do_request` up to its critical section; returns `locked`.
  unfoldable pub take_turn : Action → ServerThread Bool
  take_turn action = do
    acquire counter_mutex
    modify (on_shared (enter action))
    s ← get
    if must_wait s.shared
        then (do
          acquire (mutex_of action)
          release counter_mutex
          wait_for (condition_of action) (mutex_of action)
          release (mutex_of action))
        else release counter_mutex
    s ← get
    let locked = needs_mutex action s.shared
    when locked (acquire mutex)
    pure locked

  unfoldable pub update_ratio : Action → ServerThread (Unit {0})
  update_ratio action = do
    s ← get
    if same action s.shared.priority
        then (do
          acquire ratio_mutex
          modify (on_shared (λ s. record s { ratio_counter = suc s.ratio_counter }))
          release ratio_mutex)
        else modify (on_shared (λ s. record s { ratio_counter = 0 }))

  -- The signal of a client that leaves.
  unfoldable pub give_turn : Action → ServerThread (Unit {0})
  give_turn action = do
    acquire counter_mutex
    s ← get
    let kind = (leave action s.shared).0
    if by_ratio action (depart action s.shared)
        then (do
          modify (on_shared (λ s. (leave action s).1))
          acquire ratio_mutex
          call_ os (cond_signal (condition_of kind))
          release ratio_mutex)
        else (do
          modify (on_shared (λ s. (leave action s).1))
          call_ os (cond_signal (condition_of kind)))
    release counter_mutex

  -- The critical section behind the second reading of the clock.
  unfoldable pub work : Request → ℕ → ServerThread (Unit {0})
  work request nanoseconds = do
    modify (λ s. record s { counter = change_counter request.action s.counter })
    slept ← call os (nanosleep nanoseconds)
    when (is_neg slept.ret) (release mutex >> exit 1)
    s ← get
    call_ os (print (turno (nanoseconds / 1000) request.action request.id s.counter))
    write_output os

  unfoldable pub do_request : Request → ServerThread Response
  do_request request = do
    r ← call os rand
    begin ← now
    locked ← take_turn request.action
    update_ratio request.action
    end ← now
    work request (r.msg.number % 75000000 + 75000000)
    give_turn request.action
    when locked (release mutex)
    s ← get
    pure (record {
      action = request.action;
      counter = s.counter;
      waiting_time = waiting_time begin end;
    })
