-- ===== src/Readers/Exchange.antt =====
-- A request of practica3: a thread of the client and the thread of the server that serves it.
use sistemas_distribuidos_y.Common.{
  ℕ, ◌<◌, ℤ, pos, is_neg, eq_ℤ, String, false, Option, none, some, List, [], ◌∷◌, ◌≡◌, refl, sym,
  ap, ◌∙◌, arith, if◌then◌else◌, World, SockaddrIn, Outcome, ended,
}
use sistemas_distribuidos_y.Readers.{max_threads}
use sistemas_distribuidos_y.Readers.Requests.{change_counter}
use sistemas_distribuidos_y.Readers.Server as Server
use sistemas_distribuidos_y.Readers.Server.{Request, Response, ServerOs}
use sistemas_distribuidos_y.Common.{eq_ℤ_refl}
use sistemas_distribuidos_y.Readers.Server.Parts.{IsIdle}
use sistemas_distribuidos_y.Readers.Server.Alone.{IsReliable}
use sistemas_distribuidos_y.Readers.Service.{talk_2_client}
use sistemas_distribuidos_y.Readers.Service.Visit.{talk_2_client-alone}
use sistemas_distribuidos_y.Readers.Client.{
  ClientOs, Call, socket, connect, send, recv, close, print, turno, action_of, talk_2_server,
  socket_create, socket_connect, receive_response,
}

-- The last response that was sent on a socket.
abbrev pub response_on : ℤ → List Server.Call → Option Response
response_on fd [] = none
response_on fd (Server.send_response k r ∷ tr) = if eq_ℤ k fd then some r else response_on fd tr
response_on fd (_ ∷ tr) = response_on fd tr

-- The response of a thread of the server that has ended.
abbrev pub answer_on : ℤ → Outcome (World Server.Server Server.Call) (Unit {0}) → Option Response
answer_on fd (ended w) = response_on fd w.trace
answer_on fd _ = none

-- The request of a thread of the client, and its calls up to that.
abbrev pub request_of : String → ℕ → Request
request_of mode thread_id = record { action = action_of mode; id = thread_id }

abbrev pub asked : ℤ → String → ℕ → SockaddrIn → List Call
asked fd mode thread_id addr = send fd (request_of mode thread_id) ∷ connect fd addr ∷ socket ∷ []

module _ (os : ClientOs) (mode : String) (thread_id : ℕ) (addr : SockaddrIn) where
  abbrev pub client_fd : ℤ
  client_fd = (os [] socket).ret

  -- The response that the client gets.
  abbrev pub got : Response
  got = (os (asked client_fd mode thread_id addr) (recv client_fd)).msg

  -- The calls of a thread of the client all go well.
  pub record Connects : Type 0 where
    pub valid : is_neg client_fd ≡ false
    pub connected : (os (socket ∷ []) (connect client_fd addr)).ret ≡ pos 0
    pub went :
        is_neg
          (os
            (connect client_fd addr ∷ socket ∷ [])
            (send client_fd (request_of mode thread_id))).ret
        ≡ false
    pub came : is_neg (os (asked client_fd mode thread_id addr) (recv client_fd)).ret ≡ false

  -- The end of a thread that was answered with `response`.
  abbrev pub told : Response → World SockaddrIn Call
  told response = record {
    st = addr;
    trace =
        close client_fd
        ∷ print (turno thread_id response.action response.counter response.waiting_time)
        ∷ recv client_fd
        ∷ asked client_fd mode thread_id addr;
  }

  talk_2_server-ends :
      Connects
      → talk_2_server os mode thread_id (record { st = addr; trace = [] }) ≡ ended (told got)
  unfolding talk_2_server socket_create socket_connect receive_response
  talk_2_server-ends c = ground (arith, c.valid, c.connected, c.went, c.came)

the_same : {r s : Response} → some r ≡ some s → r ≡ s
the_same e = cc

-- A thread of the client whose calls go well, and a thread of the server that has its socket `fd`, an
-- entry of the table, and no other request to serve meanwhile.
module _ (client : ClientOs) (server : ServerOs) (mode : String) (thread_id : ℕ) (addr : SockaddrIn)
    (id : ℕ) (fd : ℤ) (w : World Server.Server Server.Call)
    (connects : Connects client mode thread_id addr) (reliable : IsReliable server)
    (idle : IsIdle w.st.shared)
    (received : is_neg (server w.trace (Server.recv_request fd)).ret ≡ false)
    (answered : (tr : List Server.Call) (r : Response)
      → is_neg (server tr (Server.send_response fd r)).ret ≡ false)
    (inside : id < max_threads) where
  -- A client and a server that serves nothing else: no other request is there when this one comes, and
  -- none comes meanwhile. The other conditions are: the clock of the server can be read, its sleeps
  -- do not fail and it can open the file of the counter to write it; the id of its thread is one of the table; the calls of the client and the `recv` and
  -- the `send` of the server go well; the request that the client sends is the one that the server
  -- receives, and the response that the server sends the one that the client receives. Then both
  -- threads end, and the client prints its number, its kind and the counter that the server has then,
  -- which is raised by one for a writer.
  pub talk_2_server-talk_2_client :
      (server w.trace (Server.recv_request fd)).msg.request ≡ request_of mode thread_id
      → answer_on fd (talk_2_client server (λ s. s) id fd w) ≡ some (got client mode thread_id addr)
      → (time : ℤ) × (w' : World Server.Server Server.Call) × (talk_2_client server (λ s. s) id fd w
          ≡ ended w')
        × (w'.st.counter ≡ change_counter (action_of mode) w.st.counter)
        × (talk_2_server client mode thread_id (record { st = addr; trace = [] })
            ≡ ended (
                told client mode thread_id addr (record {
                  action = action_of mode;
                  counter = w'.st.counter;
                  waiting_time = time;
                })))
  talk_2_server-talk_2_client there back =
      let (time, tr, e) =
        talk_2_client-alone server id fd w reliable idle received answered inside in
      (
        time,
        _,
        e,
        ap (λ r. change_counter r.action w.st.counter) there,
        talk_2_server-ends client mode thread_id addr connects
            ∙ ap (λ r. ended (told client mode thread_id addr r))
                (the_same (sym back ∙ ap (answer_on fd) e ∙ rw (eq_ℤ_refl fd) refl)
                  ∙ ap
                      (λ (r : Request). record {
                        action = r.action;
                        counter =
                            change_counter
                              (server w.trace (Server.recv_request fd)).msg.request.action
                              w.st.counter;
                        waiting_time = time;
                      })
                      there),
      )
