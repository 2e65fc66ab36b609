-- ===== src/ProxyClient/Session.antt =====
-- Registration and removal of a client of practica4/proxy_client.c, whatever the system answers.
use sistemas_distribuidos_y.Common.{
  ℕ, zero, suc, ◌<◌, ℤ, pos, eq_ℤ, String, Bool, true, false, List, ◌∷◌, ◌≡◌, ◌⊎◌, inl, inr, arith,
  Bool-cases, is_neg, World, ok, exited, fault, fits, strcpy,
}
use sistemas_distribuidos_y.Broker.Types.{Message, Status, Response}
use sistemas_distribuidos_y.ProxyClient.{
  Peer, Call, send, socket, connect, recv_response, clock_gettime, close, print, de_registrado,
  connection_line, registrado, registro_error, PeerOs, is_ok, removal, registration, type_of,
  unregister_until, sighandler, topic_size, start_data_transfer, socket_create, socket_connect,
  talk_to_server,
}

-- The calls of one round of `sighandler`, newest first.
abbrev pub round : ℤ → Message → List Call → List Call
round fd m tr = recv_response fd ∷ send fd m ∷ tr

abbrev pub rounds_of : ℤ → Message → ℕ → List Call → List Call
rounds_of fd m zero tr = tr
rounds_of fd m (suc k) tr = rounds_of fd m k (round fd m tr)

-- After `k` answers that are not OK comes one that is, and until then no call fails.
pub data Answers (os : PeerOs) (fd : ℤ) (m : Message) : ℕ → List Call → Type 0 where
  accepts :
      {tr : List Call}
      → is_neg (os tr (send fd m)).ret ≡ false
      → is_neg (os (send fd m ∷ tr) (recv_response fd)).ret ≡ false
      → is_ok (os (send fd m ∷ tr) (recv_response fd)).msg.response.response_status ≡ true
      → Answers os fd m zero tr
  refuses :
      {k : ℕ} {tr : List Call}
      → is_neg (os tr (send fd m)).ret ≡ false
      → is_neg (os (send fd m ∷ tr) (recv_response fd)).ret ≡ false
      → is_ok (os (send fd m ∷ tr) (recv_response fd)).msg.response.response_status ≡ false
      → Answers os fd m k (round fd m tr)
      → Answers os fd m (suc k) tr

unregister_until_lem :
    (os : PeerOs) (fd : ℤ) (m : Message) (n k : ℕ) (w : World Peer Call)
    → k < n
    → Answers os fd m k w.trace
    → unregister_until os n fd m w
      ≡ ok true (record { st = w.st; trace = rounds_of fd m (suc k) w.trace })
unfolding unregister_until
unregister_until_lem os fd m zero k w h a = absurd (omega arith)
unregister_until_lem os fd m (suc n) zero w h (accepts p q r) = ground arith
unregister_until_lem os fd m (suc n) (suc k) w h (refuses p q r a) = ground (
  arith,
  unregister_until_lem os fd m n k (record w { trace = round fd m w.trace }) (omega arith) a,
)

-- The message that a client sends when it is interrupted.
abbrev pub farewell : Message → Peer → Message
farewell garbage p = record garbage {
  action = removal p.client_type;
  topic = p.client_topic;
  id = p.client_id;
}

-- A client that is interrupted asks to be removed as the type of client that it is, with its own
-- topic and id, until it is answered with OK: if `k` answers are refusals, the next one is OK, and no
-- `send` or `recv` before it fails, it asks `k + 1` times, closes its socket and exits with status 1. More
-- rounds than there are refusals are enough.
pub sighandler-leaves :
    (os : PeerOs) (garbage : Message) (n k : ℕ) (w : World Peer Call)
    → k < n
    → Answers os w.st.client_socket (farewell garbage w.st) k w.trace
    → sighandler os n garbage w
      ≡ exited 1 (record {
        st = w.st;
        trace =
            close w.st.client_socket
            ∷ print (de_registrado w.st.client_id)
            ∷ clock_gettime
            ∷ rounds_of w.st.client_socket (farewell garbage w.st) (suc k) w.trace;
      })
unfolding sighandler
sighandler-leaves os garbage n k w h a =
    ground (arith, unregister_until_lem os w.st.client_socket (farewell garbage w.st) n k w h a)

-- The state and the request of a client that registers, and the calls up to the answer.
abbrev pub joining : String → ℤ → Peer → Peer
joining topic fd p = record p {
  client_type = type_of p.proc_name;
  client_topic = topic;
  client_socket = fd;
}

abbrev pub greeting : Message → String → Peer → Message
greeting garbage topic p = record garbage {
  action = registration (type_of p.proc_name);
  topic = topic;
}

abbrev pub asked : Message → String → String → ℤ → ℤ → World Peer Call → List Call
asked garbage topic ip port fd w =
    send fd (greeting garbage topic w.st)
    ∷ print (connection_line (type_of w.st.proc_name) w.st.proc_name ip port)
    ∷ clock_gettime
    ∷ connect fd w.st.addr
    ∷ socket
    ∷ w.trace

-- Whatever the system answers, a client either writes a topic that is too long behind the array of its
-- topic, or exits with status 1, or its request was answered with OK and it goes on to its data under
-- the id that it was given.
pub talk_to_server_lem :
    (os : PeerOs) (n : ℕ) (opened : Bool) (garbage : Message) (topic ip : String) (port : ℤ)
    (w : World Peer Call)
    → let fd = (os w.trace socket).ret in
      let answer = (os (asked garbage topic ip port fd w) (recv_response fd)).msg.response in
      ((fits topic_size topic ≡ false)
        × (talk_to_server os n opened garbage topic ip port w ≡ fault))
      ⊎ ((w' : World Peer Call) × (talk_to_server os n opened garbage topic ip port w
            ≡ exited 1 w'))
      ⊎ ((is_ok answer.response_status ≡ true)
          × (talk_to_server os n opened garbage topic ip port w
              ≡ start_data_transfer os n opened garbage (record {
                st = record (joining topic fd w.st) { client_id = answer.id };
                trace =
                    print (registrado answer.id topic)
                    ∷ clock_gettime
                    ∷ recv_response fd
                    ∷ asked garbage topic ip port fd w;
              })))
unfolding talk_to_server socket_create socket_connect strcpy
talk_to_server_lem os n opened garbage topic ip port w = elim (Bool-cases (fits topic_size topic)) [
  | inr long ↦ inl (long, ground arith)
  | inl short ↦ inr (elim (Bool-cases (is_neg fd_reply)) [
    | inl a ↦ inl (
      record {
        st = record w.st { client_type = type_of w.st.proc_name; client_topic = topic };
        trace = socket ∷ w.trace;
      },
      ground arith,
    )
    | inr a ↦ elim (Bool-cases (eq_ℤ connected (pos 0))) [
      | inr b ↦ inl (
        record {
          st = joining topic fd_reply w.st;
          trace = connect fd_reply w.st.addr ∷ socket ∷ w.trace;
        },
        ground arith,
      )
      | inl b ↦ elim (Bool-cases (is_neg sent)) [
        | inl c ↦ inl (
          record {
            st = joining topic fd_reply w.st;
            trace = asked garbage topic ip port fd_reply w;
          },
          ground arith,
        )
        | inr c ↦ elim (Bool-cases (is_neg got)) [
          | inl d ↦ inl (
            record {
              st = joining topic fd_reply w.st;
              trace = recv_response fd_reply ∷ asked garbage topic ip port fd_reply w;
            },
            ground arith,
          )
          | inr d ↦ elim (Bool-cases (is_ok status)) [
            | inr e ↦ inl (
              record {
                st = record (joining topic fd_reply w.st) { client_id = answer.id };
                trace =
                    print (registro_error status)
                    ∷ clock_gettime
                    ∷ recv_response fd_reply
                    ∷ asked garbage topic ip port fd_reply w;
              },
              ground arith,
            )
            | inl e ↦ inr (e, ground arith)
          ]
        ]
      ]
    ]
  ])
]
  where
    fd_reply : ℤ
    fd_reply = (os w.trace socket).ret

    connected : ℤ
    connected = (os (socket ∷ w.trace) (connect fd_reply w.st.addr)).ret

    sent : ℤ
    sent =
        (os
          (print (connection_line (type_of w.st.proc_name) w.st.proc_name ip port)
            ∷ clock_gettime
            ∷ connect fd_reply w.st.addr
            ∷ socket
            ∷ w.trace)
          (send fd_reply (greeting garbage topic w.st))).ret

    got : ℤ
    got = (os (asked garbage topic ip port fd_reply w) (recv_response fd_reply)).ret

    answer : Response
    answer = (os (asked garbage topic ip port fd_reply w) (recv_response fd_reply)).msg.response

    status : Status
    status = answer.response_status
