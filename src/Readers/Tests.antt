-- ===== src/Readers/Tests.antt =====
-- The theorems on practica3/proxy.c at concrete states.
use sistemas_distribuidos_y.Common.{
  update, dec, ℕ, suc, ◌≤◌, ◌<◌, ℤ, pos, List, [], ◌∷◌, false, ◌≡◌, refl, ltb, ◌==◌, arith,
  if◌then◌else◌, count, SockaddrIn, Libc, all_known, last, Opt, opt_t, opt_m, some, World, ok,
  ended, fault,
}
use sistemas_distribuidos_y.Readers.{
  max_threads, read, write, same, Shared, is_due, depart, leave, signal_next,
}
use sistemas_distribuidos_y.Readers.Requests.{change_counter, enter, must_wait, needs_mutex}
use sistemas_distribuidos_y.Readers.Server as Server
use sistemas_distribuidos_y.Readers.Service.{
  receive_request, respond, set_value_fd, thread_ends, init_server_thread, talk_2_client,
}
use sistemas_distribuidos_y.Readers.Service.Visit.{talk_2_client-alone}
use sistemas_distribuidos_y.Readers.Service.Slots.{used, init_server_thread-slot}
use sistemas_distribuidos_y.Readers.Client as Client
use sistemas_distribuidos_y.Readers.Exchange.{
  answer_on, request_of, got, told, talk_2_server-talk_2_client,
}
use sistemas_distribuidos_y.Readers.Requests.{State, done, Reach}
use sistemas_distribuidos_y.Readers.Server.Steps.{alone, do_request-Reach}
use sistemas_distribuidos_y.Readers.Start.{is_kind, client_main}
use sistemas_distribuidos_y.Readers.Start.Given.{client_main-overflow}

-- The first two sockets are in use.
abbrev two_used : ℕ → ℤ
two_used k = if ltb k 2 then pos 7 else pos 0

-- The third reader in a row, with a ratio of 3 and a writer that waits.
abbrev third_reader : Shared
third_reader = record {
  priority = read;
  ratio = pos 3;
  ratio_counter = 3;
  current_readers = 5;
  current_writers = 1;
}

-- A system whose calls return 0, but for `accept`, which returns 9.
abbrev calm : Server.ServerOs
calm tr (Server.accept fd) = record {
  ret = pos 9;
  msg = record {
    request = record { action = write; id = 2 };
    time = record { tv_sec = 3; tv_nsec = 4 };
    number = 77;
  };
}
calm tr (Server.fopen mode) = record {
  ret = pos 4;
  msg = record {
    request = record { action = write; id = 2 };
    time = record { tv_sec = 3; tv_nsec = 4 };
    number = 77;
  };
}
calm tr _ = record {
  ret = pos 0;
  msg = record {
    request = record { action = write; id = 2 };
    time = record { tv_sec = 3; tv_nsec = 4 };
    number = 77;
  };
}

abbrev nowhere : SockaddrIn
nowhere = record { sin_port = 0; sin_addr = 0 }

abbrev server_with : (ℕ → ℤ) → World Server.Server Server.Call
server_with sockets = record {
  st = record {
    addr = nowhere;
    server_socket = pos 3;
    client_sockets = sockets;
    current_threads = pos 2;
    counter = 5;
    shared = record {
      priority = write;
      ratio = pos 3;
      ratio_counter = 0;
      current_readers = 0;
      current_writers = 0;
    };
  };
  trace = [];
}

few : used two_used ≤ 2
unfolding count
few = omega arith

init_server_thread-slot_example :
    let w : World Server.Server Server.Call = server_with two_used in
    (id : ℕ) × (w' : World Server.Server Server.Call) × (init_server_thread calm (λ s. s) w
      ≡ ok (id, pos 9) w')
    × (id < max_threads)
    × (two_used id ≡ pos 0)
    × ((k : ℕ) → w'.st.client_sockets k ≡ (if id == k then pos 9 else two_used k))
    × (used w'.st.client_sockets ≤ 3)
init_server_thread-slot_example =
    init_server_thread-slot calm (server_with two_used) refl 2 refl (omega arith) few

talk_2_client-alone_example :
    let w : World Server.Server Server.Call = server_with two_used in
    (time : ℤ) × (tr : List Server.Call) × (talk_2_client calm (λ s. s) 1 (pos 7) w
      ≡ ended (record {
        st = record w.st {
          counter = change_counter write 5;
          shared = record w.st.shared {
            ratio_counter =
                if same write w.st.shared.priority then suc w.st.shared.ratio_counter else 0;
          };
          client_sockets = update two_used 1 (pos 0);
          current_threads = dec (pos 2);
        };
        trace =
            Server.unlock Server.current_threads_mutex
            ∷ Server.cond_signal Server.not_full
            ∷ Server.lock Server.current_threads_mutex
            ∷ Server.unlock Server.free_fd_mutex
            ∷ Server.lock Server.free_fd_mutex
            ∷ Server.close (two_used 1)
            ∷ Server.send_response
                (pos 7)
                (record { action = write; counter = change_counter write 5; waiting_time = time })
            ∷ tr;
      }))
talk_2_client-alone_example =
    talk_2_client-alone calm 1 (pos 7) (server_with two_used) (λ tr. refl, λ tr n. refl, λ tr. refl)
      (refl, refl) refl (λ tr r. refl) (omega arith)

-- A server that answers each request with the number 8.
abbrev eight : Client.ClientOs
eight tr c = record {
  ret = pos 0;
  msg = record { action = read; counter = 8; waiting_time = pos 100 };
}

-- A client whose request reaches that server, and whose answer comes from it.
abbrev writing : Client.ClientOs
writing tr c = record {
  ret = pos 0;
  msg = record { action = write; counter = 6; waiting_time = pos 0 };
}

abbrev requesting : Server.ServerOs
requesting tr (Server.fopen mode) = record {
  ret = pos 4;
  msg = record {
    request = record { action = write; id = 4 };
    time = record { tv_sec = 3; tv_nsec = 4 };
    number = 77;
  };
}
requesting tr c = record {
  ret = pos 0;
  msg = record {
    request = record { action = write; id = 4 };
    time = record { tv_sec = 3; tv_nsec = 4 };
    number = 77;
  };
}

writing_answer :
    answer_on (pos 7) (talk_2_client requesting (λ s. s) 1 (pos 7) (server_with two_used))
    ≡ some (got writing "writer" 4 nowhere)
unfolding talk_2_client receive_request Server.do_request Server.now Server.take_turn
    Server.update_ratio Server.work Server.write_output Server.give_turn respond set_value_fd
    thread_ends enter must_wait needs_mutex change_counter Server.waiting_time Server.by_ratio leave
    depart signal_next is_due Client.action_of
writing_answer = refl

writing_request : record { action = write; id = 4 } ≡ request_of "writer" 4
unfolding Client.action_of
writing_request = refl

talk_2_server-talk_2_client_example :
    let w : World Server.Server Server.Call = server_with two_used in
    (time : ℤ) × (w' : World Server.Server Server.Call) × (talk_2_client requesting
        (λ s. s)
        1
        (pos 7)
        w
      ≡ ended w')
    × (w'.st.counter ≡ change_counter (Client.action_of "writer") 5)
    × (Client.talk_2_server writing "writer" 4 (record { st = nowhere; trace = [] })
        ≡ ended (
            told writing "writer" 4 nowhere (record {
              action = Client.action_of "writer";
              counter = w'.st.counter;
              waiting_time = time;
            })))
talk_2_server-talk_2_client_example =
    talk_2_server-talk_2_client writing requesting "writer" 4 nowhere 1 (pos 7)
      (server_with two_used) (record { valid = refl; connected = refl; went = refl; came = refl })
      (λ tr. refl, λ tr n. refl, λ tr. refl) (refl, refl) refl (λ tr r. refl) (omega arith)
      writing_request writing_answer

do_request-Reach_example :
    let w : World Server.Server Server.Call = server_with two_used in
    (time : ℤ) × (w' : World Server.Server Server.Call) × (t : State) × (Server.do_request calm
        (λ s. s)
        (record { action = write; id = 2 })
        w
      ≡ ok (record { action = write; counter = t.counter; waiting_time = time }) w')
    × Reach false 1 (alone write w.st) t
    × ((t.sessions 0).at ≡ done t.counter)
    × (t.shared ≡ w'.st.shared)
    × (t.counter ≡ w'.st.counter)
    × (t.mutex ≡ false)
do_request-Reach_example =
    do_request-Reach calm (record { action = write; id = 2 }) (server_with two_used)
      (λ tr. refl, λ tr n. refl, λ tr. refl) (refl, refl)

abbrev given_options : List Opt
given_options = opt_t "4" ∷ opt_m "reader" ∷ []

abbrev four : Libc
four = record { atoi = λ a. pos 4; htons = λ n. 80; inet_addr = λ a. 0 }

client_main-overflow_example :
    client_main four eight given_options (record { st = nowhere; trace = [] }) ≡ fault
unfolding all_known last is_kind
client_main-overflow_example =
    client_main-overflow four eight given_options "4" "reader" (record { st = nowhere; trace = [] })
      refl refl refl refl (λ e. ground arith) refl
