-- ===== src/Shutdown/Tests.antt =====
-- The theorems on the shutdown of practica2 at one complete schedule.
use sistemas_distribuidos_y.Common.{
  ℕ, pos, Bool, ok, World, ◌≤◌, List, [], ◌∷◌, length, false, ◌≡◌, refl,
}
use sistemas_distribuidos_y.Shutdown.Messages.{tick, observe}
use sistemas_distribuidos_y.Shutdown.Server.{answers}
use sistemas_distribuidos_y.Shutdown.System.{
  closed, client_hear, client_move, server_hear, server_move_p1, server_move_p3, Move, p1_moves,
  p3_moves, server_reads_p1, server_reads_p3, move, run, initial, can,
}
use sistemas_distribuidos_y.Shutdown.Types.{Message, Process, Call, ProcessOs, shutdown_now}
use sistemas_distribuidos_y.Shutdown.Loop.{recvs, hear, mirror, Mirrors, client_loop-hear}
use sistemas_distribuidos_y.Shutdown.Termination.{IsLive, shutdown-finishes}
use sistemas_distribuidos_y.Shutdown.Order.{ClosesAt, IsDone, shutdown-order}
use sistemas_distribuidos_y.Shutdown.Types.{expected_lamport_p2}
use sistemas_distribuidos_y.Shutdown.Server.{server_receive}
use sistemas_distribuidos_y.Shutdown.System.{is_empty}
use sistemas_distribuidos_y.Shutdown.Serving.{Serves, at, thread}
use sistemas_distribuidos_y.Shutdown.Serving.Answering.{server_receive-run}

abbrev schedule : List Move
schedule =
    p1_moves ∷ p3_moves ∷ server_reads_p1 ∷ server_reads_p3 ∷ p1_moves ∷ p1_moves ∷ server_reads_p1
    ∷ p3_moves ∷ p3_moves ∷ p3_moves ∷ server_reads_p3 ∷ []

schedule-IsLive : IsLive schedule initial
unfolding IsLive move client_move client_hear server_move_p1 server_move_p3 server_hear answers tick
    observe
schedule-IsLive =
    (refl, (refl, (refl, (refl, (refl, (refl, (refl, (refl, (refl, (refl, (refl, tt)))))))))))

shutdown-order_example :
    let s = run schedule initial in
    ClosesAt 5 3 s.p1 s × ClosesAt 9 7 s.p3 s × (s.p3.phase ≡ closed → s.p1.phase ≡ closed)
shutdown-order_example = shutdown-order schedule

shutdown-finishes_example :
    (length schedule ≤ 14)
    × (((m : Move) → can m (run schedule initial) ≡ false) → IsDone (run schedule initial))
shutdown-finishes_example = shutdown-finishes schedule schedule-IsLive

-- Messages with the clocks 0, 1, 2 and so on, from a server that is never late.
abbrev counting : ℕ → Message
counting k = record { origin = "P2"; action = shutdown_now; clock_lamport = k }

abbrev steady : ProcessOs
steady tr c = record { ret = pos 0; msg = counting (recvs tr) }

abbrev listening : World Process Call
listening = record {
  st = record {
    proc_name = "P1";
    socket_ = pos 3;
    addr = record { sin_port = 0; sin_addr = 0 };
    client_socket_1_ = pos 0;
    client_socket_2_ = pos 0;
    lamport_ = 1;
  };
  trace = [];
}

client_loop-hear_example :
    Mirrors steady 5 (3 ∷ []) listening (hear 5 (mirror counting initial.p1 5 (3 ∷ []) listening))
client_loop-hear_example =
    client_loop-hear steady counting initial.p1 5 (3 ∷ []) listening (λ tr. (refl, refl))

-- A system with data on every socket whenever it is asked.
abbrev busy : ProcessOs
busy tr c = record { ret = pos 1; msg = counting (recvs tr) }

abbrev serving : Process
serving = record {
  proc_name = "P2";
  socket_ = pos 3;
  addr = record { sin_port = 0; sin_addr = 0 };
  client_socket_1_ = pos 4;
  client_socket_2_ = pos 5;
  lamport_ = 0;
}

server_receive-run_example :
    (left : Bool) × (u : ℕ) × (ys : List ℕ) × (tr' : List Call) × (server_receive busy 7
        (counting 0)
        (thread serving 0 [])
      ≡ ok left (thread serving u tr'))
    × (left ≡ is_empty ys)
    × Serves busy serving [] tr' (at 0 expected_lamport_p2) (at u ys)
server_receive-run_example =
    server_receive-run busy serving (λ tr fd. refl, λ tr fd. refl, λ tr fd m. refl) refl refl 7
      (counting 0) 0 [] refl
