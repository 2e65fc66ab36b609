-- ===== src/Shutdown/Termination.antt =====
-- How many moves the shutdown of practica2 has left, for every schedule.
use sistemas_distribuidos_y.Common.{
  ℕ, suc, ◌+◌, ◌*◌, ◌≤◌, List, [], ◌∷◌, ◌++◌, length, true, false, ◌≡◌, refl, ap, inl, inr, arith,
}
use sistemas_distribuidos_y.Shutdown.Types.{Message}
use sistemas_distribuidos_y.Shutdown.Messages.{tick, observe}
use sistemas_distribuidos_y.Shutdown.System.{
  Phase, start, waiting, closed, Peer, System, client_hear, client_move, now, server_hear,
  server_move_p1, server_move_p3, Move, p1_moves, p3_moves, server_reads_p1, server_reads_p3, move,
  run, initial, client_can, server_can, can,
}
use sistemas_distribuidos_y.Shutdown.Order.{reached, IsDone, Alternative, moves_of}

-- A bound on the moves that are left.
abbrev phase_work : Phase → ℕ
phase_work start = 4
phase_work (waiting xs) = 2
phase_work closed = 0

abbrev peer_work : Peer → ℕ
peer_work p = phase_work p.phase + length p.inbox + length p.outbox

unfoldable work : System → ℕ
work s = peer_work s.p1 + peer_work s.p3 + 2 * length s.expected

length-snoc : (xs : List Message) (x : Message) → length (xs ++ x ∷ []) ≡ suc (length xs)
length-snoc [] x = refl
length-snoc (y ∷ xs) x = omega (arith, length-snoc xs x)

client_move-work :
    (p : Peer) → client_can p.phase p.inbox ≡ true → suc (peer_work (client_move p)) ≤ peer_work p
unfolding client_move client_hear
client_move-work p h = go p.phase refl
  where
    go : (f : Phase) → p.phase ≡ f → suc (peer_work (client_move p)) ≤ peer_work p
    go start e = rw e (omega (arith, length-snoc p.outbox))
    go (waiting []) e = rw e (omega (arith, length-snoc p.outbox))
    go closed e = absurd (cc)
    go (waiting (x ∷ xs)) e = hears p.inbox refl
      where
        hears : (ms : List Message) → p.inbox ≡ ms → suc (peer_work (client_move p)) ≤ peer_work p
        hears [] q = absurd (ground arith)
        hears (m ∷ ms) q = rw (e, q) (ground arith)

-- A message that the server has read: at most one more in each inbox, and one clock fewer.
server_hear-work :
    (m : Message) (x : ℕ) (xs : List ℕ) (s : System)
    → s.expected ≡ x ∷ xs
    → work (server_hear m x xs s) ≤ work s
unfolding work server_hear
server_hear-work m x xs s e = ground (
  arith,
  length-snoc s.p1.inbox (now (tick (observe s.lamport m.clock_lamport))),
  length-snoc s.p3.inbox (now (tick (observe s.lamport m.clock_lamport))),
)

work-p1 :
    (s : System) (m : Message) (ms : List Message)
    → s.p1.outbox ≡ m ∷ ms
    → suc (work (record s { p1 = record s.p1 { outbox = ms } })) ≡ work s
unfolding work
work-p1 s m ms q = omega (arith, ap length q)

module _ (s : System) (m : Message) (ms : List Message) (x : ℕ) (xs : List ℕ) where
  server_move_p1_lem :
      s.expected ≡ x ∷ xs
      → s.p1.outbox ≡ m ∷ ms
      → server_move_p1 s ≡ server_hear m x xs (record s { p1 = record s.p1 { outbox = ms } })
  unfolding server_move_p1
  server_move_p1_lem e q = ground arith

  read_p1-work : s.expected ≡ x ∷ xs → s.p1.outbox ≡ m ∷ ms → suc (work (server_move_p1 s)) ≤ work s
  read_p1-work e q = rw (server_move_p1_lem e q) (
      omega
        (arith, server_hear-work m x xs (record s { p1 = record s.p1 { outbox = ms } }) e, fewer))
    where
      fewer : suc (work (record s { p1 = record s.p1 { outbox = ms } })) ≡ work s
      fewer = work-p1 s m ms q

server_move_p1-work :
    (s : System) → server_can s.expected s.p1.outbox ≡ true → suc (work (server_move_p1 s)) ≤ work s
server_move_p1-work s h = go s.expected s.p1.outbox refl refl
  where
    go :
        (es : List ℕ) (ms : List Message)
        → s.expected ≡ es
        → s.p1.outbox ≡ ms
        → suc (work (server_move_p1 s)) ≤ work s
    go [] ms e q = absurd (ground arith)
    go (x ∷ xs) [] e q = absurd (ground arith)
    go (x ∷ xs) (m ∷ ms) e q = read_p1-work s m ms x xs e q

work-p3 :
    (s : System) (m : Message) (ms : List Message)
    → s.p3.outbox ≡ m ∷ ms
    → suc (work (record s { p3 = record s.p3 { outbox = ms } })) ≡ work s
unfolding work
work-p3 s m ms q = omega (arith, ap length q)

module _ (s : System) (m : Message) (ms : List Message) (x : ℕ) (xs : List ℕ) where
  server_move_p3_lem :
      s.expected ≡ x ∷ xs
      → s.p3.outbox ≡ m ∷ ms
      → server_move_p3 s ≡ server_hear m x xs (record s { p3 = record s.p3 { outbox = ms } })
  unfolding server_move_p3
  server_move_p3_lem e q = ground arith

  read_p3-work : s.expected ≡ x ∷ xs → s.p3.outbox ≡ m ∷ ms → suc (work (server_move_p3 s)) ≤ work s
  read_p3-work e q = rw (server_move_p3_lem e q) (
      omega
        (arith, server_hear-work m x xs (record s { p3 = record s.p3 { outbox = ms } }) e, fewer))
    where
      fewer : suc (work (record s { p3 = record s.p3 { outbox = ms } })) ≡ work s
      fewer = work-p3 s m ms q

server_move_p3-work :
    (s : System) → server_can s.expected s.p3.outbox ≡ true → suc (work (server_move_p3 s)) ≤ work s
server_move_p3-work s h = go s.expected s.p3.outbox refl refl
  where
    go :
        (es : List ℕ) (ms : List Message)
        → s.expected ≡ es
        → s.p3.outbox ≡ ms
        → suc (work (server_move_p3 s)) ≤ work s
    go [] ms e q = absurd (ground arith)
    go (x ∷ xs) [] e q = absurd (ground arith)
    go (x ∷ xs) (m ∷ ms) e q = read_p3-work s m ms x xs e q

-- Every move that a process can make leaves fewer.
move-work : (m : Move) (s : System) → can m s ≡ true → suc (work (move m s)) ≤ work s
unfolding move work
move-work p1_moves s h = omega (arith, client_move-work s.p1 h)
move-work p3_moves s h = omega (arith, client_move-work s.p3 h)
move-work server_reads_p1 s h = server_move_p1-work s h
move-work server_reads_p3 s h = server_move_p3-work s h

-- A schedule that never gives a turn to a process that has to wait.
unfoldable pub IsLive : List Move → System → Type 0
IsLive [] s = Unit {0}
IsLive (m ∷ ms) s = (can m s ≡ true) × IsLive ms (move m s)

IsLive-work : (ms : List Move) (s : System) → IsLive ms s → length ms + work (run ms s) ≤ work s
unfolding IsLive run
IsLive-work [] s l = omega arith
IsLive-work (m ∷ ms) s (h, l) = omega (arith, move-work m s h, IsLive-work ms (move m s) l)

-- The shutdown ends: a schedule that only gives turns to processes that can use them has at most 14
-- turns, and once no process can use one, both clients have closed, P1 at the clock 5 and P3 at 9, and
-- the clock of P2 is 10.
pub shutdown-finishes :
    (ms : List Move)
    → IsLive ms initial
    → (length ms ≤ 14) × (((m : Move) → can m (run ms initial) ≡ false) → IsDone (run ms initial))
unfolding work Alternative
shutdown-finishes ms l = (
  omega (arith, IsLive-work ms initial l),
  λ stuck. elim (moves_of (reached ms)) [
    | inl done ↦ done
    | inr (m, h) ↦ absurd (stops m h (stuck m))
  ],
)
  where
    stops : (m : Move) → can m (run ms initial) ≡ true → ¬ (can m (run ms initial) ≡ false)
    stops m h g = absurd (cc)
