-- ===== src/Shutdown/Order.antt =====
-- The order in which the processes of practica2 are shut down, for every schedule.
use sistemas_distribuidos_y.Common.{ℕ, ◌≤◌, List, [], true, ◌≡◌, refl, ◌⊎◌, inl, inr, arith}
use sistemas_distribuidos_y.Shutdown.System.{
  closed, Peer, System, Move, p1_moves, p3_moves, server_reads_p1, server_reads_p3, run, initial,
  can,
}
use sistemas_distribuidos_y.Shutdown.Stages.{
  Stage, readying, stopping_p1, stopping_p3, finished, unread, read, ShapeP1, ShapeP3, Inv, inv,
  run-Inv, clock_at,
}

start-Inv : Inv initial
start-Inv = inv readying ShapeP1.at_start ShapeP3.at_start

pub reached : (ms : List Move) → Inv (run ms initial)
reached ms = run-Inv ms start-Inv

-- The clocks of a client that has closed its socket, and of the server by then.
abbrev pub ClosesAt : ℕ → ℕ → Peer → System → Type 0
ClosesAt client server p s = p.phase ≡ closed → (p.lamport ≡ client) × (server ≤ s.lamport)

closes-p1 :
    {k : Stage} {a : Peer} → ShapeP1 k a → a.phase ≡ closed → (a.lamport ≡ 5) × (3 ≤ clock_at k)
closes-p1 ShapeP1.at_start e = absurd (cc)
closes-p1 ShapeP1.ready e = absurd (cc)
closes-p1 ShapeP1.late e = absurd (cc)
closes-p1 (ShapeP1.called out u) e = absurd (cc)
closes-p1 (ShapeP1.leaving out u) e = absurd (cc)
closes-p1 (ShapeP1.left out u) e = (refl, omega arith)
closes-p1 ShapeP1.gone e = (refl, omega arith)
closes-p1 ShapeP1.over e = (refl, omega arith)

closes-p3 :
    {k : Stage} {a b : Peer}
    → ShapeP1 k a
    → ShapeP3 k b
    → b.phase ≡ closed
    → (b.lamport ≡ 9) × (7 ≤ clock_at k) × (a.phase ≡ closed)
closes-p3 x ShapeP3.at_start e = absurd (cc)
closes-p3 x ShapeP3.ready e = absurd (cc)
closes-p3 x ShapeP3.late e = absurd (cc)
closes-p3 x ShapeP3.late_twice e = absurd (cc)
closes-p3 x (ShapeP3.stays inb out u v) e = absurd (cc)
closes-p3 x (ShapeP3.called inb out u v) e = absurd (cc)
closes-p3 x (ShapeP3.leaving out u) e = absurd (cc)
closes-p3 ShapeP1.gone (ShapeP3.left out u) e = (refl, omega arith, refl)
closes-p3 ShapeP1.over ShapeP3.over e = (refl, omega arith, refl)

order_of :
    {s : System}
    → Inv s
    → ClosesAt 5 3 s.p1 s × ClosesAt 9 7 s.p3 s × (s.p3.phase ≡ closed → s.p1.phase ≡ closed)
order_of (inv k x y) = (
  closes-p1 x,
  λ e. let (q, r, _) = closes-p3 x y e in (q, r),
  λ e. let (_, _, t) = closes-p3 x y e in t,
)

-- Whatever the schedule: P1 closes its socket at the clock 5, when the clock of P2 is at 3 or past
-- it; P3 closes at 9, when that of P2 is at 7 or past it; and P3 only closes after P1 did.
pub shutdown-order :
    (ms : List Move)
    → let s = run ms initial in
      ClosesAt 5 3 s.p1 s × ClosesAt 9 7 s.p3 s × (s.p3.phase ≡ closed → s.p1.phase ≡ closed)
shutdown-order ms = order_of (reached ms)

-- What is so when the server has all messages that it waits for.
abbrev pub IsDone : System → Type 0
IsDone s =
    (s.lamport ≡ 10)
    × (s.p1.phase ≡ closed)
    × (s.p1.lamport ≡ 5)
    × (s.p3.phase ≡ closed)
    × (s.p3.lamport ≡ 9)

IsDone-of : {s : System} → Inv s → s.expected ≡ [] → IsDone s
IsDone-of (inv finished ShapeP1.over ShapeP3.over) e = (refl, refl, refl, refl, refl)
IsDone-of (inv readying x y) e = absurd (cc)
IsDone-of (inv stopping_p1 x y) e = absurd (cc)
IsDone-of (inv stopping_p3 x y) e = absurd (cc)

-- Either all is done, or a process can move.
unfoldable pub Alternative : System → Type 0
Alternative s = IsDone s ⊎ ((m : Move) × (can m s ≡ true))

pub moves_of : {s : System} → Inv s → Alternative s
unfolding Alternative
moves_of (inv k ShapeP1.at_start y) = inr (p1_moves, refl)
moves_of (inv k ShapeP1.ready y) = inr (server_reads_p1, refl)
moves_of (inv k ShapeP1.late y) = inr (p1_moves, refl)
moves_of (inv k (ShapeP1.called out u) y) = inr (p1_moves, refl)
moves_of (inv k (ShapeP1.leaving out u) y) = inr (p1_moves, refl)
moves_of (inv k (ShapeP1.left out (unread ms)) y) = inr (server_reads_p1, refl)
moves_of (inv k (ShapeP1.left out (read ms)) y) = inr (server_reads_p1, refl)
moves_of (inv k ShapeP1.gone ShapeP3.late_twice) = inr (p3_moves, refl)
moves_of (inv k ShapeP1.gone (ShapeP3.called inb out (unread ms) u)) = inr (p3_moves, refl)
moves_of (inv k ShapeP1.gone (ShapeP3.called inb out (read ms) u)) = inr (p3_moves, refl)
moves_of (inv k ShapeP1.gone (ShapeP3.leaving out u)) = inr (p3_moves, refl)
moves_of (inv k ShapeP1.gone (ShapeP3.left out (unread ms))) = inr (server_reads_p3, refl)
moves_of (inv k ShapeP1.gone (ShapeP3.left out (read ms))) = inr (server_reads_p3, refl)
moves_of (inv k ShapeP1.over ShapeP3.over) = inl (refl, refl, refl, refl, refl)

-- Whatever the schedule, when P2 has all the messages that it waits for, P1 has closed at the clock 5,
-- P3 at 9, and the clock of P2 is 10.
pub shutdown-IsDone : (ms : List Move) → (run ms initial).expected ≡ [] → IsDone (run ms initial)
shutdown-IsDone ms e = IsDone-of (reached ms) e
