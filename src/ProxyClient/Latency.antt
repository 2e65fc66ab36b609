-- ===== src/ProxyClient/Latency.antt =====
-- The latency that a subscriber of practica4/proxy_client.c prints.
use sistemas_distribuidos_y.Common.{
  ℕ, ◌+◌, ◌-◌, ◌*◌, ◌≤◌, ◌<◌, pos, ◌≡◌, arith, ltb, Bool-cases, inl, inr,
}
use sistemas_distribuidos_y.Broker.Types.{Timespec}
use sistemas_distribuidos_y.ProxyClient.{difference, latency, nanoseconds_per_second}

-- A time in nanoseconds.
abbrev pub nanoseconds : Timespec → ℕ
nanoseconds t = t.tv_sec * nanoseconds_per_second + t.tv_nsec

-- For two times with less than a second of nanoseconds each, of which the message was generated no
-- later than it was received, the two numbers are not negative, the second is less than a second, and
-- together they are the time between.
pub latency_lem :
    (received generated : Timespec)
    → received.tv_nsec < nanoseconds_per_second
    → generated.tv_nsec < nanoseconds_per_second
    → nanoseconds generated ≤ nanoseconds received
    → (s : ℕ) × (n : ℕ) × (latency received generated ≡ (pos s, pos n))
      × (n < nanoseconds_per_second)
      × (nanoseconds generated + (s * nanoseconds_per_second + n) ≡ nanoseconds received)
unfolding latency difference
latency_lem r g p q h = elim (Bool-cases (ltb r.tv_nsec g.tv_nsec)) [
  | inr later ↦
      (r.tv_sec - g.tv_sec, r.tv_nsec - g.tv_nsec, ground arith, ground arith, ground arith)
  | inl borrow ↦ (
    r.tv_sec - g.tv_sec - 1,
    r.tv_nsec + nanoseconds_per_second - g.tv_nsec,
    ground arith,
    ground arith,
    ground arith,
  )
]
