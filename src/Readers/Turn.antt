-- ===== src/Readers/Turn.antt =====
-- Whose turn it is when a client of practica3/proxy.c leaves.
use sistemas_distribuidos_y.Common.{ℕ, ◌+◌, ◌<◌, ◌≡◌, refl, arith, ltb, ◌&&◌, if◌then◌else◌}
use sistemas_distribuidos_y.Readers.{
  Action, read, write, Shared, is_due, depart, signal_next, leave,
}

abbrev pub other : Action → Action
other read = write
other write = read

-- How many clients of a kind are there.
abbrev pub present : Action → Shared → ℕ
present read s = s.current_readers
present write s = s.current_writers

-- The rule: a full ratio gives the turn to the other kind; else the kind with priority has it, else
-- the kind of the client that leaves, each if there are clients of it; else the other kind.
abbrev pub turn : Action → Shared → Action
turn action s =
    if is_due s && ltb 0 (present (other action) s)
    then other action
    else if ltb 0 (present s.priority s)
    then s.priority
    else if ltb 0 (present action s)
    then action
    else other action

-- What `signal_next` answers in the state after the client has left.
abbrev Served : Action → Shared → Type 0
Served action s =
    ((signal_next action s).0 ≡ turn action s)
    × ((signal_next action s).1 ≡ (
        if is_due s && ltb 0 (present (other action) s) then record s { ratio_counter = 0 } else s))
    × (0 < s.current_readers + s.current_writers → 0 < present (signal_next action s).0 s)

signal_next-turn : (action p : Action) (s : Shared) → s.priority ≡ p → Served action s
unfolding signal_next
signal_next-turn read read s e = ground arith
signal_next-turn read write s e = ground arith
signal_next-turn write read s e = ground arith
signal_next-turn write write s e = ground arith

-- A client that leaves wakes up the kind of clients that the rule says, and starts the ratio anew
-- exactly if the ratio was full and clients of the other kind are there. If any clients are left, it
-- wakes up a kind that has some.
pub leave-turn :
    (action : Action) (s : Shared)
    → let after = depart action s in
      ((leave action s).0 ≡ turn action after)
      × ((leave action s).1 ≡ (
          if is_due after && ltb 0 (present (other action) after)
          then record after { ratio_counter = 0 }
          else after))
      × (0 < after.current_readers + after.current_writers → 0 < present (leave action s).0 after)
unfolding leave
leave-turn action s = signal_next-turn action (depart action s).priority (depart action s) refl
