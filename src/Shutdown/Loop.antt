-- ===== src/Shutdown/Loop.antt =====
-- The receive loop of a client of practica2/proxy.c, next to the moves of that client in System.antt.
use sistemas_distribuidos_y.Common.{
  ℕ, zero, suc, ℤ, Bool, true, false, List, [], ◌∷◌, ◌≡◌, refl, ◌∙◌, inl, inr, arith, ◌==◌,
  Bool-cases, if◌then◌else◌, is_neg, slice, World, ok,
}
use sistemas_distribuidos_y.Shutdown.Types.{
  Message, Process, Call, ProcessOs, recv, print, received,
}
use sistemas_distribuidos_y.Shutdown.Messages.{observe, action_to_str}
use sistemas_distribuidos_y.Shutdown.Client.{client_loop}
use sistemas_distribuidos_y.Shutdown.System.{Phase, waiting, Peer, client_hear, client_move}

abbrev pub is_recv : Call → Bool
is_recv (recv fd) = true
is_recv _ = false

-- How many messages were asked for.
abbrev pub recvs : List Call → ℕ
recvs [] = 0
recvs (c ∷ cs) = if is_recv c then suc (recvs cs) else recvs cs

-- The messages of a sequence arrive one after the other, and no receive fails.
abbrev pub Delivers : ProcessOs → ℤ → (ℕ → Message) → Type 0
Delivers os fd stream =
    (tr : List Call)
    → (is_neg (os tr (recv fd)).ret ≡ false) × ((os tr (recv fd)).msg ≡ stream (recvs tr))

-- Whether a client waits for a clock.
abbrev pub waits : Phase → Bool
waits (waiting (x ∷ xs)) = true
waits _ = false

-- At most `n` moves, as long as the client waits for a clock.
unfoldable pub hear : ℕ → Peer → Peer
hear zero p = p
hear (suc n) p = if waits p.phase then hear n (client_move p) else p

-- The client of the system that stands where a thread stands, with the next `n` messages in its inbox.
abbrev pub mirror : (ℕ → Message) → Peer → ℕ → List ℕ → World Process Call → Peer
mirror stream base n xs w = record base {
  lamport = w.st.lamport_;
  phase = waiting xs;
  inbox = slice stream (recvs w.trace) n;
}

abbrev pub Mirrors : ProcessOs → ℕ → List ℕ → World Process Call → Peer → Type 0
Mirrors os n xs w q =
    (left : Bool) × (tr : List Call) × (client_loop os n xs w
      ≡ ok left (record { st = record w.st { lamport_ = q.lamport }; trace = tr }))
    × (left ≡ (if waits q.phase then false else true))

-- The state of the thread after a message that was waited for, and after another one.
abbrev after_match : Message → World Process Call → World Process Call
after_match m w = record {
  st = record w.st { lamport_ = observe w.st.lamport_ m.clock_lamport };
  trace =
      print (
        received w.st.proc_name (observe w.st.lamport_ m.clock_lamport) m.origin
          (action_to_str m.action))
      ∷ recv w.st.socket_
      ∷ w.trace;
}

abbrev after_other : World Process Call → World Process Call
after_other w = record w { trace = recv w.st.socket_ ∷ w.trace }

-- A round of the loop.
client_loop_unroll :
    (os : ProcessOs) (stream : ℕ → Message) (n x : ℕ) (xs : List ℕ) (w : World Process Call)
    → Delivers os w.st.socket_ stream
    → client_loop os (suc n) (x ∷ xs) w ≡ (
        if (stream (recvs w.trace)).clock_lamport == x
        then client_loop os n xs (after_match (stream (recvs w.trace)) w)
        else client_loop os n (x ∷ xs) (after_other w))
unfolding client_loop
client_loop_unroll os stream n x xs w d = ground (arith, d w.trace)

-- When no receive fails, the loop of a client that waits for some clocks, with `n` messages to read,
-- ends with the clock that the client of the system has after at most `n` moves, and it is left
-- exactly if that one waits for no clock.
pub client_loop-hear :
    (os : ProcessOs) (stream : ℕ → Message) (base : Peer) (n : ℕ) (xs : List ℕ)
    (w : World Process Call)
    → Delivers os w.st.socket_ stream
    → Mirrors os n xs w (hear n (mirror stream base n xs w))
unfolding client_loop hear client_move client_hear
client_loop-hear os stream base zero [] w d = (true, w.trace, refl, refl)
client_loop-hear os stream base zero (x ∷ xs) w d = (false, w.trace, refl, refl)
client_loop-hear os stream base (suc n) [] w d = (true, w.trace, refl, refl)
client_loop-hear os stream base (suc n) (x ∷ xs) w d =
    elim (Bool-cases ((stream (recvs w.trace)).clock_lamport == x)) [
      | inr other ↦
          let (left, tr, e, q) = client_loop-hear os stream base n (x ∷ xs) (after_other w) d in
          (left, tr, client_loop_unroll os stream n x xs w d ∙ rw other e, rw other q)
      | inl this ↦
          let (left, tr, e, q) =
            client_loop-hear os stream base n xs (after_match (stream (recvs w.trace)) w) d in
          (left, tr, client_loop_unroll os stream n x xs w d ∙ rw this e, rw this q)
    ]
