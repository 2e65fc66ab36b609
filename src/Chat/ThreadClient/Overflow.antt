-- ===== src/Chat/ThreadClient/Overflow.antt =====
-- The block of memory of practica1/ServidorMultiHilo/client.c.
use sistemas_distribuidos_y.Common.{
  ℕ, suc, pos, eq_ℤ, eq_ℤ_iff, false, leb, List, ◌∷◌, ◌≡◌, refl, length, arith, World, exited,
  fault, ◌⊎◌, inl, inr, Bool-cases,
}
use sistemas_distribuidos_y.Chat.Talk.{Talk, Call, malloc, close, TalkOs, close_and_exit}
use sistemas_distribuidos_y.Chat.ThreadClient.{sprintf, talk}

small : (n : ℕ) → leb (suc n) n ≡ false
small n = ground arith

-- Whatever the greeting is, the body of the loop closes the socket and exits with 1 if `malloc` fails,
-- and writes one byte behind the block if it does not: it never gets as far as sending the greeting.
pub talk-overflow :
    (os : TalkOs) (line : List ℕ) (w : World Talk Call)
    → (((os w.trace (malloc (length line))).ret ≡ pos 0)
        × (talk os line w
            ≡ exited 1
                (record w { trace = close w.st.main_socket ∷ malloc (length line) ∷ w.trace })))
      ⊎ (talk os line w ≡ fault)
unfolding talk sprintf close_and_exit
talk-overflow os line w = elim (Bool-cases (eq_ℤ (os w.trace (malloc (length line))).ret (pos 0))) [
  | inl e ↦ inl ((eq_ℤ_iff _ _).0 e, rw e refl)
  | inr e ↦ inr (rw (e, small (length line)) refl)
]
