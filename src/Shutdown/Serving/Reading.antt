-- ===== src/Shutdown/Serving/Reading.antt =====
-- The receives of P2 in practica2/proxy.c, next to the moves of the server in System.antt.
use mathlib.Core.List.{append-nil}
use sistemas_distribuidos_y.Common.{
  ℕ, zero, suc, ℤ, pos, eq_ℤ, Bool, true, false, ◌&&◌, List, [], ◌∷◌, ◌≡◌, refl, sym, ap, ◌∙◌, ◌⊎◌,
  inl, inr, arith, none, some, ◌==◌, Bool-cases, ok, >>=-ok,
}
use sistemas_distribuidos_y.Shutdown.Types.{
  Message, Process, Call, ProcessOs, recv, select, fd_isset,
}
use sistemas_distribuidos_y.Shutdown.Messages.{do_receive_in_socket}
use sistemas_distribuidos_y.Shutdown.Server.{receive_once, receive_until}
use sistemas_distribuidos_y.Shutdown.System.{
  server_hear, server_move_p1, server_move_p3, server_reads_p1, server_reads_p3, move, run,
}
use sistemas_distribuidos_y.Shutdown.Serving.{
  NeverFails, at, tell, Serves, tell-nil, nothing, both, thread, ignore, asked, next, Hears,
}
use sistemas_distribuidos_y.Common.{eq_ℤ_refl, eq_ℤ_sym}

module _ (os : ProcessOs) (p : Process) (reliable : NeverFails os)
    (apart : eq_ℤ p.client_socket_1_ p.client_socket_2_ ≡ false) where
  read_p1 :
      (tr : List Call) (t x : ℕ) (xs : List ℕ)
      → Hears os p tr
          (recv p.client_socket_1_ ∷ asked os p p.client_socket_1_ tr)
          t
          x
          xs
          (next os p p.client_socket_1_ tr)
  unfolding run move server_move_p1
  read_p1 tr t x xs = record {
    moves = server_reads_p1 ∷ [];
    from_p1 = next os p p.client_socket_1_ tr ∷ [];
    from_p3 = [];
    news = [];
    got_p1 = rw (eq_ℤ_refl p.client_socket_1_) refl;
    got_p3 = rw apart (sym (append-nil _));
    told_p1 = sym (append-nil _);
    told_p3 = sym (append-nil _);
    runs = λ s.
        ap (λ r. server_hear (next os p p.client_socket_1_ tr) x xs (at t (x ∷ xs) r))
          (sym (tell-nil s));
  }

  read_p3 :
      (tr : List Call) (t x : ℕ) (xs : List ℕ)
      → Hears os p tr
          (recv p.client_socket_2_ ∷ asked os p p.client_socket_2_ tr)
          t
          x
          xs
          (next os p p.client_socket_2_ tr)
  unfolding run move server_move_p3
  read_p3 tr t x xs = record {
    moves = server_reads_p3 ∷ [];
    from_p1 = [];
    from_p3 = next os p p.client_socket_2_ tr ∷ [];
    news = [];
    got_p1 = rw (eq_ℤ_sym _ _ apart) (sym (append-nil _));
    got_p3 = rw (eq_ℤ_refl p.client_socket_2_) refl;
    told_p1 = sym (append-nil _);
    told_p3 = sym (append-nil _);
    runs = λ s.
        ap (λ r. server_hear (next os p p.client_socket_2_ tr) x xs (at t (x ∷ xs) r))
          (sym (tell-nil s));
  }

  -- No data: the server is at the message that it had.
  no_data :
      (fd : ℤ) (tr : List Call) (t x : ℕ) (xs : List ℕ) (old : Message)
      → (old.clock_lamport == x) ≡ false
      → Hears os p tr (asked os p fd tr) t x xs old
  unfolding run
  no_data fd tr t x xs old e = record {
    moves = [];
    from_p1 = [];
    from_p3 = [];
    news = [];
    got_p1 = sym (append-nil _);
    got_p3 = sym (append-nil _);
    told_p1 = sym (append-nil _);
    told_p3 = sym (append-nil _);
    runs =
        λ s. sym (ignore old x xs (at t (x ∷ xs) (tell [] s)) e ∙ ap (at t (x ∷ xs)) (tell-nil s));
  }

  -- What a receive of the thread does.
  abbrev Receives : ℤ → Message → ℕ → ℕ → List ℕ → List Call → Type 0
  Receives fd old x t xs tr =
      (b : Bool) × (m : Message) × (tr' : List Call) × (do_receive_in_socket os fd old
          (thread p t tr)
        ≡ ok (b, m) (thread p t tr'))
      × (b ≡ false → (m.clock_lamport == x) ≡ false)
      × Hears os p tr tr' t x xs m

  receive :
      (fd : ℤ) (old : Message) (x t : ℕ) (xs : List ℕ) (tr : List Call)
      → (old.clock_lamport == x) ≡ false
      → Hears os p tr (recv fd ∷ asked os p fd tr) t x xs (next os p fd tr)
      → Receives fd old x t xs tr
  unfolding do_receive_in_socket
  receive fd old x t xs tr e read =
      elim (Bool-cases (eq_ℤ (os (select fd ∷ tr) (fd_isset fd)).ret (pos 0))) [
        | inl none_ ↦ (
          false,
          old,
          asked os p fd tr,
          rw (reliable.0 tr fd, none_) refl,
          λ q. e,
          no_data fd tr t x xs old e,
        )
        | inr some_ ↦ (
          true,
          next os p fd tr,
          recv fd ∷ asked os p fd tr,
          rw (reliable.0 tr fd, some_, reliable.1 (asked os p fd tr) fd) refl,
          λ q. absurd cc,
          read,
        )
      ]

  -- A message that is not waited for is thrown away.
  missed :
      {tr tr' : List Call} {t x : ℕ} {xs : List ℕ} (m : Message)
      → Hears os p tr tr' t x xs m
      → (m.clock_lamport == x) ≡ false
      → Serves os p tr tr' (at t (x ∷ xs)) (at t (x ∷ xs))
  missed {t} {x} {xs} m h e = record {
    moves = h.moves;
    from_p1 = h.from_p1;
    from_p3 = h.from_p3;
    news = h.news;
    got_p1 = h.got_p1;
    got_p3 = h.got_p3;
    told_p1 = h.told_p1;
    told_p3 = h.told_p3;
    runs = λ s. h.runs s ∙ ignore m x xs (at t (x ∷ xs) (tell h.news s)) e;
  }

  unmatched :
      (b : Bool) (m : Message) (x : ℕ)
      → (b ≡ false → (m.clock_lamport == x) ≡ false)
      → (b && x == m.clock_lamport) ≡ false
      → (m.clock_lamport == x) ≡ false
  unmatched true m x h e = ground (arith, e)
  unmatched false m x h e = h refl

  once :
      (old : Message) (x t : ℕ) (xs : List ℕ) (tr : List Call)
      → (old.clock_lamport == x) ≡ false
      → (m : Message) × (tr' : List Call) × (receive_once os x old (thread p t tr)
          ≡ ok m (thread p t tr'))
        × Hears os p tr tr' t x xs m
  unfolding receive_once
  once old x t xs tr e =
      let (b, m, tr1, e1, no_match, h1) =
        receive p.client_socket_1_ old x t xs tr e (read_p1 tr t x xs) in
      elim (Bool-cases (b && x == m.clock_lamport)) [
        | inl yes_ ↦ (
          m,
          tr1,
          >>=-ok (do_receive_in_socket os p.client_socket_1_ old) _ (thread p t tr) (thread p t tr1)
                (b, m) e1
              ∙ rw yes_ refl,
          h1,
        )
        | inr no_ ↦
            let other = unmatched b m x no_match no_ in
            let (c, m', tr2, e2, no_match', h2) =
              receive p.client_socket_2_ m x t xs tr1 other (read_p3 tr1 t x xs) in
            (
              m',
              tr2,
              >>=-ok (do_receive_in_socket os p.client_socket_1_ old) _ (thread p t tr)
                    (thread p t tr1) (b, m) e1
                  ∙ rw no_ (
                      >>=-ok (do_receive_in_socket os p.client_socket_2_ m) _ (thread p t tr1)
                        (thread p t tr2) (c, m') e2),
              both os p (missed m h1 other) h2,
            )
      ]

  -- A loop that waits for a clock gets a message with it, or ends without one.
  unfoldable pub Waits : ℕ → Message → ℕ → ℕ → List ℕ → List Call → Type 0
  Waits n old x t xs tr =
      ((tr' : List Call) × (receive_until os n x old (thread p t tr) ≡ ok none (thread p t tr'))
        × Serves os p tr tr' (at t (x ∷ xs)) (at t (x ∷ xs)))
      ⊎ ((m : Message) × (tr' : List Call) × (receive_until os n x old (thread p t tr)
            ≡ ok (some m) (thread p t tr'))
          × ((m.clock_lamport == x) ≡ true)
          × Hears os p tr tr' t x xs m)

  pub until :
      (n : ℕ) (old : Message) (x t : ℕ) (xs : List ℕ) (tr : List Call)
      → (old.clock_lamport == x) ≡ false
      → Waits n old x t xs tr
  unfolding Waits receive_until
  until zero old x t xs tr e = inl (tr, refl, nothing os p tr (at t (x ∷ xs)))
  until (suc n) old x t xs tr e =
      let (m, tr1, e1, h1) = once old x t xs tr e in
      elim (Bool-cases (m.clock_lamport == x)) [
        | inl yes_ ↦ inr (
          m,
          tr1,
          >>=-ok (receive_once os x old) _ (thread p t tr) (thread p t tr1) m e1 ∙ rw yes_ refl,
          yes_,
          h1,
        )
        | inr no_ ↦ elim (until n m x t xs tr1 no_) [
          | inl (tr2, e2, s2) ↦ inl (
            tr2,
            >>=-ok (receive_once os x old) _ (thread p t tr) (thread p t tr1) m e1 ∙ rw no_ e2,
            both os p (missed m h1 no_) s2,
          )
          | inr (m', tr2, e2, yes_, h2) ↦ inr (
            m',
            tr2,
            >>=-ok (receive_once os x old) _ (thread p t tr) (thread p t tr1) m e1 ∙ rw no_ e2,
            yes_,
            both os p (missed m h1 no_) h2,
          )
        ]
      ]
