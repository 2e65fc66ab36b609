-- ===== src/Shutdown/Serving/Answering.antt =====
-- The loop of `server_receive` in practica2/proxy.c, next to the moves of the server in System.antt.
use mathlib.Core.List.{append_assoc, append-nil}
use sistemas_distribuidos_y.Common.{
  ℕ, ℤ, eq_ℤ, Bool, true, false, List, [], ◌∷◌, ◌++◌, ◌≡◌, refl, sym, ap, ◌∙◌, inl, inr, none, some,
  ◌==◌, Bool-cases, ok, ◌>>◌, >>=-ok,
}
use sistemas_distribuidos_y.Shutdown.Types.{
  Message, shutdown_now, Process, Call, ProcessOs, send, print, received, sent,
}
use sistemas_distribuidos_y.Shutdown.Messages.{
  tick, observe, action_to_str, deliver, send_or_close, notify_shutdown_now,
}
use sistemas_distribuidos_y.Shutdown.Server.{
  answers, send_msg_to_client, receive_until, server_loop,
}
use sistemas_distribuidos_y.Shutdown.System.{System, server_hear, is_empty}
use sistemas_distribuidos_y.Shutdown.Serving.{
  got, told, NeverFails, at, tell, Serves, tell-nil, tell-++, nothing, both, thread, Hears,
}
use sistemas_distribuidos_y.Common.{eq_ℤ_refl, eq_ℤ_sym}
use sistemas_distribuidos_y.Shutdown.Serving.Reading.{Waits, until}
use sistemas_distribuidos_y.Shutdown.Server.{server_receive}
use sistemas_distribuidos_y.Shutdown.Types.{expected_lamport_p2}

module _ (os : ProcessOs) (p : Process) (reliable : NeverFails os)
    (apart : eq_ℤ p.client_socket_1_ p.client_socket_2_ ≡ false) where
  abbrev notice : ℕ → Message
  notice t = record { origin = p.proc_name; action = shutdown_now; clock_lamport = t }

  sends :
      (fd : ℤ) (m : Message) (t : ℕ) (tr : List Call)
      → send_or_close os fd m (thread p t tr) ≡ ok tt (thread p t (send fd m ∷ tr))
  unfolding send_or_close
  sends fd m t tr = rw (reliable.2 tr fd m) refl

  notify :
      (v : ℕ) (tr : List Call)
      → notify_shutdown_now os (thread p v tr)
        ≡ ok tt (
            thread p (tick v) (
              print (sent p.proc_name (tick v) shutdown_now)
              ∷ send p.client_socket_2_ (notice (tick v))
              ∷ send p.client_socket_1_ (notice (tick v))
              ∷ tr))
  unfolding notify_shutdown_now
  notify v tr =
      >>=-ok (send_or_close os p.client_socket_1_ (notice (tick v))) _ (thread p (tick v) tr) _ tt
        (sends p.client_socket_1_ (notice (tick v)) (tick v) tr)
      ∙ >>=-ok (send_or_close os p.client_socket_2_ (notice (tick v))) _ _ _ tt (
          sends p.client_socket_2_ (notice (tick v)) (tick v)
            (send p.client_socket_1_ (notice (tick v)) ∷ tr))

  -- A message is read, and then the server goes on as it does with that message.
  heard_then :
      {tr tr' tr'' : List Call} {t x u : ℕ} {xs : List ℕ} (m : Message) {news : List Message}
      → Hears os p tr tr' t x xs m
      → (got os p.client_socket_1_ tr'' ≡ got os p.client_socket_1_ tr')
      → (got os p.client_socket_2_ tr'' ≡ got os p.client_socket_2_ tr')
      → (told p.client_socket_1_ tr'' ≡ told p.client_socket_1_ tr' ++ news)
      → (told p.client_socket_2_ tr'' ≡ told p.client_socket_2_ tr' ++ news)
      → ((s : System) → server_hear m x xs (at t (x ∷ xs) s) ≡ at u xs (tell news s))
      → Serves os p tr tr'' (at t (x ∷ xs)) (at u xs)
  heard_then {u} {xs} m {news} h g1 g3 t1 t3 f = record {
    moves = h.moves;
    from_p1 = h.from_p1;
    from_p3 = h.from_p3;
    news = h.news ++ news;
    got_p1 = g1 ∙ h.got_p1;
    got_p3 = g3 ∙ h.got_p3;
    told_p1 = t1 ∙ ap (λ r. r ++ news) h.told_p1 ∙ append_assoc _ h.news news;
    told_p3 = t3 ∙ ap (λ r. r ++ news) h.told_p3 ∙ append_assoc _ h.news news;
    runs = λ s. h.runs s ∙ f (tell h.news s) ∙ ap (at u xs) (tell-++ h.news news s);
  }

  module _ (named : p.proc_name ≡ "P2") where
    -- What the thread does with a message that was waited for, and the server of the system.
    Answers : Message → ℕ → ℕ → List ℕ → List Call → Type 0
    Answers m x t xs tr =
        (u : ℕ) × (tr' : List Call) × (news : List Message) × ((deliver os m
              >> send_msg_to_client os m.clock_lamport)
            (thread p t tr)
          ≡ ok tt (thread p u tr'))
        × (got os p.client_socket_1_ tr' ≡ got os p.client_socket_1_ tr)
        × (got os p.client_socket_2_ tr' ≡ got os p.client_socket_2_ tr)
        × (told p.client_socket_1_ tr' ≡ told p.client_socket_1_ tr ++ news)
        × (told p.client_socket_2_ tr' ≡ told p.client_socket_2_ tr ++ news)
        × ((s : System) → server_hear m x xs (at t (x ∷ xs) s) ≡ at u xs (tell news s))

    answer :
        (m : Message) (x t : ℕ) (xs : List ℕ) (tr : List Call)
        → (m.clock_lamport == x) ≡ true
        → Answers m x t xs tr
    unfolding Answers send_msg_to_client notify_shutdown_now send_or_close server_hear
    answer m x t xs tr e = elim (Bool-cases (answers m.clock_lamport)) [
      | inr no_ ↦ (
        observe t m.clock_lamport,
        heard,
        [],
        rw no_ refl,
        refl,
        refl,
        sym (append-nil _),
        sym (append-nil _),
        λ s. rw (e, no_) (ap (at (observe t m.clock_lamport) xs) (sym (tell-nil s))),
      )
      | inl yes_ ↦ (
        tick (observe t m.clock_lamport),
        print (sent p.proc_name (tick (observe t m.clock_lamport)) shutdown_now)
            ∷ send p.client_socket_2_ news
            ∷ send p.client_socket_1_ news
            ∷ heard,
        news ∷ [],
        rw yes_ (notify (observe t m.clock_lamport) heard),
        refl,
        refl,
        rw (eq_ℤ_sym _ _ apart, eq_ℤ_refl p.client_socket_1_) refl,
        rw (eq_ℤ_refl p.client_socket_2_, apart) refl,
        λ s. rw (e, yes_, named) refl,
      )
    ]
      where
        heard : List Call
        heard =
            print
              (received p.proc_name (observe t m.clock_lamport) m.origin (action_to_str m.action))
            ∷ tr

        news : Message
        news = record {
          origin = p.proc_name;
          action = shutdown_now;
          clock_lamport = tick (observe t m.clock_lamport);
        }

    -- A list of clocks none of which is 0, and a variable that does not hold the first of them.
    abbrev pub AreClocks : List ℕ → Type 0
    AreClocks [] = Unit {0}
    AreClocks (x ∷ xs) = ((0 == x) ≡ false) × AreClocks xs

    abbrev pub IsStale : Message → List ℕ → Type 0
    IsStale old [] = Unit {0}
    IsStale old (x ∷ xs) = (old.clock_lamport == x) ≡ false

    cleared :
        (m : Message) (xs : List ℕ) → AreClocks xs → IsStale (record m { clock_lamport = 0 }) xs
    cleared m [] c = tt
    cleared m (x ∷ xs) c = c.0

    -- What the loop does.
    abbrev pub Loops : ℕ → List ℕ → Message → ℕ → List Call → Type 0
    Loops n xs old t tr =
        (left : Bool) × (u : ℕ) × (ys : List ℕ) × (tr' : List Call) × (server_loop os n xs old
            (thread p t tr)
          ≡ ok left (thread p u tr'))
        × (left ≡ is_empty ys)
        × Serves os p tr tr' (at t xs) (at u ys)

    loop :
        (n : ℕ) (xs : List ℕ) (old : Message) (t : ℕ) (tr : List Call)
        → AreClocks xs
        → IsStale old xs
        → Loops n xs old t tr
    unfolding server_loop Waits Answers
    loop n [] old t tr c st = (true, t, [], tr, refl, refl, nothing os p tr (at t []))
    loop n (x ∷ xs) old t tr c st = elim (until os p reliable apart n old x t xs tr st) [
      | inl (tr1, e1, s1) ↦ (
        false,
        t,
        x ∷ xs,
        tr1,
        >>=-ok (receive_until os n x old) _ (thread p t tr) (thread p t tr1) none e1,
        refl,
        s1,
      )
      | inr (m, tr1, e1, yes_, h) ↦
          let (u, tr2, news, e2, g1, g3, t1, t3, same_) = answer m x t xs tr1 yes_ in
          let (left, v, ys, tr3, e3, l, s3) =
            loop n xs (record m { clock_lamport = 0 }) u tr2 c.1 (cleared m xs c.1) in
          (
            left,
            v,
            ys,
            tr3,
            >>=-ok (receive_until os n x old) _ (thread p t tr) (thread p t tr1) (some m) e1
                ∙ >>=-ok (send_msg_to_client os m.clock_lamport) _ _ (thread p u tr2) tt e2
                ∙ e3,
            l,
            both os p (heard_then m h g1 g3 t1 t3 same_) s3,
          )
    ]

    -- If no `select`, `recv` or `send` fails, the two sockets differ, the process is called P2, and the
    -- variable for the messages does not hold the clock 1 from the start, then `server_receive`, with at
    -- most `n` rounds for each clock, comes to an end, and what it has done is done by moves of the
    -- server in the system, which has the messages that the thread received on its two sockets on their
    -- way to it: the clock is the same after them, no clock is waited for exactly if the loop was left,
    -- and each client has the messages that the thread sent to it on their way.
    pub server_receive-run :
        (n : ℕ) (garbage : Message) (t : ℕ) (tr : List Call)
        → (garbage.clock_lamport == 1) ≡ false
        → (left : Bool) × (u : ℕ) × (ys : List ℕ) × (tr' : List Call) × (server_receive os n garbage
              (thread p t tr)
            ≡ ok left (thread p u tr'))
          × (left ≡ is_empty ys)
          × Serves os p tr tr' (at t expected_lamport_p2) (at u ys)
    unfolding server_receive
    server_receive-run n garbage t tr h =
        loop n expected_lamport_p2 garbage t tr (refl, (refl, (refl, tt))) h
