-- ===== src/Shutdown/Serving.antt =====
-- What a thread of P2 in practica2/proxy.c has done, told by moves of the server in System.antt.
pub mod Reading
pub mod Answering
use mathlib.Core.List.{append_assoc, append-nil}
use sistemas_distribuidos_y.Common.{
  ℕ, zero, suc, ℤ, pos, negsuc, is_neg, eq_ℤ, eq_ℤ_iff, Bool, true, false, ◌&&◌, List, [], ◌∷◌,
  ◌++◌, ◌≡◌, refl, sym, ap, ap₂, ◌∙◌, ◌⊎◌, inl, inr, arith, Option, none, some, ◌==◌, Bool-cases,
  if◌then◌else◌, World, ok, ◌>>=◌, ◌>>◌, >>=-ok,
}
use sistemas_distribuidos_y.Shutdown.Types.{
  Message, shutdown_now, Process, Call, ProcessOs, recv, send, select, fd_isset, print, received,
  sent,
}
use sistemas_distribuidos_y.Shutdown.Messages.{
  tick, observe, action_to_str, deliver, send_or_close, notify_shutdown_now, do_receive_in_socket,
}
use sistemas_distribuidos_y.Shutdown.Server.{
  answers, send_msg_to_client, receive_once, receive_until, server_loop,
}
use sistemas_distribuidos_y.Shutdown.System.{
  Peer, System, now, notify_both, server_hear, server_move_p1, server_move_p3, Move,
  server_reads_p1, server_reads_p3, is_empty, move, run,
}

-- The messages that were received on a socket, and those that were sent on it, in their order.
abbrev pub got : ProcessOs → ℤ → List Call → List Message
got os fd [] = []
got os fd (recv k ∷ tr) =
    if eq_ℤ k fd then got os fd tr ++ (os tr (recv k)).msg ∷ [] else got os fd tr
got os fd (_ ∷ tr) = got os fd tr

abbrev pub told : ℤ → List Call → List Message
told fd [] = []
told fd (send k m ∷ tr) = if eq_ℤ k fd then told fd tr ++ m ∷ [] else told fd tr
told fd (_ ∷ tr) = told fd tr

-- No `select`, `recv` or `send` fails.
abbrev pub NeverFails : ProcessOs → Type 0
NeverFails os =
    ((tr : List Call) (fd : ℤ) → eq_ℤ (os tr (select fd)).ret (negsuc 0) ≡ false)
    × ((tr : List Call) (fd : ℤ) → is_neg (os tr (recv fd)).ret ≡ false)
    × ((tr : List Call) (fd : ℤ) (m : Message) → is_neg (os tr (send fd m)).ret ≡ false)

-- The system with the clock of the server and the clocks that it waits for; with messages in front of
-- the others on their way to it; and with messages behind the others on their way to both clients.
abbrev pub at : ℕ → List ℕ → System → System
at t xs s = record s { lamport = t; expected = xs }

abbrev pub feed : List Message → List Message → System → System
feed ms ns s = record s {
  p1 = record s.p1 { outbox = ms ++ s.p1.outbox };
  p3 = record s.p3 { outbox = ns ++ s.p3.outbox };
}

abbrev pub tell : List Message → System → System
tell ms s = record s {
  p1 = record s.p1 { inbox = s.p1.inbox ++ ms };
  p3 = record s.p3 { inbox = s.p3.inbox ++ ms };
}

run-++ : (ms ns : List Move) (s : System) → run (ms ++ ns) s ≡ run ns (run ms s)
unfolding run
run-++ [] ns s = refl
run-++ (m ∷ ms) ns s = run-++ ms ns (move m s)

-- What the thread did between two traces, done by moves of the server in the system, which has the
-- messages that the thread received on their way to it, whatever else it is.
pub record Serves (os : ProcessOs) (p : Process) (tr tr' : List Call)
    (before after : System → System) : Type 0 where
  pub moves : List Move
  pub from_p1 : List Message
  pub from_p3 : List Message
  pub news : List Message
  pub got_p1 : got os p.client_socket_1_ tr' ≡ got os p.client_socket_1_ tr ++ from_p1
  pub got_p3 : got os p.client_socket_2_ tr' ≡ got os p.client_socket_2_ tr ++ from_p3
  pub told_p1 : told p.client_socket_1_ tr' ≡ told p.client_socket_1_ tr ++ news
  pub told_p3 : told p.client_socket_2_ tr' ≡ told p.client_socket_2_ tr ++ news
  pub runs : (s : System) → run moves (feed from_p1 from_p3 (before s)) ≡ after (tell news s)

pub tell-nil : (s : System) → tell [] s ≡ s
tell-nil s = rw (append-nil s.p1.inbox, append-nil s.p3.inbox) refl

pub tell-++ : (ms ns : List Message) (s : System) → tell ns (tell ms s) ≡ tell (ms ++ ns) s
tell-++ ms ns s = rw (append_assoc s.p1.inbox ms ns, append_assoc s.p3.inbox ms ns) refl

feed-++ :
    (ms ns ms' ns' : List Message) (s : System)
    → feed (ms ++ ms') (ns ++ ns') s ≡ feed ms ns (feed ms' ns' s)
feed-++ ms ns ms' ns' s = rw (append_assoc ms ms' s.p1.outbox, append_assoc ns ns' s.p3.outbox) refl

module _ (os : ProcessOs) (p : Process) where
  pub nothing : (tr : List Call) (f : System → System) → Serves os p tr tr f f
  unfolding run
  nothing tr f = record {
    moves = [];
    from_p1 = [];
    from_p3 = [];
    news = [];
    got_p1 = sym (append-nil _);
    got_p3 = sym (append-nil _);
    told_p1 = sym (append-nil _);
    told_p3 = sym (append-nil _);
    runs = λ s. ap f (sym (tell-nil s));
  }

  pub both :
      {tr tr' tr'' : List Call} {t u : ℕ} {xs ys : List ℕ} {f : System → System}
      → Serves os p tr tr' (at t xs) (at u ys)
      → Serves os p tr' tr'' (at u ys) f
      → Serves os p tr tr'' (at t xs) f
  both {t} {u} {xs} {ys} {f} a b = record {
    moves = a.moves ++ b.moves;
    from_p1 = a.from_p1 ++ b.from_p1;
    from_p3 = a.from_p3 ++ b.from_p3;
    news = a.news ++ b.news;
    got_p1 = b.got_p1 ∙ ap (λ r. r ++ b.from_p1) a.got_p1 ∙ append_assoc _ a.from_p1 b.from_p1;
    got_p3 = b.got_p3 ∙ ap (λ r. r ++ b.from_p3) a.got_p3 ∙ append_assoc _ a.from_p3 b.from_p3;
    told_p1 = b.told_p1 ∙ ap (λ r. r ++ b.news) a.told_p1 ∙ append_assoc _ a.news b.news;
    told_p3 = b.told_p3 ∙ ap (λ r. r ++ b.news) a.told_p3 ∙ append_assoc _ a.news b.news;
    runs = λ s.
        run-++ a.moves b.moves _
        ∙ ap (λ r. run b.moves (run a.moves r))
            (feed-++ a.from_p1 a.from_p3 b.from_p1 b.from_p3 (at t xs s))
        ∙ ap (run b.moves) (a.runs (feed b.from_p1 b.from_p3 s))
        ∙ b.runs (tell a.news s)
        ∙ ap f (tell-++ a.news b.news s);
  }

-- The state of the thread: only its clock changes.
abbrev pub thread : Process → ℕ → List Call → World Process Call
thread p t tr = record { st = record p { lamport_ = t }; trace = tr }

-- A message with another clock changes nothing.
pub ignore :
    (m : Message) (x : ℕ) (xs : List ℕ) (s : System)
    → (m.clock_lamport == x) ≡ false
    → server_hear m x xs s ≡ s
unfolding server_hear
ignore m x xs s e = rw e refl

module _ (os : ProcessOs) (p : Process) where
  -- The trace behind a `select` and its question, and the message that a receive gets then.
  abbrev pub asked : ℤ → List Call → List Call
  asked fd tr = fd_isset fd ∷ select fd ∷ tr

  abbrev pub next : ℤ → List Call → Message
  next fd tr = (os (asked fd tr) (recv fd)).msg

  -- What the thread has done between two traces, and the server is at a message.
  abbrev pub Hears : List Call → List Call → ℕ → ℕ → List ℕ → Message → Type 0
  Hears tr tr' t x xs m =
      Serves os p tr tr' (at t (x ∷ xs)) (λ s. server_hear m x xs (at t (x ∷ xs) s))
