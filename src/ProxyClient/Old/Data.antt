-- ===== src/ProxyClient/Old/Data.antt =====
-- The loop of practica4/Old/proxy_subscriber.c, which reads the clock twice for each message, against the
-- one of practica4/proxy_client.c.
use sistemas_distribuidos_y.Common.{
  ℕ, zero, suc, ℤ, is_neg, Option, none, some, List, [], ◌∷◌, map, ◌≡◌, ap, inl, inr, Bool-cases,
  World, Outcome, ok, exited, ended, fault,
}
use sistemas_distribuidos_y.ProxyClient.{
  Peer, Call, Line, print, recibido, recibido_long, as_float, clock_gettime, recv_publish, PeerOs,
  latency, transfer_subscriber,
}
use sistemas_distribuidos_y.ProxyClient.Old.Subscriber.{start_data_transfer}

-- The lines that were printed, newest first.
unfoldable pub shown : List Call → List Line
shown [] = []
shown (print line ∷ tr) = line ∷ shown tr
shown (_ ∷ tr) = shown tr

-- The line of the new program for a line of the old one: without the time in front, and with the
-- latency as the `float` that the new program computes from the two numbers.
abbrev pub renewed : Line → Line
renewed (recibido_long time topic content generated received s n) =
    recibido topic content generated received (as_float (s, n))
renewed line = line

abbrev pub renew : Option ℕ × List Line → Option ℕ × List Line
renew (status, lines) = (status, map renewed lines)

-- How a program ended, if it did, and what it has printed until then.
abbrev pub course : Outcome (World Peer Call) (Unit {0}) → Option ℕ × List Line
course (ok a w) = (none, shown w.trace)
course (exited n w) = (some n, shown w.trace)
course (ended w) = (some 0, shown w.trace)
course fault = (none, [])

-- The calls of the old program and of the new one after as many messages.
pub data Alike (fd : ℤ) : List Call → List Call → Type 0 where
  begun : {tr : List Call} → map renewed (shown tr) ≡ shown tr → Alike fd tr tr
  received :
      {old new : List Call} (line : Line)
      → Alike fd old new
      → Alike fd
          (print line ∷ clock_gettime ∷ clock_gettime ∷ recv_publish fd ∷ old)
          (print (renewed line) ∷ clock_gettime ∷ recv_publish fd ∷ new)

Alike-shown :
    {fd : ℤ} {old new : List Call} → Alike fd old new → map renewed (shown old) ≡ shown new
unfolding shown
Alike-shown (begun e) = e
Alike-shown (received line a) = ap (λ ls. renewed line ∷ ls) (Alike-shown a)

-- What the systems of the two programs have in common: the same messages arrive, and the second time
-- that the old program reads is the one that the new program reads.
abbrev pub Agree : PeerOs → PeerOs → ℤ → Type 0
Agree before now fd =
    (old new : List Call)
    → Alike fd old new
    → (before old (recv_publish fd) ≡ now new (recv_publish fd))
      × (before (clock_gettime ∷ recv_publish fd ∷ old) clock_gettime
          ≡ now (recv_publish fd ∷ new) clock_gettime)

module _ (before now : PeerOs) (s : Peer) (agree : Agree before now s.client_socket) where
  rounds_agree :
      (n : ℕ) (old new : List Call)
      → Alike s.client_socket old new
      → renew (course (start_data_transfer before n (record { st = s; trace = old })))
        ≡ course (transfer_subscriber now n (record { st = s; trace = new }))
  unfolding start_data_transfer transfer_subscriber shown
  rounds_agree zero old new a = ap (λ ls. (none, ls)) (Alike-shown a)
  rounds_agree (suc n) old new a =
      let (same, clock) = agree old new a in
      let alike = Alike-shown a in
      elim (Bool-cases (is_neg (now new (recv_publish s.client_socket)).ret)) [
        | inl fails ↦ rw (same, fails) (ap (λ ls. (some 1, ls)) alike)
        | inr works ↦
            let got = (now new (recv_publish s.client_socket)).msg.publish in
            let time = (now (recv_publish s.client_socket ∷ new) clock_gettime).msg.time in
            let late = latency time got.time_generated_data in
            let front = (before (recv_publish s.client_socket ∷ old) clock_gettime).msg.time in
            rw (same, works, clock)
              (rounds_agree n _ _ (
                received
                  (recibido_long front s.client_topic got.content got.time_generated_data time
                    late.0 late.1)
                  a))
      ]

  -- If no line was printed in the form of the old program before, the same messages arrive, and the
  -- second time that the old program reads is the one that the new program reads, then after any
  -- number of rounds the new program has printed a line for each line of the old one, with the same
  -- topic, text and two times, and with the latency as the `float` that the new program computes
  -- from the two numbers of the old line; and if one of them has ended the other one has as well,
  -- with the same status.
  pub start_data_transfer-transfer_subscriber :
      (n : ℕ) (tr : List Call)
      → map renewed (shown tr) ≡ shown tr
      → renew (course (start_data_transfer before n (record { st = s; trace = tr })))
        ≡ course (transfer_subscriber now n (record { st = s; trace = tr }))
  start_data_transfer-transfer_subscriber n tr e = rounds_agree n tr tr (begun e)
