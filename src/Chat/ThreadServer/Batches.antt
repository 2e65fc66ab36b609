-- ===== src/Chat/ThreadServer/Batches.antt =====
-- The table of threads of practica1/ServidorMultiHilo/server.c, filled and emptied in turn.
use sistemas_distribuidos_y.Common.{
  ℕ, zero, suc, ◌≤◌, ◌<◌, ℤ, is_neg, true, false, leb, List, [], ◌∷◌, ◌≡◌, refl, ◌∙◌, inl, inr,
  Bool-cases, lt→ltb, arith, World, map, slice, Outcome, ok, exited, ended, fault, ◌>>◌, >>=-ok,
  update,
}
use sistemas_distribuidos_y.Chat.Talk.{Call, close, join, accept, create, TalkOs}
use sistemas_distribuidos_y.Chat.ThreadServer.{
  Crowd, number_of_threads, sighandler, check, set_fd, join_all, close_all, make_room,
  accept_client, serve,
}

abbrev pub CrowdWorld : Type 0
CrowdWorld = World Crowd Call

-- The code ended in one of the ways that the language defines, and if it goes on then with `P`.
unfoldable pub Ends : (CrowdWorld → Type 0) → Outcome CrowdWorld (Unit {0}) → Type 0
Ends P (ok a v) = P v
Ends P (exited n v) = Unit {0}
Ends P (ended v) = Unit {0}
Ends P fault = ⊥

-- The index of the next entry is in the table, or just behind it.
abbrev pub IsInTable : CrowdWorld → Type 0
IsInTable w = w.st.current_thread ≤ number_of_threads

Ends->>= :
    (P Q : CrowdWorld → Type 0) (m k : CrowdWorld → Outcome CrowdWorld (Unit {0})) (w : CrowdWorld)
    → Ends P (m w)
    → ((v : CrowdWorld) → P v → Ends Q (k v))
    → Ends Q ((m >> k) w)
unfolding Ends
Ends->>= P Q m k w p f = go (m w) p
  where
    go :
        (o : Outcome CrowdWorld (Unit {0}))
        → Ends P o
        → Ends Q
            (elim o [ ok a v ↦ k v | exited n v ↦ exited n v | ended v ↦ ended v | fault ↦ fault ])
    go (ok a v) p = f v p
    go (exited n v) p = tt
    go (ended v) p = tt
    go fault p = p

module _ (os : TalkOs) where
  check-Ends : (ret : ℤ) (w : CrowdWorld) → Ends (λ v. v ≡ w) (check os ret w)
  unfolding Ends check sighandler
  check-Ends ret w = elim (Bool-cases (is_neg ret)) [ inl e ↦ rw e tt | inr e ↦ rw e refl ]

  join_all-Ends : (n i : ℕ) (w : CrowdWorld) → Ends (λ v. v.st ≡ w.st) (join_all os n i w)
  unfolding Ends join_all
  join_all-Ends zero i w = refl
  join_all-Ends (suc n) i w =
      Ends->>= (λ v. v ≡ called) _ (check os _) (join_all os n (suc i)) called (check-Ends _ called)
        (λ v e. rw e (join_all-Ends n (suc i) called))
    where
      called : CrowdWorld
      called = record w { trace = join i ∷ w.trace }

  close_all-Ends : (n i : ℕ) (w : CrowdWorld) → Ends (λ v. v.st ≡ w.st) (close_all os n i w)
  unfolding Ends close_all
  close_all-Ends zero i w = refl
  close_all-Ends (suc n) i w =
      Ends->>= (λ v. v ≡ called) _ (check os _) (close_all os n (suc i)) called
        (check-Ends _ called) (λ v e. rw e (close_all-Ends n (suc i) called))
    where
      called : CrowdWorld
      called = record w { trace = close (w.st.fds i) ∷ w.trace }

  make_room-Ends :
      (w : CrowdWorld)
      → IsInTable w
      → Ends (λ v. v.st.current_thread < number_of_threads) (make_room os w)
  unfolding Ends make_room
  make_room-Ends w h = elim (Bool-cases (leb number_of_threads w.st.current_thread)) [
    | inl e ↦ rw e (
        Ends->>= (λ v. v.st ≡ w.st) _ (join_all os number_of_threads 0) _ w
          (join_all-Ends number_of_threads 0 w)
          (λ v p.
            Ends->>= (λ u. u.st ≡ v.st) _ (close_all os number_of_threads 0) _ v
              (close_all-Ends number_of_threads 0 v) (λ u q. omega arith)))
    | inr e ↦ rw e (ground arith)
  ]

  accept_client-Ends :
      (w : CrowdWorld)
      → w.st.current_thread < number_of_threads
      → Ends IsInTable (accept_client os w)
  unfolding Ends accept_client set_fd
  accept_client-Ends w h = rw (lt→ltb _ _ h) (
      Ends->>= (λ v. v ≡ filled) _ (check os _) _ filled (check-Ends _ filled)
        (λ v e. rw e (
          Ends->>= (λ v. v ≡ created) _ (check os _) _ created (check-Ends _ created)
            (λ u q. rw q (omega (arith, h))))))
    where
      filled : CrowdWorld
      filled = record {
        st = record w.st {
          fds = update w.st.fds w.st.current_thread (os w.trace (accept w.st.server_socket)).ret;
        };
        trace = accept w.st.server_socket ∷ w.trace;
      }

      created : CrowdWorld
      created = record filled { trace = create w.st.current_thread ∷ filled.trace }

  -- If the index of the next entry is at most 100, then any number of rounds never write outside of
  -- the table of descriptors, and the index is at most 100 after them: whatever the system answers.
  pub serve-Ends : (n : ℕ) (w : CrowdWorld) → IsInTable w → Ends IsInTable (serve os n w)
  unfolding Ends serve
  serve-Ends zero w h = h
  serve-Ends (suc n) w h =
      Ends->>= IsInTable _ (make_room os >> accept_client os) (serve os n) w
        (Ends->>= _ _ (make_room os) (accept_client os) w (make_room-Ends w h) accept_client-Ends)
        (serve-Ends n)

-- The list put on a trace, its first call first.
abbrev pub pushed : List Call → List Call → List Call
pushed [] tr = tr
pushed (c ∷ cs) tr = pushed cs (c ∷ tr)

module _ (os : TalkOs) (good : (tr : List Call) (c : Call) → is_neg (os tr c).ret ≡ false) where
  join_all_lem :
      (n i : ℕ) (w : CrowdWorld)
      → join_all os n i w
        ≡ ok tt (record w { trace = pushed (map join (slice (λ k. k) i n)) w.trace })
  unfolding join_all check
  join_all_lem zero i w = refl
  join_all_lem (suc n) i w = rw (good w.trace (join i)) (join_all_lem n (suc i) _)

  close_all_lem :
      (n i : ℕ) (w : CrowdWorld)
      → close_all os n i w
        ≡ ok tt (record w { trace = pushed (map close (slice w.st.fds i n)) w.trace })
  unfolding close_all check
  close_all_lem zero i w = refl
  close_all_lem (suc n) i w = rw (good w.trace (close (w.st.fds i))) (close_all_lem n (suc i) _)

  make_room-full :
      (w : CrowdWorld)
      → leb number_of_threads w.st.current_thread ≡ true
      → make_room os w
        ≡ ok tt (record {
          st = record w.st { current_thread = 0 };
          trace =
              pushed
                (map close (slice w.st.fds 0 number_of_threads))
                (pushed (map join (slice (λ k. k) 0 number_of_threads)) w.trace);
        })
  unfolding make_room
  make_room-full w e = rw e (
      >>=-ok (join_all os number_of_threads 0) _ w _ tt (join_all_lem number_of_threads 0 w)
      ∙ >>=-ok (close_all os number_of_threads 0) _ _ _ tt (close_all_lem number_of_threads 0 _))

  -- If no call fails and the table is full, a round first waits for the thread of every entry, in
  -- their order, then closes the descriptor of every entry, in their order, and only then accepts a
  -- client, whose descriptor and thread get the first entry. The other descriptors stay in the table,
  -- and the index of the next entry is 1.
  pub serve-full :
      (w : CrowdWorld)
      → w.st.current_thread ≡ number_of_threads
      → let cleared =
          pushed
            (map close (slice w.st.fds 0 number_of_threads))
            (pushed (map join (slice (λ k. k) 0 number_of_threads)) w.trace) in
        serve os 1 w
        ≡ ok tt (record {
          st = record w.st {
            fds = update w.st.fds 0 (os cleared (accept w.st.server_socket)).ret;
            current_thread = 1;
          };
          trace = create 0 ∷ accept w.st.server_socket ∷ cleared;
        })
  unfolding serve accept_client set_fd check
  serve-full w full = >>=-ok (make_room os >> accept_client os) _ w _ tt (
      >>=-ok (make_room os) (λ u. accept_client os) w _ tt (make_room-full w (ground (arith, full)))
      ∙ rw (good, good) refl)
