-- ===== src/Broker/Publish/Calls.antt =====
-- The calls of `publish_msg` (practica4/proxy_broker.c) and what their answers do, in each of the three
-- modes.
use sistemas_distribuidos_y.Common.{
  ℕ, zero, suc, pos, true, List, [], ◌∷◌, ◌++◌, map, length, ◌≡◌, refl, ◌∙◌, ◌⊎◌, inl, inr, arith,
  is_neg, World, Outcome, ok, exited, ◌>>◌, call_, >>=-ok,
}
use sistemas_distribuidos_y.Broker.Types.{
  Client, Broker, Message, Call, BrokerOs, Mode, secuencial, paralelo, justo, send_parallel,
  send_just, pthread_join, lock, unlock, print, enviando, mutex2,
}
use sistemas_distribuidos_y.Broker.Publish.{join_each, publish_msg}
use sistemas_distribuidos_y.Broker.Directory.{view, lists, subscribers_of}
use sistemas_distribuidos_y.Broker.Invariant.{IsValid}
use sistemas_distribuidos_y.Broker.Publish.Delivery.{
  perform, perform_lem, logged, Went, send_to, start_for, deliver, publish_msg-deliver,
}

-- The calls of the three modes: before the message is brought to the clients, for each client, and after.
abbrev pub opening : Mode → List Call
opening justo = lock mutex2 ∷ []
opening _ = []

abbrev pub deliveries : Mode → Message → List Client → List Call
deliveries secuencial m cs = map (send_to m.publish) cs
deliveries paralelo m cs = map (start_for send_parallel m) cs
deliveries justo m cs = map (start_for send_just m) cs

abbrev joins : ℕ → ℕ → List Call
joins zero i = []
joins (suc n) i = pthread_join i ∷ joins n (suc i)

abbrev pub closing : Mode → ℕ → List Call
closing justo n = joins n 0 ++ unlock mutex2 ∷ []
closing _ n = []

-- What became of a thread that makes the calls `cs` and then `rest`.
abbrev pub Delivers :
    BrokerOs
    → World Broker Call
    → List Call
    → List Call
    → Outcome (World Broker Call) (Unit {0})
    → Type 0
Delivers os w cs rest o =
    (Went os cs w.trace
      × (o ≡ ok tt (record { st = w.st; trace = logged rest (logged cs w.trace) })))
    ⊎ ((before : List Call) × (after : List Call) × (c : Call) × (cs ≡ before ++ c ∷ after)
        × Went os before w.trace
        × (is_neg (os (logged before w.trace) c).ret ≡ true)
        × (o ≡ exited 1 (record { st = w.st; trace = c ∷ logged before w.trace })))

module _ (os : BrokerOs) where
  join_each_lem :
      (n i : ℕ) (w : World Broker Call)
      → (join_each os n i >> call_ os (unlock mutex2)) w
        ≡ ok tt (record { st = w.st; trace = logged (joins n i ++ unlock mutex2 ∷ []) w.trace })
  unfolding join_each
  join_each_lem zero i w = refl
  join_each_lem (suc n) i w =
      join_each_lem n (suc i) (record w { trace = pthread_join i ∷ w.trace })

  deliver_lem :
      (mode : Mode) (m : Message) (cs : List Client) (w : World Broker Call)
      → Delivers os
          (record w { trace = logged (opening mode) w.trace })
          (deliveries mode m cs)
          (closing mode (length cs))
          (deliver os mode m cs w)
  unfolding deliver
  deliver_lem secuencial m cs w = perform_lem os (map (send_to m.publish) cs) w
  deliver_lem paralelo m cs w = perform_lem os (map (start_for send_parallel m) cs) w
  deliver_lem justo m cs w =
      let locked : World Broker Call = record w { trace = lock mutex2 ∷ w.trace } in
      elim (perform_lem os (map (start_for send_just m) cs) locked) [
        | inl (went, e) ↦ inl (
          went,
          >>=-ok (perform os (map (start_for send_just m) cs)) _ locked _ tt e
              ∙ join_each_lem (length cs) 0
                  (record w { trace = logged (map (start_for send_just m) cs) locked.trace }),
        )
        | inr (before, after, c, e, went, fails, q) ↦
            inr (before, after, c, e, went, fails, ground (arith, q))
      ]

pub publish_msg-subscribers :
    (os : BrokerOs) (message : Message) (w : World Broker Call)
    → IsValid w.st
    → lists (view w.st) message.topic ≡ true
    → let cs = subscribers_of message.topic (view w.st) in
      Delivers os
        (record w {
          trace =
              logged
                (opening w.st.mode)
                (print (enviando message.topic (pos (length cs))) ∷ w.trace);
        })
        (deliveries w.st.mode message cs)
        (closing w.st.mode (length cs))
        (publish_msg os message w)
publish_msg-subscribers os message w v listed =
    let cs = subscribers_of message.topic (view w.st) in
    let announced : World Broker Call = record w {
      trace = print (enviando message.topic (pos (length cs))) ∷ w.trace;
    } in
    rw (publish_msg-deliver os message w v listed) (deliver_lem os w.st.mode message cs announced)
