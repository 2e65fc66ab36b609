-- ===== src/Broker/Publish/Delivery.antt =====
-- Who gets a message that is published (practica4/proxy_broker.c), in each of the three modes.
use sistemas_distribuidos_y.Common.{
  ℕ, zero, suc, ◌<◌, pos, pos-rounds, rounds, String, true, List, [], ◌∷◌, ◌++◌, map, length,
  length-slice, ◌≡◌, refl, sym, ap, ◌∙◌, ◌⊎◌, inl, inr, arith, lt→ltb, Bool-cases, is_neg, slice,
  false, World, ok, exited, ◌>>◌, call_, must, pure,
}
use sistemas_distribuidos_y.Broker.Types.{
  Client, Broker, Message, Publish, Call, BrokerOs, BrokerThread, max_topics, Mode, secuencial,
  paralelo, justo, Routine, send_parallel, send_just, send_publish, pthread_create, lock, unlock,
  print, enviando, mutex2,
}
use sistemas_distribuidos_y.Broker.Topics.{get_topic_id}
use sistemas_distribuidos_y.Broker.Publish.{
  send_each, send_sequential, start_each, join_each, publish_by, publish_msg,
}
use sistemas_distribuidos_y.Broker.Directory.{
  view, lists, lists-slice, members_of-slice, subscribers_of,
}
use sistemas_distribuidos_y.Broker.Topics.Lookup.{has_topic-find_topic}
use sistemas_distribuidos_y.Broker.Invariant.{IsValid}

-- One call after the other; the first that fails ends the process.
unfoldable pub perform : BrokerOs → List Call → BrokerThread (Unit {0})
perform os [] = pure tt
perform os (c ∷ cs) = must os c >> perform os cs

-- A trace, newest call first, with more calls made.
abbrev pub logged : List Call → List Call → List Call
logged [] tr = tr
logged (c ∷ cs) tr = logged cs (c ∷ tr)

-- None of the calls fails.
unfoldable pub Went : BrokerOs → List Call → List Call → Type 0
Went os [] tr = Unit
Went os (c ∷ cs) tr = (is_neg (os tr c).ret ≡ false) × Went os cs (c ∷ tr)

-- Either none of the calls fails and all are made, or the process exits with status 1 at the first that
-- fails. The state is the same.
pub perform_lem :
    (os : BrokerOs) (cs : List Call) (w : World Broker Call)
    → (Went os cs w.trace
        × (perform os cs w ≡ ok tt (record { st = w.st; trace = logged cs w.trace })))
      ⊎ ((before : List Call) × (after : List Call) × (c : Call) × (cs ≡ before ++ c ∷ after)
          × Went os before w.trace
          × (is_neg (os (logged before w.trace) c).ret ≡ true)
          × (perform os cs w ≡ exited 1 (record { st = w.st; trace = c ∷ logged before w.trace })))
unfolding perform Went
perform_lem os [] w = inl (tt, refl)
perform_lem os (c ∷ cs) w = elim (Bool-cases (is_neg (os w.trace c).ret)) [
  | inl fails ↦ inr ([], cs, c, refl, tt, fails, ground arith)
  | inr works ↦ elim (perform_lem os cs (record w { trace = c ∷ w.trace })) [
    | inl (went, all) ↦ inl ((works, went), ground arith)
    | inr (before, after, d, e, went, fails, q) ↦
        inr (c ∷ before, after, d, ap (◌∷◌ c) e, (works, went), fails, ground arith)
  ]
]

-- The call that brings the message to one subscriber.
abbrev pub send_to : Publish → Client → Call
send_to p c = send_publish c.fd p

abbrev pub start_for : Routine → Message → Client → Call
start_for routine m c = pthread_create routine (record { message = m; fd = c.fd })

-- The publication of a message to the given clients.
unfoldable pub deliver : BrokerOs → Mode → Message → List Client → BrokerThread (Unit {0})
deliver os secuencial m cs = perform os (map (send_to m.publish) cs)
deliver os paralelo m cs = perform os (map (start_for send_parallel m) cs)
deliver os justo m cs =
    call_ os (lock mutex2)
    >> (perform os (map (start_for send_just m) cs)
        >> (join_each os (length cs) 0 >> call_ os (unlock mutex2)))

-- What follows a call is only done if it went well.
must-cong :
    (os : BrokerOs) (c : Call) (k l : BrokerThread (Unit {0})) (w : World Broker Call)
    → k (record w { trace = c ∷ w.trace }) ≡ l (record w { trace = c ∷ w.trace })
    → (must os c >> k) w ≡ (must os c >> l) w
must-cong os c k l w e = ground arith

module _ (os : BrokerOs) (topic_id : ℕ) (h : topic_id < max_topics) where
  send_each-perform :
      (n i : ℕ) (p : Publish) (w : World Broker Call)
      → send_each os n i topic_id p w
        ≡ perform os (map (send_to p) (slice (w.st.all_topics topic_id).subscribers i n)) w
  unfolding send_each perform
  send_each-perform zero i p w = refl
  send_each-perform (suc n) i p w = rw (lt→ltb topic_id max_topics h) (
      must-cong os (send_to p ((w.st.all_topics topic_id).subscribers i))
        (send_each os n (suc i) topic_id p)
        (perform os (map (send_to p) (slice (w.st.all_topics topic_id).subscribers (suc i) n))) w
        (send_each-perform n (suc i) p _))

  start_each-perform :
      (r : Routine) (n i : ℕ) (m : Message) (w : World Broker Call)
      → start_each os r n i topic_id m w
        ≡ perform os (map (start_for r m) (slice (w.st.all_topics topic_id).subscribers i n)) w
  unfolding start_each perform
  start_each-perform r zero i m w = refl
  start_each-perform r (suc n) i m w = rw (lt→ltb topic_id max_topics h) (
      must-cong os (start_for r m ((w.st.all_topics topic_id).subscribers i))
        (start_each os r n (suc i) topic_id m)
        (perform os (map (start_for r m) (slice (w.st.all_topics topic_id).subscribers (suc i) n)))
        w (start_each-perform r n (suc i) m _))

  -- In every mode, once the topic was found.
  publish_by-deliver :
      (mode : Mode) (message : Message) (w : World Broker Call) (cs : List Client)
      → get_topic_id w.st message.topic ≡ topic_id
      → (w.st.all_topics topic_id).num_subscribers ≡ pos (length cs)
      → slice (w.st.all_topics topic_id).subscribers 0 (length cs) ≡ cs
      → publish_by os mode (length cs) topic_id message w ≡ deliver os mode message cs w
  unfolding publish_by deliver send_sequential
  publish_by-deliver secuencial message w cs e num all =
      rw (e, lt→ltb topic_id max_topics h)
        (rw num (send_each-perform (length cs) 0 message.publish w ∙ rw all refl))
  publish_by-deliver paralelo message w cs e num all =
      start_each-perform send_parallel (length cs) 0 message w ∙ rw all refl
  publish_by-deliver justo message w cs e num all = ground (
    arith,
    start_each-perform send_just (length cs) 0 message (record w { trace = lock mutex2 ∷ w.trace }),
    ap (map (start_for send_just message)) all,
  )

-- A topic that the directory lists: its place, and its counter.
module _ (b : Broker) (v : IsValid b) (name : String) (listed : lists (view b) name ≡ true) where
  abbrev place : ℕ
  place = get_topic_id b name

  place-lt : place < b.current_topics
  unfolding view get_topic_id
  place-lt = ground (
    arith,
    lists-slice b.current_topics 0 b.all_topics name,
    has_topic-find_topic b.current_topics 0 b.all_topics name,
  )

  subscribers-place :
      slice (b.all_topics place).subscribers 0 (rounds (b.all_topics place).num_subscribers)
      ≡ subscribers_of name (view b)
  unfolding view get_topic_id
  subscribers-place = sym (
      members_of-slice (λ e. e.subscribers) name b.current_topics 0 b.all_topics
        (omega (arith, place-lt)))

  num-place : (b.all_topics place).num_subscribers ≡ pos (length (subscribers_of name (view b)))
  num-place =
      pos-rounds _ (v.topics place place-lt).subs.nonneg
      ∙ ap pos (sym (length-slice _ 0 _) ∙ ap length subscribers-place)

-- In a valid state, a message for a topic of the directory is announced with the number of its
-- subscribers, and then `deliver` is run for them.
pub publish_msg-deliver :
    (os : BrokerOs) (message : Message) (w : World Broker Call)
    → IsValid w.st
    → lists (view w.st) message.topic ≡ true
    → let cs = subscribers_of message.topic (view w.st) in
      publish_msg os message w
      ≡ (call_ os (print (enviando message.topic (pos (length cs))))
            >> deliver os w.st.mode message cs)
          w
unfolding publish_msg
publish_msg-deliver os message w v listed =
    rw
      (lt→ltb (place w.st v message.topic listed) max_topics
        (omega (arith, place-lt w.st v message.topic listed, v.fits)))
      (rw (num-place w.st v message.topic listed) (
        publish_by-deliver os (place w.st v message.topic listed)
          (omega (arith, place-lt w.st v message.topic listed, v.fits)) w.st.mode message _
          (subscribers_of message.topic (view w.st)) refl (num-place w.st v message.topic listed)
          (rw (← ap rounds (num-place w.st v message.topic listed))
            (subscribers-place w.st v message.topic listed))))
