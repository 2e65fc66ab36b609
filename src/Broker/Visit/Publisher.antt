-- ===== src/Broker/Visit/Publisher.antt =====
-- The whole thread of practica4/proxy_broker.c that serves a publisher.
use sistemas_distribuidos_y.Common.{
  ℕ, suc, ◌+◌, ◌<◌, ℤ, is_neg, true, false, List, [], ◌∷◌, ◌++◌, length, map, ◌≡◌, refl, sym, ap,
  ap₂, ◌∙◌, subst, arith, IsIn, World, ok, ended, >>=-ok,
}
use sistemas_distribuidos_y.Broker.Types.{
  Broker, Client, Message, Publish, Response, Call, BrokerOs, register_publisher,
  unregister_publisher, publish_data, secuencial, recv, max_publishers,
}
use sistemas_distribuidos_y.Broker.Clients.{unregister}
use sistemas_distribuidos_y.Broker.Sessions.{
  Garbage, accepted, register_client, serve_publisher, talk_to_publisher, talk_to_client,
}
use sistemas_distribuidos_y.Broker.Sessions.Register.{Sends}
use sistemas_distribuidos_y.Broker.Directory.{Directory, view, lists, subscribers_of}
use sistemas_distribuidos_y.Broker.Invariant.{IsValid}
use sistemas_distribuidos_y.Broker.Publish.Delivery.{send_to, logged}
use sistemas_distribuidos_y.Broker.Registration.{subscriber}
use sistemas_distribuidos_y.Broker.Registration.Advertising.{register_client-advertise}
use sistemas_distribuidos_y.Broker.Unregistration.{publications, publications-append, SendsFarewell}
use sistemas_distribuidos_y.Broker.Roundtrip.{unregister-advertised}
use sistemas_distribuidos_y.Broker.Served.{announced, serve_publisher-sent}
use sistemas_distribuidos_y.Broker.Visit.{first, reading}

IsValid-same : {b b' : Broker} → IsValid b → b' ≡ b → IsValid b'
IsValid-same v same = subst IsValid (sym same) v

-- The sends of some messages to the subscribers of their topics, oldest first.
abbrev pub sends_of : Directory → List Message → List Call
sends_of d [] = []
sends_of d (m ∷ ms) = map (send_to m.publish) (subscribers_of m.topic d) ++ sends_of d ms

logged-append : (cs ds tr : List Call) → logged (cs ++ ds) tr ≡ logged ds (logged cs tr)
logged-append [] ds tr = refl
logged-append (c ∷ cs) ds tr = logged-append cs ds (c ∷ tr)

publications-logged :
    (p : Publish) (cs : List Client) (tr : List Call)
    → publications (logged (map (send_to p) cs) tr) ≡ logged (map (send_to p) cs) (publications tr)
publications-logged p [] tr = refl
publications-logged p (c ∷ cs) tr = publications-logged p cs (send_to p c ∷ tr)

module _ (os : BrokerOs) (fd : ℤ) where
  -- The broker after a message that went to all subscribers of its topic.
  abbrev pub after : World Broker Call → Message → World Broker Call
  after w m = record w {
    trace =
        logged (map (send_to m.publish) (subscribers_of m.topic (view w.st)))
          (announced os fd m w).trace;
  }

  -- Messages that arrive one after the other, for topics of the directory, and that can be sent on to
  -- all their subscribers.
  pub data Arrive : World Broker Call → List Message → World Broker Call → Type 0 where
    none_left : {w : World Broker Call} → Arrive w [] w
    next :
        {w w' : World Broker Call} {m : Message} {ms : List Message}
        → is_neg (os w.trace (recv fd)).ret ≡ false
        → (os w.trace (recv fd)).msg ≡ m
        → m.action ≡ publish_data
        → lists (view w.st) m.topic ≡ true
        → ((tr : List Call) (c : Client)
            → IsIn c (subscribers_of m.topic (view w.st))
            → is_neg (os tr (send_to m.publish c)).ret ≡ false)
        → Arrive (after w m) ms w'
        → Arrive w (m ∷ ms) w'

  Arrive-st : {w w' : World Broker Call} {ms : List Message} → Arrive w ms w' → w'.st ≡ w.st
  Arrive-st none_left = refl
  Arrive-st (next came same action listed sends more) = Arrive-st more

  -- What is sent on to the subscribers is what the messages say.
  publications-after :
      (w : World Broker Call) (m : Message)
      → publications (after w m).trace
        ≡ logged
            (map (send_to m.publish) (subscribers_of m.topic (view w.st)))
            (publications w.trace)
  publications-after w m =
      publications-logged m.publish (subscribers_of m.topic (view w.st)) (announced os fd m w).trace

  publications-Arrive :
      {w w' : World Broker Call} {ms : List Message}
      → Arrive w ms w'
      → publications w'.trace ≡ logged (sends_of (view w.st) ms) (publications w.trace)
  publications-Arrive none_left = refl
  publications-Arrive (next {w = w} {m = m} {ms = ms} came same action listed sends more) =
      publications-Arrive more
      ∙ ap (logged (sends_of (view w.st) ms)) (publications-after w m)
      ∙ sym (
          logged-append (map (send_to m.publish) (subscribers_of m.topic (view w.st)))
            (sends_of (view w.st) ms) (publications w.trace))

  -- The rounds of the publisher until the one with its removal.
  talk_to_publisher-Arrive :
      {w w' : World Broker Call} {ms : List Message} (n : ℕ)
      → IsValid w.st
      → w.st.mode ≡ secuencial
      → Arrive w ms w'
      → talk_to_publisher os (length ms + n) fd w ≡ talk_to_publisher os n fd w'
  unfolding talk_to_publisher
  talk_to_publisher-Arrive {w = w} n v mode none_left =
      ap (λ k. talk_to_publisher os k fd w) (omega arith)
  talk_to_publisher-Arrive {w = w} n v mode
        (next {m = m} {ms = ms} came same action listed sends more) =
      ap (λ k. talk_to_publisher os k fd w) one_more
      ∙ >>=-ok (serve_publisher os fd) (λ _. talk_to_publisher os (length ms + n) fd) w (after w m)
          tt (serve_publisher-sent os fd m w came same action v listed mode sends)
      ∙ talk_to_publisher-Arrive n v mode more
    where
      one_more : suc (length ms) + n ≡ suc (length ms + n)
      one_more = omega arith

  talk_to_publisher-unregister :
      (n : ℕ) (w w' : World Broker Call)
      → is_neg (os w.trace (recv fd)).ret ≡ false
      → (os w.trace (recv fd)).msg.action ≡ unregister_publisher
      → unregister os unregister_publisher
          (os w.trace (recv fd)).msg.topic
          (os w.trace (recv fd)).msg.id
          (record w { trace = recv fd ∷ w.trace })
        ≡ ended w'
      → talk_to_publisher os (suc n) fd w ≡ ended w'
  unfolding talk_to_publisher serve_publisher
  talk_to_publisher-unregister n w w' came action e = ground (arith, came, action, e)

module _ (os : BrokerOs) (g : Garbage) (fd : ℤ) (w : World Broker Call) where
  -- What arrives after a registration that gave the response `r`: the messages, and then the removal
  -- under its id.
  pub record Publishes (ms : List Message) (r : Response) (w' : World Broker Call) : Type 0 where
    pub last_world : World Broker Call
    pub arrive : Arrive os fd w' ms last_world
    pub came : is_neg (os last_world.trace (recv fd)).ret ≡ false
    pub action : (os last_world.trace (recv fd)).msg.action ≡ unregister_publisher
    pub topic : (os last_world.trace (recv fd)).msg.topic ≡ (first os g fd w).topic
    pub id : (os last_world.trace (recv fd)).msg.id ≡ r.id

  -- The thread of a client that registers as a publisher, publishes some messages and then asks to
  -- be removed under the id that it was given: in a valid state and the sequential mode, if its
  -- topic is there, fewer than 100 ids were handed out to publishers, its messages arrive, are for
  -- topics of the directory and can be sent on, and both answers can be sent, the thread ends, the
  -- directory is as it was, and from the registration on the thread has sent to subscribers exactly
  -- these messages, one after the other, each to all subscribers of its topic in their order.
  pub talk_to_client-publisher :
      (n : ℕ) (ms : List Message)
      → is_neg (os w.trace (recv fd)).ret ≡ false
      → (first os g fd w).action ≡ register_publisher
      → IsValid w.st
      → w.st.mode ≡ secuencial
      → lists (view w.st) (first os g fd w).topic ≡ true
      → w.st.next_publisher_id < max_publishers
      → Sends os g fd (first os g fd w) (reading os g fd w) (accepted w.st.next_publisher_id)
      → ((r : Response) (w' : World Broker Call)
          → register_client os g fd (first os g fd w) (reading os g fd w) ≡ ok r w'
          → Publishes ms r w')
      → ((w' : World Broker Call)
          → SendsFarewell os (subscriber g fd (first os g fd w).topic w.st.next_publisher_id) w')
      → (w' : World Broker Call) × (w'' : World Broker Call) × (register_client os g fd
            (first os g fd w)
            (reading os g fd w)
          ≡ ok (accepted w.st.next_publisher_id) w')
        × (talk_to_client os (length ms + suc n) g fd w ≡ ended w'')
        × (view w''.st ≡ view w.st)
        × (publications w''.trace ≡ logged (sends_of (view w'.st) ms) (publications w'.trace))
  unfolding talk_to_client
  talk_to_client-publisher n ms came action v mode listed room sends publishes answers =
      let (w', e, seen, _, unchanged, v') =
        register_client-advertise os g fd (first os g fd w) (reading os g fd w) v action listed room
          sends in
      let p = publishes (accepted w.st.next_publisher_id) w' e in
      let same = Arrive-st os fd p.arrive in
      let asked : World Broker Call = record p.last_world {
        trace = recv fd ∷ p.last_world.trace;
      } in
      let (w'', q, gone, (rows, farewell, none)) =
        unregister-advertised os w.st
          (subscriber g fd (first os g fd w).topic w.st.next_publisher_id) (first os g fd w).topic
          asked v refl listed (IsValid-same v' same) (ap view same ∙ seen) (answers asked) in
      let served : talk_to_publisher os (length ms + suc n) fd w' ≡ ended w'' =
        talk_to_publisher-Arrive os fd (suc n) v' (unchanged ∙ mode) p.arrive
        ∙ talk_to_publisher-unregister os fd n p.last_world w'' p.came p.action
            (ap₂ (λ t i. unregister os unregister_publisher t i asked) p.topic p.id ∙ q) in
      (
        w',
        w'',
        e,
        ground (arith, came, action, e, served),
        gone,
        ap publications farewell
            ∙ publications-append rows _ none
            ∙ publications-Arrive os fd p.arrive,
      )
