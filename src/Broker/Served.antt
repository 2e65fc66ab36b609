-- ===== src/Broker/Served.antt =====
-- A publication in the sequential mode when no call fails, by the thread of the publisher
-- (practica4/proxy_broker.c).
use sistemas_distribuidos_y.Common.{
  ℤ, pos, is_neg, true, false, List, [], ◌∷◌, map, length, ◌≡◌, inl, inr, refl, ap, ◌∙◌, arith,
  IsIn, World, ok,
}
use sistemas_distribuidos_y.Broker.Types.{
  Broker, Client, Message, Publish, Call, BrokerOs, publish_data, secuencial, print, recv, recibido,
  enviando,
}
use sistemas_distribuidos_y.Broker.Directory.{view, lists, subscribers_of}
use sistemas_distribuidos_y.Broker.Invariant.{IsValid}
use sistemas_distribuidos_y.Broker.Sessions.{serve_publisher}
use sistemas_distribuidos_y.Broker.Publish.{publish_msg}
use sistemas_distribuidos_y.Broker.Publish.Delivery.{
  perform, logged, send_to, deliver, publish_msg-deliver,
}

-- All calls go well.
perform-sent :
    (os : BrokerOs) (p : Publish) (cs : List Client) (w : World Broker Call)
    → ((tr : List Call) (c : Client) → IsIn c cs → is_neg (os tr (send_to p c)).ret ≡ false)
    → perform os (map (send_to p) cs) w
      ≡ ok tt (record { st = w.st; trace = logged (map (send_to p) cs) w.trace })
unfolding perform
perform-sent os p [] w h = refl
perform-sent os p (c ∷ cs) w h = ground (
  arith,
  h w.trace c (inl refl),
  perform-sent os p cs (record w { trace = send_to p c ∷ w.trace }) (λ tr d i. h tr d (inr i)),
)

-- The calls that were made stay in the trace, and those that are made come to it.
logged-before : (cs tr : List Call) (c : Call) → IsIn c tr → IsIn c (logged cs tr)
logged-before [] tr c h = h
logged-before (d ∷ cs) tr c h = logged-before cs (d ∷ tr) c (inr h)

pub logged-sent :
    (cs : List Client) (p : Publish) (tr : List Call) (c : Client)
    → IsIn c cs
    → IsIn (send_to p c) (logged (map (send_to p) cs) tr)
logged-sent [] p tr c h = absurd h
logged-sent (d ∷ cs) p tr c (inl e) =
    logged-before (map (send_to p) cs) (send_to p d ∷ tr) (send_to p c) (inl (ap (send_to p) e))
logged-sent (d ∷ cs) p tr c (inr h) = logged-sent cs p (send_to p d ∷ tr) c h

module _ (broker : BrokerOs) (fd : ℤ) (m : Message) (w : World Broker Call) where
  -- The broker that has read the message and announced it.
  abbrev pub announced : World Broker Call
  announced = record w {
    trace =
        print (enviando m.topic (pos (length (subscribers_of m.topic (view w.st)))))
        ∷ print (recibido m.topic m.publish.content m.publish.time_generated_data)
        ∷ recv fd
        ∷ w.trace;
  }

  abbrev reads : Message → World Broker Call
  reads message = record w {
    trace =
        print (recibido message.topic message.publish.content message.publish.time_generated_data)
        ∷ recv fd
        ∷ w.trace;
  }

  serve_publisher-publish_msg :
      is_neg (broker w.trace (recv fd)).ret ≡ false
      → (broker w.trace (recv fd)).msg.action ≡ publish_data
      → serve_publisher broker fd w
        ≡ publish_msg broker (broker w.trace (recv fd)).msg (reads (broker w.trace (recv fd)).msg)
  unfolding serve_publisher
  serve_publisher-publish_msg came action = ground arith

  -- A message of a publisher that goes to all subscribers of its topic.
  pub serve_publisher-sent :
      is_neg (broker w.trace (recv fd)).ret ≡ false
      → (broker w.trace (recv fd)).msg ≡ m
      → m.action ≡ publish_data
      → IsValid w.st
      → lists (view w.st) m.topic ≡ true
      → w.st.mode ≡ secuencial
      → ((tr : List Call) (c : Client)
          → IsIn c (subscribers_of m.topic (view w.st))
          → is_neg (broker tr (send_to m.publish c)).ret ≡ false)
      → serve_publisher broker fd w
        ≡ ok tt (record announced {
          trace =
              logged (map (send_to m.publish) (subscribers_of m.topic (view w.st))) announced.trace;
        })
  unfolding deliver
  serve_publisher-sent came same action valid listed mode sends =
      serve_publisher-publish_msg came (ap (λ x. x.action) same ∙ action)
      ∙ ap (λ x. publish_msg broker x (reads x)) same
      ∙ publish_msg-deliver broker m (reads m) valid listed
      ∙ ap (λ k. deliver broker k m (subscribers_of m.topic (view w.st)) announced) mode
      ∙ perform-sent broker m.publish (subscribers_of m.topic (view w.st)) announced sends
