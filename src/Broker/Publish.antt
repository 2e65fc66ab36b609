-- ===== src/Broker/Publish.antt =====
-- Sending a message to the subscribers of its topic: `send_sequential`, `send_parallel` and
-- `publish_msg` of practica4/proxy_broker.c. `send_just` is in Just.antt.
pub mod Delivery
pub mod Calls
use sistemas_distribuidos_y.Common.{
  ℕ, zero, suc, rounds, ltb, if◌then◌else◌, ◌>>=◌, ◌>>◌, undefined, get, call_, must, pthread_exit,
  pure,
}
use sistemas_distribuidos_y.Broker.Types.{
  Topic, Message, SendMessage, Publish, BrokerOs, BrokerThread, max_topics, Mode, secuencial,
  paralelo, justo, Routine, send_parallel, send_just, send_publish, pthread_create, pthread_join,
  lock, unlock, print, enviando, mutex2,
}
use sistemas_distribuidos_y.Broker.Topics.{get_topic_id}

-- A read of `all_topics`; behind its end it is a fault.
abbrev pub topic_at : ℕ → BrokerThread Topic
topic_at i = do b ← get; if ltb i max_topics then pure (b.all_topics i) else undefined

module _ (os : BrokerOs) where
  -- The loop of `send_sequential`, with `n` rounds left, at position `i`.
  unfoldable pub send_each : ℕ → ℕ → ℕ → Publish → BrokerThread (Unit {0})
  send_each zero i topic_id publish = pure tt
  send_each (suc n) i topic_id publish = do
    t ← topic_at topic_id
    must os (send_publish (t.subscribers i).fd publish)
    send_each n (suc i) topic_id publish

  unfoldable pub send_sequential : Message → BrokerThread (Unit {0})
  send_sequential message = do
    b ← get
    let topic_id = get_topic_id b message.topic
    t ← topic_at topic_id
    send_each (rounds t.num_subscribers) 0 topic_id message.publish

  -- The body of a thread of the parallel mode.
  unfoldable pub run_send_parallel : SendMessage → BrokerThread (Unit {0})
  run_send_parallel arg = do must os (send_publish arg.fd arg.message.publish); pthread_exit

  -- The loops of `publish_msg` that start a thread for each subscriber.
  unfoldable pub start_each : Routine → ℕ → ℕ → ℕ → Message → BrokerThread (Unit {0})
  start_each routine zero i topic_id message = pure tt
  start_each routine (suc n) i topic_id message = do
    t ← topic_at topic_id
    must os (pthread_create routine (record { message = message; fd = (t.subscribers i).fd }))
    start_each routine n (suc i) topic_id message

  unfoldable pub join_each : ℕ → ℕ → BrokerThread (Unit {0})
  join_each zero i = pure tt
  join_each (suc n) i = do call_ os (pthread_join i); join_each n (suc i)

  -- What `publish_msg` does in each mode.
  unfoldable pub publish_by : Mode → ℕ → ℕ → Message → BrokerThread (Unit {0})
  publish_by secuencial n topic_id message = send_sequential message
  publish_by paralelo n topic_id message = start_each send_parallel n 0 topic_id message
  publish_by justo n topic_id message = do
    call_ os (lock mutex2)
    start_each send_just n 0 topic_id message
    join_each n 0
    call_ os (unlock mutex2)

  unfoldable pub publish_msg : Message → BrokerThread (Unit {0})
  publish_msg message = do
    b ← get
    let topic_id = get_topic_id b message.topic
    t ← topic_at topic_id
    call_ os (print (enviando message.topic t.num_subscribers))
    publish_by b.mode (rounds t.num_subscribers) topic_id message
