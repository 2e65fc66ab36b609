-- ===== src/ProxyClient/Old/Subscriber.antt =====
-- practica4/Old/proxy_subscriber.c.
use sistemas_distribuidos_y.Common.{
  ℕ, zero, suc, ℤ, String, Bool, false, if◌then◌else◌, is_neg, ◌>>=◌, ◌>>◌, get, modify, exit,
  strcpy, call, call_, must, pure,
}
use sistemas_distribuidos_y.Broker.Types.{register_subscriber, unregister_subscriber, Message}
use sistemas_distribuidos_y.ProxyClient.{
  conectado_con, registrado, registro_error, recibido_long, de_registrado, send, recv_response,
  clock_gettime, recv_publish, latency, close, print, PeerOs, PeerThread, topic_size, is_ok,
  unregister_until, socket_create, socket_connect,
}

module _ (os : PeerOs) where
  -- Its loop is the one of practica4/proxy_client.c.
  unfoldable pub sighandler : ℕ → Message → PeerThread Bool
  sighandler n garbage = do
    p ← get
    done ← unregister_until os n p.client_socket (record garbage {
      action = unregister_subscriber;
      topic = p.client_topic;
      id = p.client_id;
    })
    if done
        then (do
          call_ os clock_gettime
          call_ os (print (de_registrado p.client_id))
          call_ os (close p.client_socket)
          exit 1)
        else pure false

  -- The first `n` rounds of `while(1)`.
  unfoldable pub start_data_transfer : ℕ → PeerThread (Unit {0})
  start_data_transfer zero = pure tt
  start_data_transfer (suc n) = do
    p ← get
    r ← call os (recv_publish p.client_socket)
    if is_neg r.ret then exit 1 else (do
      time ← call os clock_gettime
      epoch ← call os clock_gettime
      let generated = r.msg.publish.time_generated_data
      let late = latency epoch.msg.time generated
      call_ os (
          print (
            recibido_long time.msg.time p.client_topic r.msg.publish.content generated
              epoch.msg.time late.0 late.1))
      start_data_transfer n)

  unfoldable pub talk_to_server : ℕ → Message → String → String → ℤ → PeerThread (Unit {0})
  talk_to_server n garbage topic ip port = do
    strcpy topic_size topic
    modify (λ p. record p { client_topic = topic })
    fd ← socket_create os
    modify (λ p. record p { client_socket = fd })
    socket_connect os fd
    call_ os clock_gettime
    call_ os (print (conectado_con "Subscriber" ip port))
    must os (send fd (record garbage { action = register_subscriber; topic = topic }))
    r ← call os (recv_response fd)
    if is_neg r.ret then exit 1 else (do
      modify (λ p. record p { client_id = r.msg.response.id })
      call_ os clock_gettime
      if is_ok r.msg.response.response_status
          then (do call_ os (print (registrado r.msg.response.id topic)); start_data_transfer n)
          else (do call_ os (print (registro_error r.msg.response.response_status)); exit 1))
