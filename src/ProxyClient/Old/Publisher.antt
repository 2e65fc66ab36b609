-- ===== src/ProxyClient/Old/Publisher.antt =====
-- practica4/Old/proxy_publisher.c.
use sistemas_distribuidos_y.Common.{
  ℕ, zero, suc, String, Bool, false, if◌then◌else◌, is_neg, ◌>>=◌, ◌>>◌, get, modify, exit, strcpy,
  call, call_, must, pure,
}
use sistemas_distribuidos_y.Broker.Types.{
  register_publisher, unregister_publisher, publish_data, Message,
}
use sistemas_distribuidos_y.ProxyClient.{
  conectado, registrado, registro_error, publicado, de_registrado, send, recv_response,
  clock_gettime, sleep, fread, close, print, PeerOs, PeerThread, topic_size, is_ok,
  unregister_until, socket_create, socket_connect,
}

module _ (os : PeerOs) where
  -- Its loop is the one of practica4/proxy_client.c.
  unfoldable pub sighandler : ℕ → Message → PeerThread Bool
  sighandler n garbage = do
    p ← get
    done ←
        unregister_until os n p.client_socket (record garbage {
          action = unregister_publisher;
          topic = p.client_topic;
          id = p.client_id;
        })
    if done
        then (do
          call_ os clock_gettime
          call_ os (print (de_registrado p.client_id))
          call_ os (close p.client_socket)
          exit 1)
        else pure false

  -- The first `n` rounds of `while(1)`.
  unfoldable pub start_data_transfer : ℕ → Bool → Message → PeerThread (Unit {0})
  start_data_transfer zero opened message = pure tt
  start_data_transfer (suc n) opened message = do
    call_ os (sleep 3)
    call_ os clock_gettime
    epoch ← call os clock_gettime
    content ←
        (if opened then (do r ← call os fread; pure r.msg.text) else pure message.publish.content)
    p ← get
    let m = record message {
      action = publish_data;
      topic = p.client_topic;
      publish = record { time_generated_data = epoch.msg.time; content = content };
    }
    call_ os (print (publicado p.client_topic content epoch.msg.time))
    must os (send p.client_socket m)
    start_data_transfer n opened m

  unfoldable pub talk_to_server : ℕ → Bool → Message → String → PeerThread (Unit {0})
  talk_to_server n opened garbage topic = do
    strcpy topic_size topic
    modify (λ p. record p { client_topic = topic })
    fd ← socket_create os
    modify (λ p. record p { client_socket = fd })
    socket_connect os fd
    call_ os clock_gettime
    call_ os (print (conectado "Publisher"))
    must os (send fd (record garbage { action = register_publisher; topic = topic }))
    r ← call os (recv_response fd)
    if is_neg r.ret then exit 1 else (do
      modify (λ p. record p { client_id = r.msg.response.id })
      call_ os clock_gettime
      if is_ok r.msg.response.response_status
          then (do
            call_ os (print (registrado r.msg.response.id topic))
            start_data_transfer n opened garbage)
          else (do call_ os (print (registro_error r.msg.response.response_status)); exit 1))
