-- ===== src/ProxyClient/Old/Agreement.antt =====
-- The two programs of practica4/Old against practica4/proxy_client.c, which replaced them.
use sistemas_distribuidos_y.Common.{ℕ, ℤ, String, eq_iff, Bool, ◌≡◌, refl, arith, strcpy, World}
use sistemas_distribuidos_y.Broker.Types.{Message}
use sistemas_distribuidos_y.ProxyClient.{
  publisher, subscriber, Peer, Call, PeerOs, sighandler, type_of, transfer_publisher,
  transfer_subscriber, start_data_transfer, talk_to_server, socket_create, socket_connect,
  connection_line,
}
use sistemas_distribuidos_y.ProxyClient.Old.Publisher
use sistemas_distribuidos_y.ProxyClient.Old.Subscriber

type_of-publisher : (name : String) → name ≡ "Publisher" → type_of name ≡ publisher
unfolding type_of
type_of-publisher name e = rw ((eq_iff name "Publisher").1 e) refl

type_of-subscriber : (name : String) → name ≡ "Subscriber" → type_of name ≡ subscriber
unfolding type_of
type_of-subscriber name e = rw e refl

-- For a client of the type publisher and of that name, the old program is removed as the new one is,
-- and registers as the new one does up to the first round of its transfer of data: with the same calls
-- and the same outcome, whatever the system answers.
pub publisher_agrees :
    (os : PeerOs) (n : ℕ) (opened : Bool) (garbage : Message) (topic ip : String) (port : ℤ)
    (w : World Peer Call)
    → w.st.proc_name ≡ "Publisher"
    → w.st.client_type ≡ publisher
    → (Publisher.sighandler os n garbage w ≡ sighandler os n garbage w)
      × (Publisher.talk_to_server os 0 opened garbage topic w
          ≡ talk_to_server os 0 opened garbage topic ip port w)
unfolding connection_line sighandler talk_to_server start_data_transfer transfer_publisher
    socket_create socket_connect Publisher.sighandler Publisher.talk_to_server
    Publisher.start_data_transfer strcpy
publisher_agrees os n opened garbage topic ip port w name type =
    (ground arith, ground (arith, type_of-publisher w.st.proc_name name))

-- For a client of the type subscriber and of that name, the old program is removed as the new one is,
-- and registers as the new one does up to the first round of its transfer of data: with the same calls
-- and the same outcome, whatever the system answers.
pub subscriber_agrees :
    (os : PeerOs) (n : ℕ) (opened : Bool) (garbage : Message) (topic ip : String) (port : ℤ)
    (w : World Peer Call)
    → w.st.proc_name ≡ "Subscriber"
    → w.st.client_type ≡ subscriber
    → (Subscriber.sighandler os n garbage w ≡ sighandler os n garbage w)
      × (Subscriber.talk_to_server os 0 garbage topic ip port w
          ≡ talk_to_server os 0 opened garbage topic ip port w)
unfolding connection_line sighandler talk_to_server start_data_transfer transfer_subscriber
    socket_create socket_connect Subscriber.sighandler Subscriber.talk_to_server
    Subscriber.start_data_transfer strcpy
subscriber_agrees os n opened garbage topic ip port w name type =
    (ground arith, ground (arith, type_of-subscriber w.st.proc_name name))
