-- ===== src/Readers/Service/Visit.antt =====
-- The thread of practica3/proxy.c that serves a client, from its request to the end.
use sistemas_distribuidos_y.Common.{
  ℕ, suc, ◌<◌, ℤ, pos, is_neg, dec, false, List, ◌∷◌, ◌≡◌, refl, ap, ◌∙◌, lt→ltb, arith,
  if◌then◌else◌, update, World, ok, ended, >>=-ok,
}
use sistemas_distribuidos_y.Readers.{max_threads, same}
use sistemas_distribuidos_y.Readers.Requests.{change_counter}
use sistemas_distribuidos_y.Readers.Server.{
  Request, Response, Server, Call, close, recv_request, send_response, lock, unlock, cond_signal,
  free_fd_mutex, current_threads_mutex, not_full, ServerOs, do_request,
}
use sistemas_distribuidos_y.Readers.Server.Parts.{IsIdle}
use sistemas_distribuidos_y.Readers.Server.Alone.{IsReliable, do_request-alone}
use sistemas_distribuidos_y.Readers.Service.{
  receive_request, respond, set_value_fd, thread_ends, talk_2_client,
}

module _ (os : ServerOs) (id : ℕ) (fd : ℤ) (w : World Server Call) (reliable : IsReliable os)
    (idle : IsIdle w.st.shared) (received : is_neg (os w.trace (recv_request fd)).ret ≡ false)
    (answered : (tr : List Call) (r : Response) → is_neg (os tr (send_response fd r)).ret ≡ false)
    (inside : id < max_threads) where
  abbrev request : Request
  request = (os w.trace (recv_request fd)).msg.request

  abbrev asked : World Server Call
  asked = record w { trace = recv_request fd ∷ w.trace }

  receive_request_lem : receive_request os fd w ≡ ok request asked
  unfolding receive_request
  receive_request_lem = ground (arith, received)

  respond_lem :
      (r : Response) (v : World Server Call)
      → respond os r fd v ≡ ok tt (record v { trace = send_response fd r ∷ v.trace })
  unfolding respond
  respond_lem r v = rw (answered v.trace r) refl

  set_value_fd_lem :
      (v : World Server Call)
      → set_value_fd os (λ s. s) id (pos 0) v
        ≡ ok tt (record {
          st = record v.st { client_sockets = update v.st.client_sockets id (pos 0) };
          trace = unlock free_fd_mutex ∷ lock free_fd_mutex ∷ v.trace;
        })
  unfolding set_value_fd
  set_value_fd_lem v = rw (lt→ltb id max_threads inside) refl

  -- The end of the thread, when its request has been answered in the state `s`.
  abbrev finished : Response → Server → List Call → World Server Call
  finished r s tr = record {
    st = record s {
      client_sockets = update s.client_sockets id (pos 0);
      current_threads = dec s.current_threads;
    };
    trace =
        unlock current_threads_mutex
        ∷ cond_signal not_full
        ∷ lock current_threads_mutex
        ∷ unlock free_fd_mutex
        ∷ lock free_fd_mutex
        ∷ close (s.client_sockets id)
        ∷ send_response fd r
        ∷ tr;
  }

  -- If the system receives the request and sends the response, its clock can be read, no sleep fails,
  -- the file of the counter can be opened to be written, no other request is served meanwhile and the client has an entry of the table, then the thread of
  -- the client ends after it has sent the response with the counter, raised by one for a writer, then
  -- closed the socket in its entry, and then signalled that there is room. Its entry is free again, one
  -- thread less is counted, and but for these, the counter and the ratio nothing has changed.
  pub talk_2_client-alone :
      let counter = change_counter request.action w.st.counter in
      (time : ℤ) × (tr : List Call) × (talk_2_client os (λ s. s) id fd w
        ≡ ended (record {
          st = record w.st {
            counter = counter;
            shared = record w.st.shared {
              ratio_counter =
                  if same request.action w.st.shared.priority
                  then suc w.st.shared.ratio_counter
                  else 0;
            };
            client_sockets = update w.st.client_sockets id (pos 0);
            current_threads = dec w.st.current_threads;
          };
          trace =
              unlock current_threads_mutex
              ∷ cond_signal not_full
              ∷ lock current_threads_mutex
              ∷ unlock free_fd_mutex
              ∷ lock free_fd_mutex
              ∷ close (w.st.client_sockets id)
              ∷ send_response fd
                  (record { action = request.action; counter = counter; waiting_time = time })
              ∷ tr;
        }))
  unfolding talk_2_client thread_ends
  talk_2_client-alone =
      let (time, v, e, st, free) = do_request-alone os request asked reliable idle in
      let response : Response = record {
        action = request.action;
        counter = change_counter request.action w.st.counter;
        waiting_time = time;
      } in
      (
        time,
        v.trace,
        >>=-ok (receive_request os fd) _ w asked request receive_request_lem
            ∙ >>=-ok (do_request os (λ s. s) request) _ asked v response e
            ∙ >>=-ok (respond os response fd) _ v _ tt (respond_lem response v)
            ∙ >>=-ok (set_value_fd os (λ s. s) id (pos 0)) _ _ _ tt (
                set_value_fd_lem (record v {
                  trace = close (v.st.client_sockets id) ∷ send_response fd response ∷ v.trace;
                }))
            ∙ ap (λ q. ended (finished response q v.trace)) st,
      )
