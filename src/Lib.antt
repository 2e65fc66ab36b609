-- ===== src/Lib.antt =====
-- The exercises on distributed and concurrent systems of this repository.
--
-- practica4 is a publish/subscribe broker. A client connects, registers as a publisher or as a
-- subscriber of a topic and is served by its own thread; a message of a publisher is brought to the
-- subscribers of its topic one after the other, by a thread for each, or by threads that wait for
-- each other so that all send at the same time.
-- practica2 is a server P2 and two clients P1 and P3 that are shut down in order, P1 before P3, by
-- messages with Lamport clocks.
--
-- practica3 is a server of a counter for readers and writers, of which one kind has priority, and a
-- client that sends it many requests at once.
--
-- practica1 has three pairs of a server and a client that send each other lines: with receives that
-- block, with receives that do not, and with a thread for each client.
--
-- The files of the broker (practica4/proxy_broker.h, practica4/proxy_broker.c, practica4/broker.c):
--   Broker/Types.antt          the types, the global variables (record Broker) and the system calls
--   Broker/Topics.antt         get_topic_id, create_topic
--   Broker/Clients.antt        shift_client_list, unregister
--   Broker/Publish.antt        publish_msg, send_sequential, send_parallel
--   Broker/Publish/Delivery.antt, Publish/Calls.antt
--                              whom a message is brought to; the calls of each mode and their answers
--   Broker/Just.antt           send_just, the threads of a fair publication as a step relation
--   Broker/Just/Barrier.antt, Just/Stuck.antt
--                              what the threads of a fair publication wait for
--   Broker/Sessions.antt       talk_to_client, talk_to_publisher, talk_to_subscriber, sighandler
--   Broker/Setup.antt          init_broker, the socket functions
--   Broker/Start.antt          main of broker.c, with its options
--   Broker/Directory.antt      the specification: the topics with their clients, as lists
--   Broker/Invariant.antt      what holds between two requests; Broker/Reachable.antt the histories
--   Broker/Creation.antt, Counting.antt, Registration, Unregistration, Roundtrip.antt
--                              the operations against the directory
--   Broker/Visit.antt, Broker/Visit/Publisher.antt, Broker/Served.antt
--                              the whole threads of a subscriber and of a publisher; one message of a
--                              publisher
-- The files of its clients (practica4/proxy_client.c, publisher.c and subscriber.c):
--   ProxyClient.antt           talk_to_server, transfer_publisher, transfer_subscriber, sighandler
--   ProxyClient/Session.antt, ProxyClient/Latency.antt
--                              registration and removal; the latency of a message
--   ProxyClient/Start.antt     main of publisher.c and of subscriber.c, with their options
--   ProxyClient/Exchange.antt, ProxyClient/Publication.antt
--                              a subscriber with the thread of the broker that serves it; a message from a
--                              publisher over the broker to a subscriber
-- The files of the shutdown (practica2/proxy.h, practica2/proxy.c, P1.c, P2.c and P3.c):
--   Shutdown/Types.antt, Messages.antt, Client.antt, Server.antt
--                              the processes, one thread each
--   Shutdown/Start.antt        main of the three
--   Shutdown/System.antt       the three processes and their sockets, under a schedule
--   Shutdown/Loop.antt         the receive loop of a client's thread against its moves in the system
--   Shutdown/Serving.antt, Serving/Reading.antt, Serving/Answering.antt
--                              the receive loop of the server's thread against its moves in the system
--   Shutdown/Stages.antt, Order.antt, Termination.antt
--                              the stages of the shutdown and what follows from them
--   ProxyClient/Old/Publisher.antt, Old/Subscriber.antt, Old/Agreement.antt, Old/Data.antt
--                              practica4/Old/proxy_publisher.c and proxy_subscriber.c, and how they agree
--                              with proxy_client.c, which replaced them
-- The files of the readers and writers (practica3/proxy.c, server.c and client.c):
--   Readers.antt               the search of get_free_fd, set_priority, the signals of do_request
--   Readers/Table.antt, Readers/Turn.antt
--                              the table of sockets; whose turn it is
--   Readers/Requests.antt      do_request by any number of threads, as a step relation
--   Readers/Requests/Counts.antt, Invariant.antt, Guard.antt, Exclusion.antt, Progress.antt,
--   Readers/Requests/Termination.antt, Requests/Stuck.antt
--                              what holds in every history of it
--   Readers/Server.antt, Readers/Service.antt
--                              the calls of do_request as one thread makes them; the rest of the server
--   Readers/Server/Parts.antt, Readers/Server/Alone.antt
--                              one request on its own
--   Readers/Server/Steps.antt  the same request as a history of the threads of Readers/Requests
--   Readers/Service/Slots.antt, Readers/Service/Visit.antt
--                              the entry of the table that a client gets; the thread that serves it
--   Readers/Client.antt        talk_2_server and the threads of the client
--   Readers/Start.antt, Readers/Start/Given.antt
--                              main of server.c and of client.c; what they do with their options
--   Readers/Exchange.antt      a thread of the client with the thread of the server that serves it
-- The files of practica1:
--   Chat/Buffers.antt, Chat/Talk.antt
--                              the buffers, and what the programs have in common
--   Chat/SimpleServer.antt, SimpleClient.antt, PollingServer.antt, PollingClient.antt
--                              ServidorSimple and ServidorSimpleNoBloqueante
--   Chat/ThreadServer.antt, ThreadClient.antt
--                              ServidorMultiHilo
--   Chat/Exchange.antt         a line from one end to the other
--   Chat/Dialogue.antt         the two loops of ServidorSimple, one at each end
--   Chat/ThreadServer/Batches.antt, Chat/ThreadClient/Overflow.antt
--                              the table of threads; the block of the greeting
-- Common has the shared lists, arrays, integers, counts and the monad of a thread: a state, a trace of
-- the system calls, and the outcomes exit, pthread_exit and fault (a use of a value that was never set,
-- or a position outside of an array). Common/Options has the loop over the options of a command line,
-- Common/Text the arrays that strings are copied to, and Common/Net the addresses.
--
-- The system is a parameter `Os` that answers each call; it may look at all the calls before. What a
-- theorem needs of an answer is among its hypotheses. A thread of a server that serves for ever is cut
-- after a number of rounds, which is an argument. The loops over arrays have as many rounds as the code
-- gives them. The loop of the client's signal handler, `socket_connect` of practica2 and the receive
-- loops of its processes are given a number of rounds, and return whether it was enough.
--
-- In Readers/Server and Readers/Service, what other threads do to the global variables while one waits
-- for a lock or a condition is a parameter, `meanwhile`; it is the identity for a thread on its own. In
-- Readers/Requests the threads are interleaved in any order; a parameter of the relation says whether a
-- wait may end by itself. The change of the ratio is one step there, and counter++ is a load and a store.
-- The counter that the server reads from its file is not negative. In practica1 a pointer has 8 bytes,
-- and the messages on the progress are left out. A float is kept as the operations that it comes from.
--
-- An array is a function from positions, and what stands behind it is the value of that function; a
-- write or a lookup of a topic behind the end is a fault. Variables that the code does not set before
-- use are arguments (Garbage). The int counters do not overflow. A recv gets a whole message. A
-- registration runs under mutex3 and is one step; unregister and publish_msg take no lock against it in
-- the code, and are taken here as one step as well. A step that the code leaves undefined, like the
-- removal of an id that no entry of the array has, or the write of a subscriber behind its array, has no
-- next state in Broker/Reachable. Left out: the times that are printed, and the texts
-- of errors.
--
-- The options that getopt_long_only returns are a list, and atoi, htons and inet_addr are parameters
-- (Libc). A use of a variable that no option has set is a fault, and so is a copy of a string to an array
-- that has no place for it: in practica2 and in the client of practica3 that is what set_name does, so the
-- rest of main stands on its own there (run_client, run_server, run_threads).
pub mod Common
pub mod Broker
pub mod Shutdown
pub mod ProxyClient
pub mod Readers
pub mod Chat
