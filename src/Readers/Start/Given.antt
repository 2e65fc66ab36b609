-- ===== src/Readers/Start/Given.antt =====
-- What the programs of practica3 do with the options that they are given.
use mathlib.Core.Option
use sistemas_distribuidos_y.Common.{
  ℕ, ℤ, pos, is_neg, String, Bool, true, false, none, some, List, ◌≡◌, ◌≢◌, refl, ◌∙◌, ◌⊎◌, inl,
  inr, arith, Bool-cases, Option-cases, World, fault, exited, ◌>>◌, strcpy, Libc, SockaddrIn, Opt,
  opt_i, opt_p, opt_m, opt_t, opt_r, getopt_loop-known, getopt_loop-sets, getopt_loop-last, is_some,
  or_else, map_id, optarg_p, optarg_m, optarg_t, optarg_r, last, all_known,
}
use sistemas_distribuidos_y.Readers.Server.{Server, ServerOs, ServerThread}
use sistemas_distribuidos_y.Readers.Service.{init_server, read_output, accept_clients}
use sistemas_distribuidos_y.Readers.Server as Server
use sistemas_distribuidos_y.Readers.Client as Client
use sistemas_distribuidos_y.Readers.Start.{
  any_ip, is_kind, ServerOptions, ClientOptions, server_defaults, client_defaults, server_switch,
  client_switch, server_main, client_main, set_name,
}
use sistemas_distribuidos_y.Readers.Client.{ClientOs, ClientThread, run_threads}

abbrev pub server_known : Opt → Bool
server_known (opt_p a) = true
server_known (opt_m a) = true
server_known (opt_r a) = true
server_known _ = false

abbrev pub client_known : Opt → Bool
client_known (opt_i a) = true
client_known (opt_p a) = true
client_known (opt_m a) = true
client_known (opt_t a) = true
client_known _ = false

module _ (libc : Libc) where
  server_switches :
      (x : Opt) (o : ServerOptions) → is_some (server_switch libc x o) ≡ server_known x
  unfolding server_switch
  server_switches x o = ground arith

  server_switch-port :
      (x : Opt) (o o' : ServerOptions)
      → server_switch libc x o ≡ some o'
      → o'.port ≡ or_else (Option.map libc.atoi (optarg_p x)) o.port
  unfolding server_switch
  server_switch-port x o o' e = ground arith

  server_switch-priority :
      (x : Opt) (o o' : ServerOptions)
      → server_switch libc x o ≡ some o'
      → o'.priority ≡ or_else (Option.map (λ a. a) (optarg_m x)) o.priority
  unfolding server_switch
  server_switch-priority x o o' e = ground arith

  server_switch-ratio :
      (x : Opt) (o o' : ServerOptions)
      → server_switch libc x o ≡ some o'
      → some o'.ratio ≡ or_else (Option.map libc.atoi (optarg_r x)) (some o.ratio)
  unfolding server_switch
  server_switch-ratio x o o' e = ground arith

  -- The ratio of a command line: that of its last `--ratio`, or 0.
  abbrev pub ratio_of : List Opt → ℤ
  ratio_of opts = elim (last optarg_r opts) [ none ↦ pos 0 | some a ↦ libc.atoi a ]

  -- What the server does with its options: with one that it does not know it exits with status 1;
  -- without `--priority` it reads a variable that was never set; with a last `--priority` that is none of
  -- the two it exits with status 1; with a good one and without `--port` it again reads a variable that
  -- was never set; and with both it starts at the last port, with the last priority, and with the
  -- last ratio or 0.
  pub server_main_lem :
      (os : ServerOs) (meanwhile : Server → Server) (opts : List Opt) (n : ℕ)
      (w : World Server Server.Call)
      → ((all_known server_known opts ≡ false)
          × (server_main libc os meanwhile opts n w ≡ exited 1 w))
        ⊎ ((all_known server_known opts ≡ true)
            × (last optarg_m opts ≡ none)
            × (server_main libc os meanwhile opts n w ≡ fault))
        ⊎ ((priority : String) × (all_known server_known opts ≡ true)
            × (last optarg_m opts ≡ some priority)
            × (is_kind priority ≡ false)
            × (server_main libc os meanwhile opts n w ≡ exited 1 w))
        ⊎ ((priority : String) × (all_known server_known opts ≡ true)
            × (last optarg_m opts ≡ some priority)
            × (is_kind priority ≡ true)
            × (last optarg_p opts ≡ none)
            × (server_main libc os meanwhile opts n w ≡ fault))
        ⊎ ((priority : String) × (port : String) × (all_known server_known opts ≡ true)
            × (last optarg_m opts ≡ some priority)
            × (is_kind priority ≡ true)
            × (last optarg_p opts ≡ some port)
            × (server_main libc os meanwhile opts n w
                ≡ (init_server os libc any_ip (libc.atoi port) priority (ratio_of opts)
                      >> (read_output os >> accept_clients os meanwhile n))
                    w))
  unfolding server_main
  server_main_lem os meanwhile opts n w =
      elim (getopt_loop-known (server_switch libc) server_known server_switches opts
        server_defaults) [
          | inr (odd, e) ↦ inl (odd, ground arith)
          | inl (fine, o, e) ↦
              let priority_ : o.priority ≡ last optarg_m opts =
                getopt_loop-sets (server_switch libc) (λ o. o.priority) optarg_m (λ a. a)
                  server_switch-priority opts server_defaults o refl e
                ∙ map_id (last optarg_m opts) in
              let port_ : o.port ≡ Option.map libc.atoi (last optarg_p opts) =
                getopt_loop-sets (server_switch libc) (λ o. o.port) optarg_p libc.atoi
                  server_switch-port opts server_defaults o refl e in
              let ratio_ : some o.ratio
                  ≡ or_else (Option.map libc.atoi (last optarg_r opts)) (some (pos 0)) =
                getopt_loop-last (server_switch libc) (λ o. some o.ratio) optarg_r libc.atoi
                  server_switch-ratio opts server_defaults o e in
              let ratio : o.ratio ≡ ratio_of opts = ground arith in
              elim (Option-cases (last optarg_m opts)) [
                | inl m ↦ inr (inl (fine, m, ground arith))
                | inr (priority, m) ↦ elim (Bool-cases (is_kind priority)) [
                  | inr bad ↦ inr (inr (inl (priority, fine, m, bad, ground arith)))
                  | inl good ↦ elim (Option-cases (last optarg_p opts)) [
                    | inl p ↦ inr (inr (inr (inl (priority, fine, m, good, p, ground arith))))
                    | inr (port, p) ↦
                        inr (inr (inr (inr (priority, port, fine, m, good, p, ground arith))))
                  ]
                ]
              ]
        ]

  client_switches :
      (x : Opt) (o : ClientOptions) → is_some (client_switch libc x o) ≡ client_known x
  unfolding client_switch
  client_switches x o = ground arith

  client_switch-mode :
      (x : Opt) (o o' : ClientOptions)
      → client_switch libc x o ≡ some o'
      → o'.mode ≡ or_else (Option.map (λ a. a) (optarg_m x)) o.mode
  unfolding client_switch
  client_switch-mode x o o' e = ground arith

  client_switch-thread_num :
      (x : Opt) (o o' : ClientOptions)
      → client_switch libc x o ≡ some o'
      → o'.thread_num ≡ or_else (Option.map libc.atoi (optarg_t x)) o.thread_num
  unfolding client_switch
  client_switch-thread_num x o o' e = ground arith

  -- With options that it knows, a last number of threads above 0 and a last mode that is one of the two,
  -- the client writes the 0 at the end of its name behind the array of its name. What it does from there
  -- on is not defined.
  pub client_main-overflow :
      (os : ClientOs) (opts : List Opt) (threads mode : String) (w : World SockaddrIn Client.Call)
      → all_known client_known opts ≡ true
      → last optarg_t opts ≡ some threads
      → last optarg_m opts ≡ some mode
      → is_neg (libc.atoi threads) ≡ false
      → libc.atoi threads ≢ pos 0
      → is_kind mode ≡ true
      → client_main libc os opts w ≡ fault
  unfolding client_main set_name strcpy
  client_main-overflow os opts threads mode w fine t m positive nonzero good =
      elim (getopt_loop-known (client_switch libc) client_known client_switches opts
        client_defaults) [
          | inr (odd, e) ↦ absurd (ground arith)
          | inl (_, o, e) ↦
              let mode_ : o.mode ≡ last optarg_m opts =
                getopt_loop-sets (client_switch libc) (λ o. o.mode) optarg_m (λ a. a)
                  client_switch-mode opts client_defaults o refl e
                ∙ map_id (last optarg_m opts) in
              let thread_num_ : o.thread_num ≡ Option.map libc.atoi (last optarg_t opts) =
                getopt_loop-sets (client_switch libc) (λ o. o.thread_num) optarg_t libc.atoi
                  client_switch-thread_num opts client_defaults o refl e in
              ground arith
        ]
