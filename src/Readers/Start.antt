-- ===== src/Readers/Start.antt =====
-- `main` of practica3/server.c and of practica3/client.c.
pub mod Given
use mathlib.Core.Option
use sistemas_distribuidos_y.Common.{
  ℕ, ℤ, pos, is_neg, eq_ℤ, String, str_eq, Bool, true, false, not, ◌&&◌, ◌||◌, Option, none, some,
  List, ◌≡◌, ◌≢◌, refl, ◌∙◌, ◌⊎◌, inl, inr, arith, Bool-cases, Option-cases, if◌then◌else◌, World,
  fault, exited, ◌>>=◌, ◌>>◌, exit, strcpy, put, Libc, address_of, Opt, opt_i, opt_p, opt_m, opt_t,
  opt_r, getopt_loop, getopt_loop-known, getopt_loop-sets, getopt_loop-last, given, is_some,
  or_else, map_id, optarg_i, optarg_p, optarg_m, optarg_t, optarg_r, last, all_known,
}
use sistemas_distribuidos_y.Readers.Server.{Server, ServerOs, ServerThread}
use sistemas_distribuidos_y.Readers.Service.{init_server, read_output, accept_clients}
use sistemas_distribuidos_y.Readers.Server as Server
use sistemas_distribuidos_y.Readers.Client as Client
use sistemas_distribuidos_y.Readers.Client.{ClientOs, ClientThread, run_threads}

unfoldable pub is_kind : String → Bool
is_kind kind = not (not (str_eq kind "writer") && not (str_eq kind "reader"))

-- The variables of `main` of the server that its options set.
pub record ServerOptions : Type 0 where
  pub port : Option ℤ
  pub priority : Option String
  pub ratio : ℤ

-- Those of the client.
pub record ClientOptions : Type 0 where
  pub ip : Option String
  pub port : Option ℤ
  pub mode : Option String
  pub thread_num : Option ℤ

-- The bytes of `proc_name`.
abbrev pub name_size : ℕ
name_size = 6

-- No code of the client reads the name again but for its messages on errors.
unfoldable pub set_name : String → ClientThread (Unit {0})
set_name name = strcpy name_size name

abbrev pub server_defaults : ServerOptions
server_defaults = record { port = none; priority = none; ratio = pos 0 }

abbrev pub client_defaults : ClientOptions
client_defaults = record { ip = none; port = none; mode = none; thread_num = none }

-- `ip` of `main` of the server.
abbrev pub any_ip : String
any_ip = "0.0.0.0"

unfoldable pub set_ip_port : Libc → String → ℤ → ClientThread (Unit {0})
set_ip_port libc ip port = put (address_of libc ip port)

module _ (libc : Libc) where
  unfoldable pub server_switch : Opt → ServerOptions → Option ServerOptions
  server_switch (opt_p optarg) o = some (record o { port = some (libc.atoi optarg) })
  server_switch (opt_m optarg) o = some (record o { priority = some optarg })
  server_switch (opt_r optarg) o = some (record o { ratio = libc.atoi optarg })
  server_switch _ o = none

  unfoldable pub client_switch : Opt → ClientOptions → Option ClientOptions
  client_switch (opt_i optarg) o = some (record o { ip = some optarg })
  client_switch (opt_p optarg) o = some (record o { port = some (libc.atoi optarg) })
  client_switch (opt_m optarg) o = some (record o { mode = some optarg })
  client_switch (opt_t optarg) o = some (record o { thread_num = some (libc.atoi optarg) })
  client_switch _ o = none

  -- Until `n` clients were accepted.
  unfoldable pub server_main : ServerOs → (Server → Server) → List Opt → ℕ → ServerThread (Unit {0})
  server_main os meanwhile opts n = elim (getopt_loop server_switch opts server_defaults) [
    | none ↦ exit 1
    | some o ↦ (do
      priority ← given o.priority
      if not (is_kind priority) then exit 1 else (do
        port ← given o.port
        init_server os libc any_ip port priority o.ratio
        read_output os
        accept_clients os meanwhile n))
  ]

  unfoldable pub client_main : ClientOs → List Opt → ClientThread (Unit {0})
  client_main os opts = elim (getopt_loop client_switch opts client_defaults) [
    | none ↦ exit 1
    | some o ↦ (do
      thread_num ← given o.thread_num
      if is_neg thread_num || eq_ℤ thread_num (pos 0) then exit 1 else (do
        mode ← given o.mode
        if not (is_kind mode) then exit 1 else (do
          set_name "Client"
          ip ← given o.ip
          port ← given o.port
          set_ip_port libc ip port
          run_threads os mode thread_num)))
  ]
