-- ===== src/Broker/Start.antt =====
-- `main` of practica4/broker.c.
use mathlib.Core.Option
use sistemas_distribuidos_y.Common.{
  ℕ, ℤ, String, str_eq, Bool, true, false, not, ◌&&◌, Option, none, some, List, ◌≡◌, refl, ◌∙◌, ◌⊎◌,
  inl, inr, arith, Bool-cases, Option-cases, if◌then◌else◌, World, fault, exited, ◌>>=◌, ◌>>◌, exit,
  Opt, opt_p, opt_m, getopt_loop, getopt_loop-known, getopt_loop-sets, Libc, given, is_some,
  or_else, map_id, optarg_p, optarg_m, last, all_known,
}
use sistemas_distribuidos_y.Broker.Types.{Broker, Call, BrokerOs, BrokerThread}
use sistemas_distribuidos_y.Broker.Setup.{init_broker, accept_clients}

-- The variables of `main` that its options set.
pub record Options : Type 0 where
  pub port : Option ℤ
  pub mode : Option String

abbrev pub no_options : Options
no_options = record { port = none; mode = none }

unfoldable pub is_mode : String → Bool
is_mode mode =
    not (
      not (str_eq mode "secuencial") && (not (str_eq mode "paralelo") && not (str_eq mode "justo")))

-- `ip` of `main`.
abbrev pub any_ip : String
any_ip = "0.0.0.0"

abbrev pub known : Opt → Bool
known (opt_p a) = true
known (opt_m a) = true
known _ = false

module _ (libc : Libc) where
  unfoldable pub switch : Opt → Options → Option Options
  switch (opt_p optarg) o = some (record o { port = some (libc.atoi optarg) })
  switch (opt_m optarg) o = some (record o { mode = some optarg })
  switch _ o = none

  -- Until `n` clients were accepted.
  unfoldable pub main : BrokerOs → List Opt → ℕ → BrokerThread (Unit {0})
  main os opts n = elim (getopt_loop switch opts no_options) [
    | none ↦ exit 1
    | some o ↦ (do
      mode ← given o.mode
      if not (is_mode mode)
          then exit 1
          else (do port ← given o.port; init_broker os libc any_ip port mode; accept_clients os n))
  ]

  switches : (x : Opt) (o : Options) → is_some (switch x o) ≡ known x
  unfolding switch
  switches x o = ground arith

  switch-port :
      (x : Opt) (o o' : Options)
      → switch x o ≡ some o'
      → o'.port ≡ or_else (Option.map libc.atoi (optarg_p x)) o.port
  unfolding switch
  switch-port x o o' e = ground arith

  switch-mode :
      (x : Opt) (o o' : Options)
      → switch x o ≡ some o'
      → o'.mode ≡ or_else (Option.map (λ a. a) (optarg_m x)) o.mode
  unfolding switch
  switch-mode x o o' e = ground arith

  pub main_lem :
      (os : BrokerOs) (opts : List Opt) (n : ℕ) (w : World Broker Call)
      → ((all_known known opts ≡ false) × (main os opts n w ≡ exited 1 w))
        ⊎ ((all_known known opts ≡ true) × (last optarg_m opts ≡ none) × (main os opts n w ≡ fault))
        ⊎ ((mode : String) × (all_known known opts ≡ true)
            × (last optarg_m opts ≡ some mode)
            × (is_mode mode ≡ false)
            × (main os opts n w ≡ exited 1 w))
        ⊎ ((mode : String) × (all_known known opts ≡ true)
            × (last optarg_m opts ≡ some mode)
            × (is_mode mode ≡ true)
            × (last optarg_p opts ≡ none)
            × (main os opts n w ≡ fault))
        ⊎ ((mode : String) × (port : String) × (all_known known opts ≡ true)
            × (last optarg_m opts ≡ some mode)
            × (is_mode mode ≡ true)
            × (last optarg_p opts ≡ some port)
            × (main os opts n w
                ≡ (init_broker os libc any_ip (libc.atoi port) mode >> accept_clients os n) w))
  unfolding main
  main_lem os opts n w = elim (getopt_loop-known switch known switches opts no_options) [
    | inr (odd, e) ↦ inl (odd, ground arith)
    | inl (fine, o, e) ↦
        let mode_ : o.mode ≡ last optarg_m opts =
          getopt_loop-sets switch (λ o. o.mode) optarg_m (λ a. a) switch-mode opts no_options o refl
            e
          ∙ map_id (last optarg_m opts) in
        let port_ : o.port ≡ Option.map libc.atoi (last optarg_p opts) =
          getopt_loop-sets switch (λ o. o.port) optarg_p libc.atoi switch-port opts no_options o
            refl e in
        elim (Option-cases (last optarg_m opts)) [
          | inl m ↦ inr (inl (fine, m, ground arith))
          | inr (mode, m) ↦ elim (Bool-cases (is_mode mode)) [
            | inr bad ↦ inr (inr (inl (mode, fine, m, bad, ground arith)))
            | inl good ↦ elim (Option-cases (last optarg_p opts)) [
              | inl p ↦ inr (inr (inr (inl (mode, fine, m, good, p, ground arith))))
              | inr (port, p) ↦ inr (inr (inr (inr (mode, port, fine, m, good, p, ground arith))))
            ]
          ]
        ]
  ]
