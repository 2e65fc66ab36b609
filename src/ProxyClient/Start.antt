-- ===== src/ProxyClient/Start.antt =====
-- `main` of practica4/publisher.c and of practica4/subscriber.c, which differ in the name that they set.
use mathlib.Core.Option
use sistemas_distribuidos_y.Common.{
  ℕ, ℤ, String, Bool, true, false, ◌&&◌, Option, none, some, List, ◌≡◌, refl, ◌∙◌, ◌⊎◌, inl, inr,
  arith, Option-cases, World, fault, exited, ◌>>=◌, ◌>>◌, modify, exit, fits, strcpy, Opt, opt_i,
  opt_p, opt_m, getopt_loop, getopt_loop-known, getopt_loop-sets, Libc, address_of, given, is_some,
  or_else, map_id, optarg_i, optarg_p, optarg_m, last, all_known,
}
use sistemas_distribuidos_y.Broker.Types.{Message}
use sistemas_distribuidos_y.ProxyClient.{Peer, Call, PeerOs, PeerThread, talk_to_server}

-- The bytes of `proc_name`.
abbrev pub name_size : ℕ
name_size = 32

unfoldable pub set_name : String → PeerThread (Unit {0})
set_name name = do strcpy name_size name; modify (λ p. record p { proc_name = name })

-- The variables of `main`.
pub record Options : Type 0 where
  pub ip : Option String
  pub port : Option ℤ
  pub topic : Option String

abbrev pub no_options : Options
no_options = record { ip = none; port = none; topic = none }

unfoldable pub set_ip_port : Libc → String → ℤ → PeerThread (Unit {0})
set_ip_port libc ip port = modify (λ p. record p { addr = address_of libc ip port })

abbrev pub known : Opt → Bool
known (opt_i a) = true
known (opt_p a) = true
known (opt_m a) = true
known _ = false

-- Whether each of the three options is there.
abbrev pub all_given : List Opt → Bool
all_given opts =
    is_some (last optarg_i opts) && (is_some (last optarg_p opts) && is_some (last optarg_m opts))

module _ (libc : Libc) where
  unfoldable pub switch : Opt → Options → Option Options
  switch (opt_i optarg) o = some (record o { ip = some optarg })
  switch (opt_p optarg) o = some (record o { port = some (libc.atoi optarg) })
  switch (opt_m optarg) o = some (record o { topic = some optarg })
  switch _ o = none

  -- `n`, `opened` and `garbage` are those of `talk_to_server`.
  unfoldable pub client_main :
      String → PeerOs → List Opt → ℕ → Bool → Message → PeerThread (Unit {0})
  client_main name os opts n opened garbage = elim (getopt_loop switch opts no_options) [
    | none ↦ exit 1
    | some o ↦ (do
      set_name name
      ip ← given o.ip
      port ← given o.port
      set_ip_port libc ip port
      topic ← given o.topic
      talk_to_server os n opened garbage topic ip port
      exit 0)
  ]

  unfoldable pub publisher_main : PeerOs → List Opt → ℕ → Bool → Message → PeerThread (Unit {0})
  publisher_main = client_main "Publisher"

  unfoldable pub subscriber_main : PeerOs → List Opt → ℕ → Bool → Message → PeerThread (Unit {0})
  subscriber_main = client_main "Subscriber"

  switches : (x : Opt) (o : Options) → is_some (switch x o) ≡ known x
  unfolding switch
  switches x o = ground arith

  switch-ip :
      (x : Opt) (o o' : Options)
      → switch x o ≡ some o'
      → o'.ip ≡ or_else (Option.map (λ a. a) (optarg_i x)) o.ip
  unfolding switch
  switch-ip x o o' e = ground arith

  switch-port :
      (x : Opt) (o o' : Options)
      → switch x o ≡ some o'
      → o'.port ≡ or_else (Option.map libc.atoi (optarg_p x)) o.port
  unfolding switch
  switch-port x o o' e = ground arith

  switch-topic :
      (x : Opt) (o o' : Options)
      → switch x o ≡ some o'
      → o'.topic ≡ or_else (Option.map (λ a. a) (optarg_m x)) o.topic
  unfolding switch
  switch-topic x o o' e = ground arith

  -- What a client of the broker does with its options, if the array of its name has room for its name:
  -- with one that it does not know it exits with status 1; without `--ip`, `--port` or `--topic` it reads
  -- a variable that was never set; and with all three it registers for the last topic, at the last
  -- address and under its name, and exits with status 0 if that returns.
  pub client_main_lem :
      (name : String) (os : PeerOs) (opts : List Opt) (n : ℕ) (opened : Bool) (garbage : Message)
      (w : World Peer Call)
      → fits name_size name ≡ true
      → ((all_known known opts ≡ false)
          × (client_main name os opts n opened garbage w ≡ exited 1 w))
        ⊎ ((all_known known opts ≡ true)
            × (all_given opts ≡ false)
            × (client_main name os opts n opened garbage w ≡ fault))
        ⊎ ((ip : String) × (port : String) × (topic : String) × (all_known known opts ≡ true)
            × (last optarg_i opts ≡ some ip)
            × (last optarg_p opts ≡ some port)
            × (last optarg_m opts ≡ some topic)
            × (client_main name os opts n opened garbage w
                ≡ (talk_to_server os n opened garbage topic ip (libc.atoi port) >> exit 0)
                    (record w {
                      st = record w.st {
                        proc_name = name;
                        addr = address_of libc ip (libc.atoi port);
                      };
                    })))
  unfolding client_main set_name set_ip_port strcpy
  client_main_lem name os opts n opened garbage w short =
      elim (getopt_loop-known switch known switches opts no_options) [
        | inr (odd, e) ↦ inl (odd, ground arith)
        | inl (fine, o, e) ↦
            let ip_ : o.ip ≡ last optarg_i opts =
              getopt_loop-sets switch (λ o. o.ip) optarg_i (λ a. a) switch-ip opts no_options o refl
                e
              ∙ map_id (last optarg_i opts) in
            let port_ : o.port ≡ Option.map libc.atoi (last optarg_p opts) =
              getopt_loop-sets switch (λ o. o.port) optarg_p libc.atoi switch-port opts no_options o
                refl e in
            let topic_ : o.topic ≡ last optarg_m opts =
              getopt_loop-sets switch (λ o. o.topic) optarg_m (λ a. a) switch-topic opts no_options
                o refl e
              ∙ map_id (last optarg_m opts) in
            elim (Option-cases (last optarg_i opts)) [
              | inl i ↦ inr (inl (fine, ground arith, ground arith))
              | inr (ip, i) ↦ elim (Option-cases (last optarg_p opts)) [
                | inl p ↦ inr (inl (fine, ground arith, ground arith))
                | inr (port, p) ↦ elim (Option-cases (last optarg_m opts)) [
                  | inl m ↦ inr (inl (fine, ground arith, ground arith))
                  | inr (topic, m) ↦ inr (inr (ip, port, topic, fine, i, p, m, ground arith))
                ]
              ]
            ]
      ]
