-- ===== src/Shutdown/Start.antt =====
-- `main` of practica2/P1.c, P2.c and P3.c.
use sistemas_distribuidos_y.Common.{
  ℕ, ℤ, String, Bool, List, [], ◌∷◌, length, ◌≡◌, ◌≢◌, refl, ◌⊎◌, inl, inr, arith, World, fault,
  exited, ◌>>◌, modify, exit, strcpy, Libc, address_of,
}
use sistemas_distribuidos_y.Shutdown.Types.{Message, Process, Call, ProcessOs, ProcessThread}
use sistemas_distribuidos_y.Shutdown.Client.{run_client}
use sistemas_distribuidos_y.Shutdown.Server.{run_server}

-- The bytes of `proc_name`.
abbrev pub name_size : ℕ
name_size = 2

unfoldable pub set_name : String → ProcessThread (Unit {0})
set_name name = do strcpy name_size name; modify (λ p. record p { proc_name = name })

unfoldable pub set_ip_port : Libc → String → ℤ → ProcessThread (Unit {0})
set_ip_port libc ip port = modify (λ p. record p { addr = address_of libc ip port })

-- The programs with their arguments, `args[1]` and so on.
module _ (libc : Libc) (os : ProcessOs) where
  unfoldable pub p1_main : List String → ℕ → ℕ → ProcessThread Bool
  p1_main (ip ∷ port ∷ []) tries n = do
    set_name "P1"
    set_ip_port libc ip (libc.atoi port)
    run_client os tries n
  p1_main _ tries n = exit 1

  unfoldable pub p2_main : List String → ℕ → Message → ProcessThread Bool
  p2_main (ip ∷ port ∷ []) n garbage = do
    set_name "P2"
    set_ip_port libc ip (libc.atoi port)
    run_server os n garbage
  p2_main _ n garbage = exit 1

  unfoldable pub p3_main : List String → ℕ → ℕ → ProcessThread Bool
  p3_main (ip ∷ port ∷ []) tries n = do
    set_name "P3"
    set_ip_port libc ip (libc.atoi port)
    run_client os tries n
  p3_main _ tries n = exit 1

  -- Each of the three processes exits with status 1 if it does not have two arguments. If it has them,
  -- it writes the 0 at the end of its name behind the array of its name.
  pub mains_lem :
      (args : List String) (tries n : ℕ) (garbage : Message) (w : World Process Call)
      → ((length args ≢ 2)
          × (p1_main args tries n w ≡ exited 1 w)
          × (p2_main args n garbage w ≡ exited 1 w)
          × (p3_main args tries n w ≡ exited 1 w))
        ⊎ ((length args ≡ 2)
            × (p1_main args tries n w ≡ fault)
            × (p2_main args n garbage w ≡ fault)
            × (p3_main args tries n w ≡ fault))
  unfolding p1_main p2_main p3_main set_name strcpy
  mains_lem [] tries n garbage w = inl (λ e. omega (arith, e), refl, refl, refl)
  mains_lem (a ∷ []) tries n garbage w = inl (λ e. omega (arith, e), refl, refl, refl)
  mains_lem (a ∷ b ∷ []) tries n garbage w = inr (refl, refl, refl, refl)
  mains_lem (a ∷ b ∷ c ∷ more) tries n garbage w = inl (λ e. omega (arith, e), refl, refl, refl)
