-- ===== src/Common/Options.antt =====
-- The loop that the programs read their options with.
use Prim.Native.String.{String}
use mathlib.Core.Path.{◌≡◌, refl, sym, ap, ◌∙◌}
use mathlib.Core.Logic.{◌⊎◌, inl, inr}
use mathlib.Core.Bool.{Bool, true, false, ◌&&◌}
use mathlib.Core.Option
use mathlib.Core.Option.{Option, none, some}
use mathlib.Core.List.{List, [], ◌∷◌}
use native.Mathlib.Omega.{arith}
use sistemas_distribuidos_y.Common.Process.{Thread, undefined, pure}

-- What `getopt_long_only` returns: a letter, with `optarg`, or something that is none of the letters.
pub data Opt : Type 0 where
  opt_i opt_p opt_m opt_t opt_r : (optarg : String) → Opt
  unknown : Opt

-- `while ((opt = getopt_long_only(…)) != -1)`. `switch` is the body; it is none after the usage.
unfoldable pub getopt_loop : {O : Type 0} → (Opt → O → Option O) → List Opt → O → Option O
getopt_loop switch [] o = some o
getopt_loop switch (x ∷ xs) o = elim (switch x o) [
  | none ↦ none
  | some o' ↦ getopt_loop switch xs o'
]

-- A variable that may not have been set.
abbrev pub given : {S C A : Type 0} → Option A → Thread S C A
given none = undefined
given (some a) = pure a

abbrev pub or_else : {A : Type 0} → Option A → Option A → Option A
or_else none d = d
or_else (some a) d = some a

abbrev pub is_some : {A : Type 0} → Option A → Bool
is_some none = false
is_some (some a) = true

-- The arguments of an option.
abbrev pub optarg_i : Opt → Option String
optarg_i (opt_i a) = some a
optarg_i _ = none

abbrev pub optarg_p : Opt → Option String
optarg_p (opt_p a) = some a
optarg_p _ = none

abbrev pub optarg_m : Opt → Option String
optarg_m (opt_m a) = some a
optarg_m _ = none

abbrev pub optarg_t : Opt → Option String
optarg_t (opt_t a) = some a
optarg_t _ = none

abbrev pub optarg_r : Opt → Option String
optarg_r (opt_r a) = some a
optarg_r _ = none

-- The last argument that an option has on a command line.
unfoldable pub last : (Opt → Option String) → List Opt → Option String
last arg [] = none
last arg (x ∷ xs) = or_else (last arg xs) (arg x)

unfoldable pub all_known : (Opt → Bool) → List Opt → Bool
all_known known [] = true
all_known known (x ∷ xs) = known x && all_known known xs

or_else_assoc : {A : Type 0} (a b c : Option A) → or_else (or_else a b) c ≡ or_else a (or_else b c)
or_else_assoc none b c = refl
or_else_assoc (some a) b c = refl

or_else-none : {A : Type 0} (a : Option A) → or_else a none ≡ a
or_else-none none = refl
or_else-none (some a) = refl

map-or_else :
    {A B : Type 0} (f : A → B) (a b : Option A)
    → Option.map f (or_else a b) ≡ or_else (Option.map f a) (Option.map f b)
map-or_else f none b = refl
map-or_else f (some a) b = refl

pub Option-cases : {A : Type 0} (a : Option A) → (a ≡ none) ⊎ ((b : A) × (a ≡ some b))
Option-cases none = inl refl
Option-cases (some a) = inr (a, refl)

module _ {O : Type 0} (switch : Opt → O → Option O) (known : Opt → Bool) where
  -- The body prints the usage exactly for the options that are not known.
  abbrev pub Switches : Type 0
  Switches = (x : Opt) (o : O) → is_some (switch x o) ≡ known x

  pub getopt_loop-known :
      Switches
      → (xs : List Opt) (o : O)
      → ((all_known known xs ≡ true) × (o' : O) × (getopt_loop switch xs o ≡ some o'))
        ⊎ ((all_known known xs ≡ false) × (getopt_loop switch xs o ≡ none))
  unfolding getopt_loop all_known
  getopt_loop-known s [] o = inl (refl, o, refl)
  getopt_loop-known s (x ∷ xs) o = elim (Option-cases (switch x o)) [
    | inl e ↦ let here = s x o in inr (ground arith, ground arith)
    | inr (o1, e) ↦
        let here = s x o in
        elim (getopt_loop-known s xs o1) [
          | inl (k', o2, e') ↦ inl (ground arith, o2, ground arith)
          | inr (k', e') ↦ inr (ground arith, ground arith)
        ]
  ]

module _ {O B : Type 0} (switch : Opt → O → Option O) (field : O → Option B)
    (arg : Opt → Option String) (f : String → B)
    (sets : (x : Opt) (o o' : O)
      → switch x o ≡ some o'
      → field o' ≡ or_else (Option.map f (arg x)) (field o)) where
  -- A variable that one option sets holds what its last occurrence says.
  pub getopt_loop-last :
      (xs : List Opt) (o o' : O)
      → getopt_loop switch xs o ≡ some o'
      → field o' ≡ or_else (Option.map f (last arg xs)) (field o)
  unfolding getopt_loop last
  getopt_loop-last [] o o' e = ground arith
  getopt_loop-last (x ∷ xs) o o' e = elim (Option-cases (switch x o)) [
    | inl n ↦ absurd (ground arith)
    | inr (o1, e1) ↦
        let rest = getopt_loop-last xs o1 o' (ground arith) in
        let here = sets x o o1 e1 in
        rest
        ∙ ap (or_else (Option.map f (last arg xs))) here
        ∙ sym (or_else_assoc (Option.map f (last arg xs)) (Option.map f (arg x)) (field o))
        ∙ ap (λ a. or_else a (field o)) (sym (map-or_else f (last arg xs) (arg x)))
  ]

  -- The same for a variable that is not set before the loop.
  pub getopt_loop-sets :
      (xs : List Opt) (o o' : O)
      → field o ≡ none
      → getopt_loop switch xs o ≡ some o'
      → field o' ≡ Option.map f (last arg xs)
  getopt_loop-sets xs o o' unset e =
      getopt_loop-last xs o o' e
      ∙ ap (or_else (Option.map f (last arg xs))) unset
      ∙ or_else-none (Option.map f (last arg xs))

pub map_id : {A : Type 0} (a : Option A) → Option.map (λ b. b) a ≡ a
map_id none = refl
map_id (some a) = refl
