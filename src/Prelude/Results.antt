-- ===== src/Prelude/Results.antt =====
-- Rust's `Result`, with its error type as a parameter, and the chain that `?` makes.
use mathlib.Core.Path.{◌≡◌, refl}
use mathlib.Core.Logic.{◌⊎◌, inl, inr}
use mathlib.Core.Bool.{Bool, true, false}
use mathlib.Core.Option.{Option, none, some}

pub data Result {ℓ κ} (A : Type ℓ) (E : Type κ) : Type (ℓ ⊔ κ) where
  ok : A → Result A E
  err : E → Result A E

module _ {ℓ κ} {A : Type ℓ} {E : Type κ} where
  abbrev pub is_ok : Result A E → Bool
  is_ok (ok a) = true
  is_ok (err e) = false

  abbrev pub map_err {μ} : {F : Type μ} → (E → F) → Result A E → Result A F
  map_err f (ok a) = ok a
  map_err f (err e) = err (f e)

  pub Result-cases : (r : Result A E) → ((a : A) × (r ≡ ok a)) ⊎ ((e : E) × (r ≡ err e))
  Result-cases (ok a) = inl (a, refl)
  Result-cases (err e) = inr (e, refl)

infixl 5 ◌>>=◌
abbrev pub ◌>>=◌ {ℓ κ μ} :
    {A : Type ℓ} {B : Type κ} {E : Type μ} → Result A E → (A → Result B E) → Result B E
ok a >>= f = f a
err e >>= f = err e

-- `option.ok_or(error)`.
abbrev pub ok_or {ℓ κ} : {A : Type ℓ} {E : Type κ} → E → Option A → Result A E
ok_or e none = err e
ok_or e (some a) = ok a

-- `return Err(error)` unless the test holds.
abbrev pub ensure {κ} : {E : Type κ} → Bool → E → Result (Unit {0}) E
ensure true e = ok tt
ensure false e = err e

-- A success satisfies the predicate.
abbrev pub After {ℓ κ μ} : {A : Type ℓ} {E : Type κ} → (A → Type μ) → Result A E → Type μ
After P (ok a) = P a
After P (err e) = Unit

pub bind-After {ℓ κ μ ν ξ} :
    {A : Type ℓ} {B : Type κ} {E : Type μ} (P : A → Type ν) (Q : B → Type ξ) (r : Result A E)
    (next : A → Result B E)
    → After P r
    → ((a : A) → P a → After Q (next a))
    → After Q (r >>= next)
bind-After P Q (ok a) next h k = k a h
bind-After P Q (err e) next h k = tt

pub ensure-After {ℓ κ μ} :
    {B : Type ℓ} {E : Type κ} (Q : B → Type μ) (b : Bool) (e : E) (next : Unit {0} → Result B E)
    → (b ≡ true → After Q (next tt))
    → After Q (ensure b e >>= next)
ensure-After Q true e next k = k refl
ensure-After Q false e next k = tt

pub ok_or-After {ℓ κ μ ν} :
    {A : Type ℓ} {B : Type κ} {E : Type μ} (Q : B → Type ν) (e : E) (o : Option A)
    (next : A → Result B E)
    → ((a : A) → o ≡ some a → After Q (next a))
    → After Q (ok_or e o >>= next)
ok_or-After Q e none next k = tt
ok_or-After Q e (some a) next k = k a refl
