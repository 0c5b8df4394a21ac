-- ===== src/Bus/Worker/Stages/Monad.antt =====
-- The control flow of a stage: a state monad in which a stage goes on, leaves `process` with its
-- result, or continues its loop with an attempt and a sequence number.
use guigu_agent_bridge.Prelude.{ℕ, ok, err}
use guigu_agent_bridge.Bus.Worker.World.{World}
use guigu_agent_bridge.Bus.Worker.Events.{Exit}

pub data Flow {ℓ} (A : Type ℓ) : Type ℓ where
  go : A → Flow A
  exit : Exit → Flow A
  again : ℕ → ℕ → Flow A

abbrev pub M {ℓ} : Type 0 → Type ℓ → Type ℓ
M W A = World W → Flow A × World W

abbrev pub bind_at {ℓ κ} :
    {W : Type 0} {A : Type ℓ} {B : Type κ} → Flow A × World W → (A → M W B) → Flow B × World W
bind_at (go a, w) f = f a w
bind_at (exit r, w) f = (exit r, w)
bind_at (again attempt seq, w) f = (again attempt seq, w)

infixl 5 ◌>>=◌ ◌>>◌
abbrev pub ◌>>=◌ {ℓ κ} : {W : Type 0} {A : Type ℓ} {B : Type κ} → M W A → (A → M W B) → M W B
◌>>=◌ m f w = bind_at (m w) f

abbrev pub ◌>>◌ {κ} : {W : Type 0} {B : Type κ} → M W (Unit {0}) → M W B → M W B
◌>>◌ m k w = bind_at (m w) (λ _. k)

abbrev pub pure {ℓ} : {W : Type 0} {A : Type ℓ} → A → M W A
pure a w = (go a, w)

abbrev pub lift {ℓ} : {W : Type 0} {A : Type ℓ} → (World W → A × World W) → M W A
lift f w = let (a, w') = f w in (go a, w')

-- `return f(...).await`.
abbrev pub exits {ℓ} : {W : Type 0} {A : Type ℓ} → (World W → Exit × World W) → M W A
exits f w = let (r, w') = f w in (exit r, w')

abbrev pub or_exit : Exit → Flow (Unit {0})
or_exit (ok u) = go tt
or_exit (err e) = exit (err e)

-- `f(...).await?`.
abbrev pub try : {W : Type 0} → (World W → Exit × World W) → M W (Unit {0})
try f w = let (r, w') = f w in (or_exit r, w')
