-- ===== src/Acp/Framing/Lines.antt =====
-- Where `next_frame` of src/acp/framing.rs splits its buffer.
use guigu_agent_bridge.Prelude.{
  ℕ, suc, ◌<◌, ◌≡◌, ◌≢◌, refl, ap, Option, none, some, [], ◌∷◌, ◌++◌, ◌==◌, length, take, drop, All,
  arith, Bool-cases, inl, inr,
}
use guigu_agent_bridge.Prelude.Texts.{Text}
use guigu_agent_bridge.Acp.Framing.{newline, position}

-- The first newline of a buffer splits it, or there is none.
abbrev pub Split : Text → Option ℕ → Type 0
Split bytes none = All (λ b. b ≢ newline) bytes
Split bytes (some n) =
    (bytes ≡ take n bytes ++ newline ∷ drop (suc n) bytes)
    × All (λ b. b ≢ newline) (take n bytes)
    × (length (take n bytes) ≡ n)
    × (length (drop (suc n) bytes) < length bytes)

Split-cons :
    (b : ℕ) (s : Text) (p : Option ℕ)
    → b ≢ newline
    → Split s p
    → Split (b ∷ s) (elim p [ none ↦ none | some n ↦ some (suc n) ])
Split-cons b s none h split = (h, split)
Split-cons b s (some n) h (whole, line, size, less) =
    (ap (◌∷◌ b) whole, (h, line), omega arith, omega arith)

pub position-Split : (s : Text) → Split s (position s)
unfolding position
position-Split [] = tt
position-Split (b ∷ s) = elim (Bool-cases (b == newline)) [
  | inl e ↦ rw e (let n : b ≡ newline = ground arith in rw n (refl, tt, refl, omega arith))
  | inr e ↦ rw e (Split-cons b s (position s) (ground arith) (position-Split s))
]
