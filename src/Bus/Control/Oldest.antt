-- ===== src/Bus/Control/Oldest.antt =====
-- The entry of a table with the lowest sequence number, `iter().min_by_key(...)` of
-- src/bus/control.rs, and its removal.
use guigu_agent_bridge.Prelude.{
  ℕ, suc, ◌≤◌, ◌≡◌, refl, Option, none, some, true, [], ◌∷◌, leb, if◌then◌else◌, length, ◌⊎◌, inl,
  inr, arith, Option-cases,
}
use guigu_agent_bridge.Prelude.Maps.{
  Map, lookup, remove, contains_key, lookup-remove, length-remove-lt,
}

module _ {ℓ} {V : Type ℓ} where
  abbrev older : (V → ℕ) → ℕ × V → Option (ℕ × V) → Option (ℕ × V)
  older f e none = some e
  older f e (some d) = if leb (f e.1) (f d.1) then some e else some d

  unfoldable pub min_by_key : (V → ℕ) → Map V → Option (ℕ × V)
  min_by_key f [] = none
  min_by_key f (e ∷ m) = older f e (min_by_key f m)

  unfoldable pub displace_oldest : (V → ℕ) → Map V → Map V
  displace_oldest f m = elim (min_by_key f m) [ none ↦ m | some e ↦ remove e.0 m ]

  min_by_key_found :
      (f : V → ℕ) (m : Map V) (e : ℕ × V) → min_by_key f m ≡ some e → contains_key e.0 m ≡ true
  unfolding min_by_key lookup
  min_by_key_found f [] e h = ground arith
  min_by_key_found f ((j, w) ∷ m) e h = ground (arith, min_by_key_found f m e)

  min_by_key_none : (f : V → ℕ) (m : Map V) → min_by_key f m ≡ none → m ≡ []
  unfolding min_by_key
  min_by_key_none f [] h = refl
  min_by_key_none f (e ∷ m) h = ground arith

  pub length-displace_oldest :
      (f : V → ℕ) (m : Map V) → 1 ≤ length m → suc (length (displace_oldest f m)) ≤ length m
  unfolding displace_oldest
  length-displace_oldest f m h = elim (Option-cases (min_by_key f m)) [
    | inl e ↦ absurd (ground (arith, min_by_key_none f m e))
    | inr (e, p) ↦ rw (p, displace_oldest) (length-remove-lt e.0 m (min_by_key_found f m e p))
  ]

  -- Displacing forgets one entry at most, and changes no other.
  pub lookup-displace_oldest :
      (f : V → ℕ) (m : Map V) (j : ℕ)
      → (lookup j (displace_oldest f m) ≡ none) ⊎ (lookup j (displace_oldest f m) ≡ lookup j m)
  unfolding displace_oldest
  lookup-displace_oldest f m j = elim (Option-cases (min_by_key f m)) [
    | inl e ↦ inr (ground arith)
    | inr (e, p) ↦ ground (arith, lookup-remove e.0 j m)
  ]
