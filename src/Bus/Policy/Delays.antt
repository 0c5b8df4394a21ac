-- ===== src/Bus/Policy/Delays.antt =====
-- The delays between attempts in src/bus/worker.rs.
use guigu_agent_bridge.Prelude.{
  ltb, if◌then◌else◌, Bool-cases, inl, inr, ℕ, zero, suc, ◌+◌, ◌-◌, ◌*◌, ◌^◌, ◌≤◌, ◌≡◌, min, arith,
  ap,
}
use native.Mathlib.Nat.{pow-succ', mul_left_comm}
use guigu_agent_bridge.Bus.Policy.Backoff.{exponential, max_duration, shift_for, delay_for}

pow_mono_add : (k a : ℕ) → 2 ^ a ≤ 2 ^ (k + a)
pow_mono_add zero a = let e : zero + a ≡ a = omega arith in rw e (omega arith)
pow_mono_add (suc k) a =
    let e : suc k + a ≡ suc (k + a) = omega arith in
    rw e (omega (arith, pow-succ' 2 (k + a), pow_mono_add k a))

pow_mono : (a b : ℕ) → a ≤ b → 2 ^ a ≤ 2 ^ b
pow_mono a b h = let e : b ≡ (b - a) + a = omega arith in rw e (pow_mono_add (b - a) a)

mul_mono : (d j k : ℕ) → j ≤ k → d * j ≤ d * k
mul_mono d j k h = grind arith

next_delay :
    (base max_delay n : ℕ)
    → let delay = delay_for (exponential base max_delay) in
      let bounded = λ (d : ℕ). min (min d max_duration) max_delay in
      delay (suc (suc n)) ≡ (if ltb n 31 then bounded (2 * delay (suc n)) else delay (suc n))
unfolding delay_for
next_delay base max_delay n = elim (Bool-cases (ltb n 31)) [
  | inl h ↦
      let e : shift_for (suc (suc n)) ≡ suc n = ground arith in
      let f : shift_for (suc n) ≡ n = ground arith in
      rw (h, e, f)
        (omega (arith, ap (λ (p : ℕ). base * p) (pow-succ' 2 n), mul_left_comm base 2 (2 ^ n)))
  | inr h ↦ let e : shift_for (suc (suc n)) ≡ shift_for (suc n) = ground arith in rw (h, e)
]

-- For every base and maximum, exponential delays never pass the maximum or `Duration::MAX`, never
-- fall from one failed attempt to the next, and start at the base within these bounds; each is
-- twice the one before, within these bounds, up to the 32nd attempt, and the same as the one before
-- after that.
pub exponential_delays :
    (base max_delay n : ℕ)
    → let delay = delay_for (exponential base max_delay) in
      let bounded = λ (d : ℕ). min (min d max_duration) max_delay in
      (delay n ≤ max_delay)
      × (delay n ≤ max_duration)
      × (delay n ≤ delay (suc n))
      × (delay 1 ≡ bounded base)
      × (delay (suc (suc n)) ≡ (if ltb n 31 then bounded (2 * delay (suc n)) else delay (suc n)))
unfolding delay_for
exponential_delays base max_delay n = (
  omega arith,
  omega arith,
  omega (
    arith,
    mul_mono base (2 ^ shift_for n) (2 ^ shift_for (suc n))
        (pow_mono (shift_for n) (shift_for (suc n)) (omega arith)),
  ),
  omega arith,
  next_delay base max_delay n,
)
