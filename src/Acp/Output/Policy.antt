-- ===== src/Acp/Output/Policy.antt =====
-- The sizes that `derive` of src/acp/output_policy.rs chooses.
use guigu_agent_bridge.Prelude.{
  ℕ, ◌≤◌, ◌<◌, ◌≡◌, ◌⊎◌, inl, inr, refl, ok, err, length, arith, Bool-cases, Option, none, some,
  ◌≢◌, [], ◌∷◌, Result, is_empty, if◌then◌else◌,
}
use guigu_agent_bridge.Prelude.Texts.{Text, codes}
use guigu_agent_bridge.Acp.Output.{
  io, DurableOutputPolicy, is_valid, validate, policy_for, OutputSpoolError, Filesystem, parent_of,
  unwrap_or, derived_at, derived_in, derive,
}
use guigu_agent_bridge.Acp.Output.Ranges.{Fits}

-- A delivery is no longer than a segment and a segment than the turn. A text within the turn's limit
-- is cut into segments and into deliveries of whole characters.
pub record IsOrdered (p : DurableOutputPolicy) : Type 0 where
  pub some_delivery : 1 ≤ p.matrix_segment_bytes
  pub matrix_le : p.matrix_segment_bytes ≤ p.spool_segment_bytes
  pub spool_le : p.spool_segment_bytes ≤ p.max_output_bytes
  pub max_le : p.max_output_bytes ≤ p.process_quota_bytes
  pub segments_fit :
      (text : Text) → length text ≤ p.max_output_bytes → Fits p.spool_segment_bytes text
  pub deliveries_fit :
      (text : Text) → length text ≤ p.max_output_bytes → Fits p.matrix_segment_bytes text

policy_for-IsOrdered :
    (spool_root : Text) (turn_max : ℕ)
    → 1 ≤ turn_max
    → turn_max ≤ 268_435_456
    → IsOrdered (policy_for spool_root turn_max)
policy_for-IsOrdered spool_root turn_max pos small = record {
  some_delivery = omega arith;
  matrix_le = omega arith;
  spool_le = omega arith;
  max_le = small;
  segments_fit = λ text h. omega arith;
  deliveries_fit = λ text h. omega arith;
}

module _ (fs : Filesystem) (database : Text) (turn_max : ℕ) where
  -- The directory that holds the spool's: the database's own, or the working directory where the
  -- database is named without one.
  pub data IsHome (current : Text) : Text → Type 0 where
    beside : (path : Text) → fs.parent database ≡ some path → path ≢ [] → IsHome current path
    nameless : fs.parent database ≡ none → IsHome current current
    empty : fs.parent database ≡ some [] → IsHome current current

  -- What `derive` gives, by the first thing that goes wrong.
  pub data Derived (r : Result DurableOutputPolicy OutputSpoolError) : Type 0 where
    no_current : (e : OutputSpoolError) → fs.current_dir ≡ err e → r ≡ err e → Derived r
    no_home :
        (current home : Text) (e : OutputSpoolError)
        → fs.current_dir ≡ ok current
        → IsHome current home
        → fs.canonicalize home ≡ err e
        → r ≡ err e
        → Derived r
    out_of_range :
        (current home root : Text)
        → fs.current_dir ≡ ok current
        → IsHome current home
        → fs.canonicalize home ≡ ok root
        → (turn_max ≡ 0) ⊎ (268_435_456 < turn_max)
        → r ≡ err io
        → Derived r
    ordered :
        (current home root : Text) (p : DurableOutputPolicy)
        → fs.current_dir ≡ ok current
        → IsHome current home
        → fs.canonicalize home ≡ ok root
        → 1 ≤ turn_max
        → turn_max ≤ 268_435_456
        → r ≡ ok p
        → p.spool_root ≡ fs.join root (codes "acp-output-spool-v1")
        → p.max_output_bytes ≡ turn_max
        → IsOrdered p
        → Derived r

  parent-IsHome :
      (current : Text) (o : Option Text)
      → fs.parent database ≡ o
      → IsHome current (
          unwrap_or fs current
            (elim o [ none ↦ none | some path ↦ if is_empty path then none else some path ]))
  parent-IsHome current none e = nameless e
  parent-IsHome current (some []) e = empty e
  parent-IsHome current (some (b ∷ path)) e = beside (b ∷ path) e (λ x. absurd (cc x))

  derived_at-Derived :
      (current home : Text) (c : Result Text OutputSpoolError)
      → fs.current_dir ≡ ok current
      → IsHome current home
      → fs.canonicalize home ≡ c
      → Derived (derived_at fs turn_max c)
  unfolding validate
  derived_at-Derived current home (err e) here h c = no_home current home e here h c refl
  derived_at-Derived current home (ok root) here h c =
      let spool_root = fs.join root (codes "acp-output-spool-v1") in
      elim (Bool-cases (is_valid (policy_for spool_root turn_max))) [
        | inl e ↦
            let pos : 1 ≤ turn_max = ground arith in
            let small : turn_max ≤ 268_435_456 = ground arith in
            rw e (
              ordered current home root (policy_for spool_root turn_max) here h c pos small refl
                refl refl (policy_for-IsOrdered spool_root turn_max pos small))
        | inr e ↦ rw e (out_of_range current home root here h c (ground arith) refl)
      ]

  derived_in-Derived :
      (d : Result Text OutputSpoolError)
      → fs.current_dir ≡ d
      → Derived (derived_in fs database turn_max d)
  derived_in-Derived (err e) here = no_current e here refl
  derived_in-Derived (ok current) here =
      let home = unwrap_or fs current (parent_of fs database) in
      derived_at-Derived current home (fs.canonicalize home) here
        (parent-IsHome current (fs.parent database) refl) refl

  -- `derive` fails when there is no working directory, even for a database in another one; when the
  -- directory for the spool cannot be resolved; or, with an I/O error, when the turn limit is not from
  -- one byte to the process quota. Else its policy has the spool in that directory, the limit, and
  -- sizes that are ordered. That directory is the database's own, or the working directory where the
  -- database's is empty or there is none.
  pub derive-IsOrdered : Derived (derive fs database turn_max)
  unfolding derive
  derive-IsOrdered = derived_in-Derived fs.current_dir refl
