-- ===== src/Matrix/Dedup/Replay.antt =====
-- How long `EventDedup` of src/matrix/dedup.rs remembers a key.
use mathlib.Core.List.{append_assoc}
use mathlib.Core.Path.{subst}
use guigu_agent_bridge.Prelude.{
  ℕ, zero, suc, ◌+◌, ◌-◌, ◌≤◌, ◌<◌, ◌≡◌, refl, sym, ap, ◌∙◌, ok, true, false, List, [], ◌∷◌, ◌++◌,
  length, drop, arith, Bool-cases, inl, inr, length-append, ◌==◌,
}
use guigu_agent_bridge.Matrix.Dedup.{Key, has, EventDedup, new, contains, mark}
use guigu_agent_bridge.Matrix.Dedup.Window.{
  has-append, key_eq_refl, remember, IsAgreed, mark-Marked, distinct,
}

abbrev pub marks : List Key → EventDedup → EventDedup
marks [] d = d
marks (key ∷ keys) d = marks keys (mark key d).1

abbrev pub remember_all : ℕ → List Key → List Key → List Key
remember_all capacity [] recent = recent
remember_all capacity (key ∷ keys) recent =
    remember_all capacity keys (remember capacity key recent)

pub marks-IsAgreed : (keys : List Key) (d : EventDedup) → IsAgreed d → IsAgreed (marks keys d)
marks-IsAgreed [] d h = h
marks-IsAgreed (key ∷ keys) d h = marks-IsAgreed keys (mark key d).1 (mark-Marked key d h).agreed

capacity-marks :
    (keys : List Key) (d : EventDedup) → IsAgreed d → (marks keys d).capacity ≡ d.capacity
capacity-marks [] d h = refl
capacity-marks (key ∷ keys) d h =
    let m = mark-Marked key d h in capacity-marks keys (mark key d).1 m.agreed ∙ m.capacity

order-marks :
    (keys : List Key) (d : EventDedup)
    → IsAgreed d
    → (marks keys d).order ≡ remember_all d.capacity keys d.order
order-marks [] d h = refl
order-marks (key ∷ keys) d h =
    let m = mark-Marked key d h in
    order-marks keys (mark key d).1 m.agreed
    ∙ ap (λ c. remember_all c keys (mark key d).1.order) m.capacity
    ∙ ap (remember_all d.capacity keys) m.order

-- A new table, for a capacity that is not zero.
pub record Fresh (capacity : ℕ) : Type 0 where
  pub table : EventDedup
  pub result : new capacity ≡ ok table
  pub agreed : IsAgreed table
  pub same_capacity : table.capacity ≡ capacity
  pub empty : table.order ≡ []

new-Fresh : (capacity : ℕ) → 1 ≤ capacity → Fresh capacity
unfolding new
new-Fresh capacity h =
    let no : (capacity == 0) ≡ false = ground arith in
    record {
      table = record { capacity = capacity; order = []; seen = [] };
      result = rw no refl;
      agreed = record {
        some_room = h;
        same = λ k. refl;
        apart = unfold distinct in refl;
        small = omega arith;
      };
      same_capacity = refl;
      empty = refl;
    }

drop-append_le : (n : ℕ) (xs ys : List Key) → n ≤ length xs → drop n (xs ++ ys) ≡ drop n xs ++ ys
drop-append_le zero xs ys h = refl
drop-append_le (suc n) [] ys h = absurd (omega arith)
drop-append_le (suc n) (x ∷ xs) ys h = drop-append_le n xs ys (omega arith)

-- The key stands in the order with fewer than `capacity - left` keys behind it.
record Recent (key : Key) (capacity left : ℕ) (order : List Key) : Type 0 where
  before : List Key
  after : List Key
  stands : order ≡ before ++ key ∷ after
  few : length after + left < capacity

remember-Recent :
    (key other : Key) (capacity left : ℕ) (order : List Key)
    → Recent key capacity (suc left) order
    → Recent key capacity left (remember capacity other order)
unfolding remember
remember-Recent key other capacity left order r = elim (Bool-cases (has other order)) [
  | inl e ↦
      rw e (record {
        before = r.before;
        after = r.after;
        stands = r.stands;
        few = omega (arith, r.few);
      })
  | inr e ↦
      let all = order ++ other ∷ [] in
      let whole : all ≡ r.before ++ key ∷ (r.after ++ other ∷ []) =
        ap (λ o. o ++ other ∷ []) r.stands ∙ append_assoc r.before (key ∷ r.after) (other ∷ []) in
      let size = length-append r.before (key ∷ (r.after ++ other ∷ [])) in
      let behind = length-append r.after (other ∷ []) in
      let n = length all - capacity in
      rw e (record {
        before = drop n r.before;
        after = r.after ++ other ∷ [];
        stands =
            ap (drop n) whole
            ∙ drop-append_le n r.before (key ∷ (r.after ++ other ∷ []))
                (omega (arith, ap length whole, size, behind, r.few));
        few = omega (arith, r.few, behind);
      })
]

marks-Recent :
    (key : Key) (others : List Key) (left : ℕ) (d : EventDedup)
    → IsAgreed d
    → Recent key d.capacity (length others + left) d.order
    → Recent key d.capacity left (marks others d).order
marks-Recent key [] left d h r = record {
  before = r.before;
  after = r.after;
  stands = r.stands;
  few = omega (arith, r.few);
}
marks-Recent key (other ∷ others) left d h r =
    let m = mark-Marked other d h in
    let again : Recent key d.capacity (suc (length others + left)) d.order = record {
      before = r.before;
      after = r.after;
      stands = r.stands;
      few = omega (arith, r.few);
    } in
    let next : Recent key d.capacity (length others + left) (mark other d).1.order =
      rw m.order (remember-Recent key other d.capacity (length others + left) d.order again) in
    subst (λ c. Recent key c left (marks others (mark other d).1).order) m.capacity
      (marks-Recent key others left (mark other d).1 m.agreed (
        subst (λ c. Recent key c (length others + left) (mark other d).1.order) (sym m.capacity)
          next))

-- A key stands last in the order after the mark that adds it.
added-Recent :
    (key : Key) (d : EventDedup)
    → IsAgreed d
    → contains key d ≡ false
    → Recent key d.capacity (d.capacity - 1) (mark key d).1.order
unfolding contains remember
added-Recent key d h e =
    let m = mark-Marked key d h in
    let old : has key d.order ≡ false = sym (h.same key) ∙ e in
    let n = length (d.order ++ key ∷ []) - d.capacity in
    let kept : (mark key d).1.order ≡ drop n d.order ++ key ∷ [] =
      m.order
      ∙ (rw old refl)
      ∙ drop-append_le n d.order (key ∷ [])
          (omega (arith, length-append d.order (key ∷ []), h.small, h.some_room)) in
    record { before = drop n d.order; after = []; stands = kept; few = omega (arith, h.some_room) }

-- A new table of any capacity but zero answers, after any sequence of marks, as a first-in first-out
-- list does: a key that is in the list changes nothing, any other is put last, and the first keys are
-- dropped while there are more than `capacity`. So a key that is marked again is not moved back. The
-- table never has more keys than its capacity.
pub contains-marks :
    (capacity : ℕ) (keys : List Key) (key : Key)
    → 1 ≤ capacity
    → (d : EventDedup) × (new capacity ≡ ok d)
      × (contains key (marks keys d) ≡ has key (remember_all capacity keys []))
      × (length (marks keys d).order ≤ capacity)
unfolding contains
contains-marks capacity keys key h =
    let f = new-Fresh capacity h in
    let all = marks-IsAgreed keys f.table f.agreed in
    let same : (marks keys f.table).order ≡ remember_all capacity keys [] =
      order-marks keys f.table f.agreed
      ∙ ap (λ c. remember_all c keys f.table.order) f.same_capacity
      ∙ ap (remember_all capacity keys) f.empty in
    (
      f.table,
      f.result,
      all.same key ∙ ap (has key) same,
      omega (arith, all.small, capacity-marks keys f.table f.agreed, f.same_capacity),
    )

-- A key that a mark has added is still there after fewer marks than the capacity.
pub contains-mark :
    (key : Key) (others : List Key) (d : EventDedup)
    → IsAgreed d
    → contains key d ≡ false
    → length others < d.capacity
    → contains key (marks others (mark key d).1) ≡ true
unfolding contains has
contains-mark key others d h e few =
    let m = mark-Marked key d h in
    let added = added-Recent key d h e in
    let r = marks-Recent key others 0 (mark key d).1 m.agreed (record {
      before = added.before;
      after = added.after;
      stands = added.stands;
      few = omega (arith, added.few, m.capacity);
    }) in
    (marks-IsAgreed others (mark key d).1 m.agreed).same key
    ∙ ap (has key) r.stands
    ∙ ground (arith, has-append key r.before (key ∷ r.after), key_eq_refl key)
