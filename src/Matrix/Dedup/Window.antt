-- ===== src/Matrix/Dedup/Window.antt =====
-- The order and the set of src/matrix/dedup.rs hold the same keys.
use guigu_agent_bridge.Prelude.{
  ℕ, zero, suc, ◌-◌, ◌≤◌, ◌≡◌, ◌↔◌, refl, sym, ap, ◌∙◌, Bool, true, false, not, ◌&&◌, ◌||◌, List,
  [], ◌∷◌, ◌++◌, ltb, if◌then◌else◌, length, drop, arith, Bool-cases, inl, inr,
}
use guigu_agent_bridge.Prelude.Texts.{text_eq_iff}
use guigu_agent_bridge.Matrix.Dedup.{Key, key_eq, has, without, EventDedup, contains, evict, mark}

pub key_eq_iff : (j k : Key) → (key_eq j k ≡ true) ↔ (j ≡ k)
unfolding key_eq
key_eq_iff (r, e) (s, f) = (
  λ h. cc ((text_eq_iff r s).0 (ground arith), (text_eq_iff e f).0 (ground arith)),
  λ h. ground (arith, (text_eq_iff r s).1 (ap (λ k. k.0) h), (text_eq_iff e f).1 (ap (λ k. k.1) h)),
)

pub key_eq_refl : (k : Key) → key_eq k k ≡ true
key_eq_refl k = (key_eq_iff k k).1 refl

has-without :
    (k old : Key) (keys : List Key)
    → has k (without old keys) ≡ (if key_eq old k then false else has k keys)
unfolding has without
has-without k old [] = ground arith
has-without k old (x ∷ keys) =
    ground (arith, has-without k old keys, key_eq_iff old x, key_eq_iff k x, key_eq_iff old k)

pub has-append : (k : Key) (xs ys : List Key) → has k (xs ++ ys) ≡ (has k xs || has k ys)
unfolding has
has-append k [] ys = refl
has-append k (x ∷ xs) ys = ground (arith, has-append k xs ys)

-- No key is listed twice.
unfoldable pub distinct : List Key → Bool
distinct [] = true
distinct (k ∷ keys) = not (has k keys) && distinct keys

-- A first-in first-out list: a key that is not in it is put last, and the first ones are dropped above
-- the capacity.
unfoldable pub remember : ℕ → Key → List Key → List Key
remember capacity key recent =
    let all = recent ++ key ∷ [] in
    if has key recent then recent else drop (length all - capacity) all

-- The set has the keys of the order, which are different and no more than the capacity.
pub record IsAgreed (d : EventDedup) : Type 0 where
  pub some_room : 1 ≤ d.capacity
  pub same : (k : Key) → has k d.seen ≡ has k d.order
  pub apart : distinct d.order ≡ true
  pub small : length d.order ≤ d.capacity

-- An order and its set.
pub record Agrees (keys : List Key) (r : List Key × List Key) : Type 0 where
  pub order : r.0 ≡ keys
  pub same : (k : Key) → has k r.1 ≡ has k keys
  pub apart : distinct keys ≡ true

same_rest :
    (old k : Key) (order seen : List Key)
    → has old order ≡ false
    → has k seen ≡ has k (old ∷ order)
    → has k (without old seen) ≡ has k order
unfolding has
same_rest old k order seen h e = elim (Bool-cases (key_eq old k)) [
  | inl x ↦ rw (has-without k old seen, x) (sym h ∙ ap (λ j. has j order) ((key_eq_iff old k).0 x))
  | inr x ↦
      rw (has-without k old seen, x)
        (ground (arith, x, e, (key_eq_iff old k).1, (key_eq_iff k old).0))
]

evict-Agrees :
    (capacity : ℕ) (order seen : List Key)
    → distinct order ≡ true
    → ((k : Key) → has k seen ≡ has k order)
    → Agrees (drop (length order - capacity) order) (evict capacity order seen)
unfolding evict distinct
evict-Agrees capacity [] seen d same =
    let e : 0 - capacity ≡ 0 = omega arith in
    rw e (record { order = refl; same = same; apart = refl })
evict-Agrees capacity (old ∷ order) seen d same =
    elim (Bool-cases (ltb capacity (suc (length order)))) [
      | inl e ↦
          let one : suc (length order) - capacity ≡ suc (length order - capacity) = ground arith in
          rw (e, one)
            (evict-Agrees capacity order (without old seen) (ground arith)
              λ k. same_rest old k order seen (ground arith) (same k))
      | inr e ↦
          let none_over : suc (length order) - capacity ≡ 0 = ground arith in
          rw (e, none_over) (record { order = refl; same = same; apart = d })
    ]

distinct-append :
    (keys : List Key) (key : Key)
    → distinct keys ≡ true
    → has key keys ≡ false
    → distinct (keys ++ key ∷ []) ≡ true
unfolding distinct has
distinct-append [] key d h = refl
distinct-append (k ∷ keys) key d h = ground (
  arith,
  distinct-append keys key,
  has-append k keys (key ∷ []),
  key_eq_iff k key,
  key_eq_iff key k,
  key_eq_refl k,
)

drop_le : (n : ℕ) (keys : List Key) → length (drop n keys) ≡ length keys - n
drop_le zero keys = omega arith
drop_le (suc n) [] = omega arith
drop_le (suc n) (k ∷ keys) = omega (arith, drop_le n keys)

-- What a mark does to a table.
pub record Marked (key : Key) (d : EventDedup) : Type 0 where
  pub answer : (mark key d).0 ≡ not (contains key d)
  pub order : (mark key d).1.order ≡ remember d.capacity key d.order
  pub capacity : (mark key d).1.capacity ≡ d.capacity
  pub agreed : IsAgreed (mark key d).1

pub mark-Marked : (key : Key) (d : EventDedup) → IsAgreed d → Marked key d
unfolding mark contains remember
mark-Marked key d h = elim (Bool-cases (has key d.seen)) [
  | inl e ↦ record {
    answer = rw e refl;
    order = rw (e, sym (h.same key) ∙ e) refl;
    capacity = rw e refl;
    agreed = rw e h;
  }
  | inr e ↦
      let old : has key d.order ≡ false = sym (h.same key) ∙ e in
      let all = d.order ++ key ∷ [] in
      let left =
        evict-Agrees d.capacity all (key ∷ d.seen) (distinct-append d.order key h.apart old)
          λ k. unfold has in ground (arith, has-append k d.order (key ∷ []), h.same k) in
      record {
        answer = rw e refl;
        order = rw (e, old) left.order;
        capacity = rw e refl;
        agreed = rw e (record {
          some_room = h.some_room;
          same = λ k. left.same k ∙ ap (has k) (sym left.order);
          apart = rw left.order left.apart;
          small = rw left.order (omega (arith, drop_le (length all - d.capacity) all, h.some_room));
        });
      }
]
