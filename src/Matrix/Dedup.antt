-- ===== src/Matrix/Dedup.antt =====
-- `EventDedup` of src/matrix/dedup.rs. The hash set is a list, whose order stands for the set's own.
pub mod Window
pub mod Replay
use guigu_agent_bridge.Prelude.{
  ℕ, suc, Result, ok, err, Bool, true, false, not, ◌&&◌, ◌||◌, List, [], ◌∷◌, ◌++◌, ltb, ◌==◌,
  if◌then◌else◌, length,
}
use guigu_agent_bridge.Prelude.Texts.{Text, text_eq}
use guigu_agent_bridge.Matrix.{MatrixError, configuration}

-- A room and an event.
abbrev pub Key : Type 0
Key = Text × Text

unfoldable pub key_eq : Key → Key → Bool
key_eq (room, event) (other_room, other_event) =
    text_eq room other_room && text_eq event other_event

unfoldable pub has : Key → List Key → Bool
has key [] = false
has key (k ∷ keys) = key_eq key k || has key keys

-- A set's `remove`.
unfoldable pub without : Key → List Key → List Key
without key [] = []
without key (k ∷ keys) = if key_eq key k then without key keys else k ∷ without key keys

pub record EventDedup : Type 0 where
  pub capacity : ℕ
  pub order : List Key
  pub seen : List Key

unfoldable pub new : ℕ → Result EventDedup MatrixError
new capacity =
    if capacity == 0
    then err configuration
    else ok (record { capacity = capacity; order = []; seen = [] })

unfoldable pub contains : Key → EventDedup → Bool
contains key d = has key d.seen

-- The `while` loop of `mark`: the order and the set that it leaves.
unfoldable pub evict : ℕ → List Key → List Key → List Key × List Key
evict capacity [] seen = ([], seen)
evict capacity (old ∷ order) seen =
    let rest = evict capacity order (without old seen) in
    if ltb capacity (suc (length order)) then rest else (old ∷ order, seen)

unfoldable pub mark : Key → EventDedup → Bool × EventDedup
mark key d =
    let (order, seen) = evict d.capacity (d.order ++ key ∷ []) (key ∷ d.seen) in
    if has key d.seen then (false, d) else (true, record d { order = order; seen = seen })
