-- ===== src/Matrix/Conversation/Examples.antt =====
-- A repository in memory, and a room that is resolved twice.
use guigu_agent_bridge.Models.Task.{ConversationId}
use guigu_agent_bridge.Prelude.{
  ℕ, ◌≡◌, ◌+◌, refl, ap, ◌∙◌, Option, none, some, [], ◌∷◌, Result, ok, err, arith, Bool-cases, inl,
  inr,
}
use guigu_agent_bridge.Prelude.Texts.{
  Text, codes, text_eq, text_eq_refl, TextMap, get, put, get-put, text_eq_iff,
}
use guigu_agent_bridge.Models.Conversation.{ExternalRef, Conversation}
use guigu_agent_bridge.Matrix.Conversation.{
  StorageError, duplicate, query, Repository, reference_for, candidate_for, resolve_conversation,
}
use guigu_agent_bridge.Matrix.Conversation.Again.{
  IsPersistent, Agrees, Revisited, resolve_all, resolve_conversation-again,
}

-- A room's name, with its thread after a zero byte.
abbrev name_of : ExternalRef → Text
name_of reference = elim (reference.thread_ref) [
  | none ↦ reference.external_id
  | some root ↦ 0 ∷ root
]

abbrev Table : Type 0
Table = TextMap Conversation × ℕ

-- Only a conversation with a reference that is new is inserted.
abbrev insert_at :
    Conversation
    → Table
    → Option ExternalRef
    → Option Conversation
    → Result (Unit {0}) StorageError × Table
insert_at c w none found = (err query, w)
insert_at c w (some reference) (some old) = (err (duplicate []), w)
insert_at c w (some reference) none = (ok tt, (put (name_of reference) c (w.0), w.1))

abbrev found_at : Table → Option ExternalRef → Option Conversation
found_at w none = none
found_at w (some reference) = get (name_of reference) (w.0)

abbrev repository : Repository Table
repository = record {
  conversation_by_external_ref = λ reference w. (ok (get (name_of reference) (w.0)), w);
  insert_conversation = λ c w. insert_at c w c.external_ref (found_at w c.external_ref);
  generate = λ w. (w.1, (w.0, w.1 + 1));
}

inserted_found :
    (reference : ExternalRef) (c : Conversation) (w : Table) (found : Option Conversation)
    → (insert_at c w (some reference) found).0 ≡ ok tt
    → get (name_of reference) ((insert_at c w (some reference) found).1.0) ≡ some c
inserted_found reference c w (some old) h = absurd (ground arith)
inserted_found reference c w none h =
    get-put (name_of reference) (name_of reference) c (w.0)
    ∙ rw (text_eq_refl (name_of reference)) refl

insert_keeps :
    (name : Text) (c other : Conversation) (w : Table) (reference : Option ExternalRef)
    (found : Option Conversation)
    → found_at w reference ≡ found
    → get name (w.0) ≡ some c
    → get name ((insert_at other w reference found).1.0) ≡ some c
insert_keeps name c other w none found e h = h
insert_keeps name c other w (some reference) (some old) e h = h
insert_keeps name c other w (some reference) none e h =
    elim (Bool-cases (text_eq (name_of reference) name)) [
      | inl x ↦
          absurd (cc (e, h, ap (λ i. get i (w.0)) ((text_eq_iff (name_of reference) name).0 x)))
      | inr x ↦ get-put (name_of reference) name other (w.0) ∙ rw x h
    ]

abbrev found_in : Result (Option Conversation) StorageError → Option Conversation
found_in (ok found) = found
found_in (err e) = none

-- The row of the reference has the identifier.
abbrev Row : ExternalRef → ConversationId → Table → Type 0
Row reference id w = (c : Conversation) × (get (name_of reference) (w.0) ≡ some c) × (c.id ≡ id)

Row-Agrees :
    (reference : ExternalRef) (id : ConversationId) (w : Table)
    → Row reference id w
    → Agrees repository id (ok (get (name_of reference) (w.0)))
Row-Agrees reference id w (c, found, same) = rw found same

repository-IsPersistent : IsPersistent repository Row
repository-IsPersistent = record {
  inserted_holds = λ reference id w h. (
    candidate_for id reference,
    inserted_found reference (candidate_for id reference) w (get (name_of reference) (w.0)) h,
    refl,
  );
  lookup_holds = λ reference c w h. (c, ap found_in h, refl);
  lookup_agrees = Row-Agrees;
  lookup_keeps = λ reference asked id w h. h;
  insert_keeps = λ reference id other w h. (
    h.0,
    insert_keeps (name_of reference) h.0 other w other.external_ref (found_at w other.external_ref)
        refl h.1,
    h.2,
  );
  generate_keeps = λ reference id w h. h;
}

abbrev empty : Table
empty = ([], 1)

abbrev room : Conversation
room = candidate_for 1 (reference_for (codes "!r:x") none)

room_resolved : (resolve_conversation repository (codes "!r:x") none empty).0 ≡ ok room
unfolding resolve_conversation get
room_resolved = refl

resolve_conversation-again_example :
    Revisited repository
      (reference_for (codes "!r:x") none)
      1
      (resolve_all repository
        ((codes "!s:x", some (codes "$1")) ∷ [])
        ((resolve_conversation repository (codes "!r:x") none empty).1))
      (resolve_conversation repository (codes "!r:x") none (
        resolve_all repository
          ((codes "!s:x", some (codes "$1")) ∷ [])
          ((resolve_conversation repository (codes "!r:x") none empty).1)))
resolve_conversation-again_example =
    resolve_conversation-again repository Row repository-IsPersistent (codes "!r:x") none
      ((codes "!s:x", some (codes "$1")) ∷ []) empty room room_resolved
