-- ===== src/Matrix/Conversation/Again.antt =====
-- Resolving a room or a thread again, in src/matrix/conversation.rs.
use guigu_agent_bridge.Models.Task.{ConversationId}
use mathlib.Core.Path.{subst}
use guigu_agent_bridge.Prelude.{
  ℕ, ◌≡◌, ◌≢◌, refl, sym, ap, Option, none, some, true, false, ◌||◌, List, [], ◌∷◌, Result, ok, err,
  arith, Bool-cases, inl, inr,
}
use guigu_agent_bridge.Prelude.Texts.{Text}
use guigu_agent_bridge.Models.Conversation.{ExternalRef, Conversation}
use guigu_agent_bridge.Matrix.{MatrixError, storage}
use guigu_agent_bridge.Matrix.Conversation.{
  StorageError, open_failed, migrate, query, duplicate, integrity_violation, not_found,
  out_of_range, malformed, Repository, is_invalid, thread_is_invalid, reference_for, candidate_for,
  read_back, inserted, looked_up, resolve_conversation,
}

module _ {W : Type 0} (repository : Repository W) where
  -- An answer that does not contradict the identifier: a conversation with it, or an error.
  abbrev pub Agrees : ConversationId → Result (Option Conversation) StorageError → Type 0
  Agrees id (ok none) = ⊥
  Agrees id (ok (some c)) = c.id ≡ id
  Agrees id (err e) = Unit {0}

  -- What the repository promises, for the rows that it keeps: `Holds reference id w` says that the
  -- row of the reference has this identifier. A conversation that it inserts or finds has a row; no
  -- operation changes a row's identifier; and where there is a row, a lookup finds it or fails. An
  -- operation may always fail.
  pub record IsPersistent (Holds : ExternalRef → ConversationId → W → Type 0) : Type 0 where
    pub inserted_holds :
        (reference : ExternalRef) (id : ConversationId) (w : W)
        → (repository.insert_conversation (candidate_for id reference) w).0 ≡ ok tt
        → Holds reference id ((repository.insert_conversation (candidate_for id reference) w).1)
    pub lookup_holds :
        (reference : ExternalRef) (c : Conversation) (w : W)
        → (repository.conversation_by_external_ref reference w).0 ≡ ok (some c)
        → Holds reference c.id ((repository.conversation_by_external_ref reference w).1)
    pub lookup_agrees :
        (reference : ExternalRef) (id : ConversationId) (w : W)
        → Holds reference id w
        → Agrees id ((repository.conversation_by_external_ref reference w).0)
    pub lookup_keeps :
        (reference asked : ExternalRef) (id : ConversationId) (w : W)
        → Holds reference id w
        → Holds reference id ((repository.conversation_by_external_ref asked w).1)
    pub insert_keeps :
        (reference : ExternalRef) (id : ConversationId) (other : Conversation) (w : W)
        → Holds reference id w
        → Holds reference id ((repository.insert_conversation other w).1)
    pub generate_keeps :
        (reference : ExternalRef) (id : ConversationId) (w : W)
        → Holds reference id w
        → Holds reference id ((repository.generate w).1)

  -- A room or thread that comes again gives a conversation with the same identifier; or it cannot be
  -- looked up, and then the result is a storage error and nothing is inserted.
  pub data Revisited (reference : ExternalRef) (id : ConversationId) (w : W)
      (out : Result Conversation MatrixError × W) : Type 0 where
    same_conversation : (c : Conversation) → c.id ≡ id → out.0 ≡ ok c → Revisited reference id w out
    unreadable :
        (e : StorageError)
        → (repository.conversation_by_external_ref reference w).0 ≡ err e
        → out ≡ (err storage, (repository.conversation_by_external_ref reference w).1)
        → Revisited reference id w out

  abbrev pub resolve_all : List (Text × Option Text) → W → W
  resolve_all [] w = w
  resolve_all ((room_id, thread_root) ∷ rooms) w =
      resolve_all rooms ((resolve_conversation repository room_id thread_root w).1)

  module _ (Holds : ExternalRef → ConversationId → W → Type 0) (persistent : IsPersistent Holds)
      (reference : ExternalRef) (id : ConversationId) where
    read_back_kept :
        (answer : Result (Option Conversation) StorageError × W)
        → Holds reference id (answer.1)
        → Holds reference id ((read_back repository answer).1)
    read_back_kept (err e, w) h = h
    read_back_kept (ok none, w) h = h
    read_back_kept (ok (some found), w) h = h

    inserted_kept :
        (asked : ExternalRef) (candidate : Conversation)
        (answer : Result (Unit {0}) StorageError × W)
        → Holds reference id (answer.1)
        → Holds reference id ((inserted repository asked candidate answer).1)
    inserted_kept asked candidate (ok u, w) h = h
    inserted_kept asked candidate (err (duplicate detail), w) h =
        read_back_kept (repository.conversation_by_external_ref asked w)
          (persistent.lookup_keeps reference asked id w h)
    inserted_kept asked candidate (err (open_failed path), w) h = h
    inserted_kept asked candidate (err migrate, w) h = h
    inserted_kept asked candidate (err query, w) h = h
    inserted_kept asked candidate (err (integrity_violation detail), w) h = h
    inserted_kept asked candidate (err (not_found entity name), w) h = h
    inserted_kept asked candidate (err (out_of_range field value), w) h = h
    inserted_kept asked candidate (err (malformed field detail), w) h = h

    looked_up_kept :
        (asked : ExternalRef) (answer : Result (Option Conversation) StorageError × W)
        → Holds reference id (answer.1)
        → Holds reference id ((looked_up repository asked answer).1)
    looked_up_kept asked (err e, w) h = h
    looked_up_kept asked (ok (some found), w) h = h
    looked_up_kept asked (ok none, w) h =
        let candidate = candidate_for ((repository.generate w).0) asked in
        let w₁ = (repository.generate w).1 in
        inserted_kept asked candidate (repository.insert_conversation candidate w₁) (
          persistent.insert_keeps reference id candidate w₁
            (persistent.generate_keeps reference id w h))

    resolve_all_kept :
        (rooms : List (Text × Option Text)) (w : W)
        → Holds reference id w
        → Holds reference id (resolve_all rooms w)
    unfolding resolve_conversation
    resolve_all_kept [] w h = h
    resolve_all_kept ((room_id, thread_root) ∷ rooms) w h =
        let asked = reference_for room_id thread_root in
        resolve_all_kept rooms _
          (elim (Bool-cases (is_invalid room_id || thread_is_invalid thread_root)) [
            | inl e ↦ rw e h
            | inr e ↦ rw e (
                looked_up_kept asked (repository.conversation_by_external_ref asked w)
                  (persistent.lookup_keeps reference asked id w h))
          ])

  -- The conversation of a result has its row.
  abbrev Resolved :
      (ExternalRef → ConversationId → W → Type 0)
      → ExternalRef
      → Result Conversation MatrixError × W
      → Type 0
  Resolved Holds reference (ok c, w) = Holds reference c.id w
  Resolved Holds reference (err e, w) = Unit {0}

  module _ (Holds : ExternalRef → ConversationId → W → Type 0) (persistent : IsPersistent Holds)
      (reference : ExternalRef) where
    read_back-Resolved :
        (w : W) (answer : Result (Option Conversation) StorageError × W)
        → repository.conversation_by_external_ref reference w ≡ answer
        → Resolved Holds reference (read_back repository answer)
    read_back-Resolved w (err e, w') h = tt
    read_back-Resolved w (ok none, w') h = tt
    read_back-Resolved w (ok (some found), w') h =
        subst (Holds reference found.id) (ap (λ a. a.1) h)
          (persistent.lookup_holds reference found w (ap (λ a. a.0) h))

    inserted-Resolved :
        (id : ℕ) (w : W) (answer : Result (Unit {0}) StorageError × W)
        → repository.insert_conversation (candidate_for id reference) w ≡ answer
        → Resolved Holds reference
            (inserted repository reference (candidate_for id reference) answer)
    inserted-Resolved id w (ok u, w') h =
        subst (Holds reference id) (ap (λ a. a.1) h)
          (persistent.inserted_holds reference id w (ap (λ a. a.0) h))
    inserted-Resolved id w (err (duplicate detail), w') h =
        read_back-Resolved w' (repository.conversation_by_external_ref reference w') refl
    inserted-Resolved id w (err (open_failed path), w') h = tt
    inserted-Resolved id w (err migrate, w') h = tt
    inserted-Resolved id w (err query, w') h = tt
    inserted-Resolved id w (err (integrity_violation detail), w') h = tt
    inserted-Resolved id w (err (not_found entity name), w') h = tt
    inserted-Resolved id w (err (out_of_range field value), w') h = tt
    inserted-Resolved id w (err (malformed field detail), w') h = tt

    looked_up-Resolved :
        (w : W) (answer : Result (Option Conversation) StorageError × W)
        → repository.conversation_by_external_ref reference w ≡ answer
        → Resolved Holds reference (looked_up repository reference answer)
    looked_up-Resolved w (err e, w') h = tt
    looked_up-Resolved w (ok (some found), w') h = read_back-Resolved w (ok (some found), w') h
    looked_up-Resolved w (ok none, w') h =
        inserted-Resolved ((repository.generate w').0) ((repository.generate w').1)
          (repository.insert_conversation (candidate_for ((repository.generate w').0) reference)
            ((repository.generate w').1))
          refl

    Resolved-Holds :
        (c : Conversation) (out : Result Conversation MatrixError × W)
        → Resolved Holds reference out
        → out.0 ≡ ok c
        → Holds reference c.id (out.1)
    Resolved-Holds c (ok found, w) h e =
        subst (λ t. Holds reference t.id w) (ap (λ r. elim r [ ok a ↦ a | err x ↦ found ]) e) h
    Resolved-Holds c (err x, w) h e = absurd (ground arith)

    looked_up-Revisited :
        (id : ConversationId) (w : W) (answer : Result (Option Conversation) StorageError × W)
        → repository.conversation_by_external_ref reference w ≡ answer
        → Agrees id (answer.0)
        → Revisited reference id w (looked_up repository reference answer)
    looked_up-Revisited id w (err x, w') e h =
        unreadable x (ap (λ a. a.0) e) (ap (λ a. (err storage, a.1)) (sym e))
    looked_up-Revisited id w (ok none, w') e h = absurd h
    looked_up-Revisited id w (ok (some found), w') e h = same_conversation found h refl

  valid_reference :
      (room_id : Text) (thread_root : Option Text)
      → (is_invalid room_id || thread_is_invalid thread_root) ≡ false
      → (w : W)
      → resolve_conversation repository room_id thread_root w
        ≡ looked_up repository
            (reference_for room_id thread_root)
            (repository.conversation_by_external_ref (reference_for room_id thread_root) w)
  unfolding resolve_conversation
  valid_reference room_id thread_root e w = rw e refl

  invalid_reference :
      (room_id : Text) (thread_root : Option Text)
      → (is_invalid room_id || thread_is_invalid thread_root) ≡ true
      → (w : W) (c : Conversation)
      → (resolve_conversation repository room_id thread_root w).0 ≢ ok c
  unfolding resolve_conversation
  invalid_reference room_id thread_root e w c h = ground (arith, e, h)

  -- With a repository that keeps its rows, a room or thread that was resolved to a conversation and
  -- is asked for again, whatever other rooms and threads were resolved in between, gives a
  -- conversation with the same identifier; or, when the lookup fails, a storage error with nothing
  -- inserted.
  pub resolve_conversation-again :
      (Holds : ExternalRef → ConversationId → W → Type 0)
      → IsPersistent Holds
      → (room_id : Text) (thread_root : Option Text) (rooms : List (Text × Option Text)) (w : W)
        (c : Conversation)
      → (resolve_conversation repository room_id thread_root w).0 ≡ ok c
      → Revisited
          (reference_for room_id thread_root)
          c.id
          (resolve_all rooms ((resolve_conversation repository room_id thread_root w).1))
          (resolve_conversation repository room_id thread_root
            (resolve_all rooms ((resolve_conversation repository room_id thread_root w).1)))
  resolve_conversation-again Holds persistent room_id thread_root rooms w c h =
      let reference = reference_for room_id thread_root in
      let first = resolve_conversation repository room_id thread_root w in
      let later = resolve_all rooms (first.1) in
      elim (Bool-cases (is_invalid room_id || thread_is_invalid thread_root)) [
        | inl e ↦ absurd (invalid_reference room_id thread_root e w c h)
        | inr e ↦
            let resolved : Resolved Holds reference first =
              subst (Resolved Holds reference) (sym (valid_reference room_id thread_root e w)) (
                looked_up-Resolved Holds persistent reference w
                  (repository.conversation_by_external_ref reference w) refl) in
            let kept : Holds reference c.id later =
              resolve_all_kept Holds persistent reference c.id rooms (first.1)
                (Resolved-Holds Holds persistent reference c first resolved h) in
            subst (Revisited reference c.id later)
              (sym (valid_reference room_id thread_root e later))
              (looked_up-Revisited Holds persistent reference c.id later
                (repository.conversation_by_external_ref reference later) refl
                (persistent.lookup_agrees reference c.id later kept))
      ]
