-- ===== src/Matrix/Conversation.antt =====
-- `resolve_conversation` of src/matrix/conversation.rs. The repository is a record of functions on the
-- outside, with the errors of src/storage/error.rs.
pub mod Again
pub mod Examples
use guigu_agent_bridge.Prelude.{
  ℕ, Option, none, some, Bool, true, false, ◌||◌, List, [], ◌∷◌, Result, ok, err, ltb,
  if◌then◌else◌, length, is_empty,
}
use guigu_agent_bridge.Prelude.Texts.{Text, codes}
use guigu_agent_bridge.Models.Task.{ConversationId}
use guigu_agent_bridge.Models.Agent.{TransportType}
use guigu_agent_bridge.Models.Conversation.{ExternalRef, Conversation}
use guigu_agent_bridge.Matrix.{MatrixError, protocol, storage}

-- The causes that a driver gives are left out.
pub data StorageError : Type 0 where
  open_failed : Text → StorageError
  migrate query : StorageError
  duplicate integrity_violation : Text → StorageError
  not_found out_of_range malformed : Text → Text → StorageError

abbrev pub max_external_id_bytes : ℕ
max_external_id_bytes = 1024

pub record Repository (W : Type 0) : Type 0 where
  pub conversation_by_external_ref : ExternalRef → W → Result (Option Conversation) StorageError × W
  pub insert_conversation : Conversation → W → Result (Unit {0}) StorageError × W
  pub generate : W → ConversationId × W

abbrev pub is_invalid : Text → Bool
is_invalid text = is_empty text || ltb max_external_id_bytes (length text)

abbrev pub thread_is_invalid : Option Text → Bool
thread_is_invalid none = false
thread_is_invalid (some root) = is_invalid root

abbrev pub reference_for : Text → Option Text → ExternalRef
reference_for room_id thread_root = record {
  transport = TransportType.matrix;
  external_id = room_id;
  thread_ref = thread_root;
}

abbrev pub candidate_for : ConversationId → ExternalRef → Conversation
candidate_for id reference = record { id = id; participants = []; external_ref = some reference }

module _ {W : Type 0} (repository : Repository W) where
  -- After a lookup that has to find a conversation.
  abbrev pub read_back :
      Result (Option Conversation) StorageError × W → Result Conversation MatrixError × W
  read_back (err e, w) = (err storage, w)
  read_back (ok none, w) = (err storage, w)
  read_back (ok (some found), w) = (ok found, w)

  abbrev pub inserted :
      ExternalRef
      → Conversation
      → Result (Unit {0}) StorageError × W
      → Result Conversation MatrixError × W
  inserted reference candidate (ok u, w) = (ok candidate, w)
  inserted reference candidate (err (duplicate detail), w) =
      read_back (repository.conversation_by_external_ref reference w)
  inserted reference candidate (err (open_failed path), w) = (err storage, w)
  inserted reference candidate (err migrate, w) = (err storage, w)
  inserted reference candidate (err query, w) = (err storage, w)
  inserted reference candidate (err (integrity_violation detail), w) = (err storage, w)
  inserted reference candidate (err (not_found entity id), w) = (err storage, w)
  inserted reference candidate (err (out_of_range field value), w) = (err storage, w)
  inserted reference candidate (err (malformed field detail), w) = (err storage, w)

  abbrev pub looked_up :
      ExternalRef
      → Result (Option Conversation) StorageError × W
      → Result Conversation MatrixError × W
  looked_up reference (err e, w) = (err storage, w)
  looked_up reference (ok (some found), w) = (ok found, w)
  looked_up reference (ok none, w) =
      let (id, w₁) = repository.generate w in
      let candidate = candidate_for id reference in
      inserted reference candidate (repository.insert_conversation candidate w₁)

  unfoldable pub resolve_conversation : Text → Option Text → W → Result Conversation MatrixError × W
  resolve_conversation room_id thread_root w =
      let reference = reference_for room_id thread_root in
      if is_invalid room_id || thread_is_invalid thread_root
      then (err (protocol (codes "invalid Matrix conversation reference")), w)
      else looked_up reference (repository.conversation_by_external_ref reference w)
