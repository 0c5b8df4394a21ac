-- ===== src/Matrix/Event/Decoded.antt =====
-- The events that `decode_event` of src/matrix/event.rs lets through.
use mathlib.Core.Path.{subst}
use guigu_agent_bridge.Prelude.{
  ◌+◌, ◌*◌, ◌≤◌, ◌≡◌, ◌≢◌, refl, sym, ap, Bool, Option, none, some, true, false, not, ◌||◌, Result,
  ok, err, ltb, length, is_some, After, bind-After, ensure-After, ok_or-After, arith, Bool-cases,
  inl, inr, if◌then◌else◌,
}
use guigu_agent_bridge.Prelude.Texts.{Text, codes, text_eq, text_eq_refl}
use guigu_agent_bridge.Matrix.Event.{
  InboundMatrixEvent, max_id_bytes, max_body_bytes, Values, Exit, ignored, refused, finished,
  out_of_bounds, str_of, member, equals, object_of, required_bounded, some_text, thread_root,
  decode, decode_event,
}

abbrev pub IsId : Text → Type 0
IsId text = (1 ≤ length text) × (length text ≤ 1024)

abbrev pub OptionIsId : Option Text → Type 0
OptionIsId none = Unit {0}
OptionIsId (some text) = IsId text

IsId-out_of_bounds : (text : Text) → not (out_of_bounds text) ≡ true → IsId text
IsId-out_of_bounds text h = (ground arith, ground arith)

module _ {V : Type 0} (values : Values V) where
  -- The root that a message's relation names: the event of a thread's relation, or none.
  abbrev pub RootOf : Option V → Option Text → Type 0
  RootOf none root = root ≡ none
  RootOf (some relation) none =
      equals values (str_of values (values.get relation (codes "rel_type"))) (codes "m.thread")
      ≡ false
  RootOf (some relation) (some root) =
      (equals values (str_of values (values.get relation (codes "rel_type"))) (codes "m.thread")
        ≡ true)
      × (str_of values (values.get relation (codes "event_id")) ≡ some root)

  -- The raw text is the JSON of a plain-text message, neither state nor redacted, by another user; its
  -- identifiers have 1 to 1024 bytes each and its body at most 65536, and they are the message's own.
  pub record IsDecoded (raw room_id own_user_id : Text) (event : InboundMatrixEvent) : Type 0 where
    pub value : V
    pub content : V
    pub raw_small : length raw ≤ 69_632
    pub parsed : values.from_str raw ≡ some value
    pub not_state : is_some (values.get value (codes "state_key")) ≡ false
    pub not_redacted :
        is_some (member values (values.get value (codes "unsigned")) (codes "redacted_because"))
        ≡ false
    pub is_message :
        equals values (str_of values (values.get value (codes "type"))) (codes "m.room.message")
        ≡ true
    pub has_content : object_of values (values.get value (codes "content")) ≡ some content
    pub is_text :
        equals values (str_of values (values.get content (codes "msgtype"))) (codes "m.text") ≡ true
    pub same_id : str_of values (values.get value (codes "event_id")) ≡ some event.event_id
    pub same_sender : str_of values (values.get value (codes "sender")) ≡ some event.sender
    pub same_body : str_of values (values.get content (codes "body")) ≡ some event.body
    pub same_room : event.room_id ≡ room_id
    pub foreign : event.sender ≢ own_user_id
    pub event_id_small : IsId event.event_id
    pub sender_small : IsId event.sender
    pub room_small : IsId event.room_id
    pub body_small : length event.body ≤ 65_536
    pub root_small : OptionIsId event.thread_root
    pub same_root : RootOf (values.get content (codes "m.relates_to")) event.thread_root

  abbrev Read : V → Text → Text → Type 0
  Read value field text = (str_of values (values.get value field) ≡ some text) × IsId text

  required_bounded-After :
      (value : V) (field : Text) → After (Read value field) (required_bounded values value field)
  unfolding required_bounded
  required_bounded-After value field = ok_or-After (Read value field) _ _ _ λ text e.
      ensure-After (Read value field) _ _ _
        λ h. let read : Read value field text = (e, IsId-out_of_bounds text h) in read

  abbrev Root : Option V → Option Text → Type 0
  Root relation root = OptionIsId root × RootOf relation root

  some_text-After :
      (relation : V) (r : Result Text Exit)
      → equals values (str_of values (values.get relation (codes "rel_type"))) (codes "m.thread")
        ≡ true
      → After (Read relation (codes "event_id")) r
      → After (Root (some relation)) (some_text values r)
  some_text-After relation (ok text) e h = (h.1, (e, h.0))
  some_text-After relation (err x) e h = tt

  thread_root-After : (relation : Option V) → After (Root relation) (thread_root values relation)
  unfolding thread_root
  thread_root-After none = (tt, refl)
  thread_root-After (some relation) =
      let threaded =
        equals values (str_of values (values.get relation (codes "rel_type"))) (codes "m.thread") in
      let found = some_text values (required_bounded values relation (codes "event_id")) in
      let Rooted = λ (b : Bool). After (Root (some relation)) (if b then found else ok none) in
      elim (Bool-cases threaded) [
        | inl e ↦ subst Rooted (sym e) (
            some_text-After relation (required_bounded values relation (codes "event_id")) e
              (required_bounded-After relation (codes "event_id")))
        | inr e ↦
            let none_found : Root (some relation) none = (tt, e) in subst Rooted (sym e) none_found
      ]

  foreign_if : (s t : Text) → not (text_eq s t) ≡ true → s ≢ t
  foreign_if s t h e = ground (arith, h, text_eq_refl s, ap (text_eq s) e)

  decode-After :
      (raw room_id own_user_id : Text)
      → After (IsDecoded raw room_id own_user_id) (decode values raw room_id own_user_id)
  unfolding decode
  decode-After raw room_id own =
      let D = IsDecoded raw room_id own in
      ensure-After {E = Exit} D (not (ltb (max_body_bytes + 4 * max_id_bytes) (length raw))) _ _
        λ raw_small. ok_or-After {E = Exit} D _ (values.from_str raw) _ λ value parsed.
          ensure-After {E = Exit} D
            (not (
              is_some (values.get value (codes "state_key"))
              || is_some
                  (member values (values.get value (codes "unsigned")) (codes "redacted_because"))))
            _ _
            λ plain.
              ensure-After {E = Exit} D
                (equals values (str_of values (values.get value (codes "type")))
                  (codes "m.room.message"))
                _ _
                λ message.
                  ok_or-After {E = Exit} D _ (object_of values (values.get value (codes "content")))
                    _
                    λ content has_content.
                      ensure-After {E = Exit} D
                        (equals values (str_of values (values.get content (codes "msgtype")))
                          (codes "m.text"))
                        _ _
                        λ is_text.
                          bind-After (Read value (codes "event_id")) D _ _
                            (required_bounded-After value (codes "event_id"))
                            λ event_id id.
                              bind-After (Read value (codes "sender")) D _ _
                                (required_bounded-After value (codes "sender"))
                                λ sender from.
                                  ensure-After {E = Exit} D (not (text_eq sender own)) _ _
                                    λ foreign.
                                      ensure-After {E = Exit} D (not (out_of_bounds room_id)) _ _
                                        λ room.
                                          ok_or-After {E = Exit} D _
                                            (str_of values (values.get content (codes "body"))) _
                                            λ body same_body.
                                              ensure-After {E = Exit} D
                                                (not (ltb max_body_bytes (length body))) _ _
                                                λ body_small.
                                                  bind-After
                                                    (Root
                                                      (values.get content (codes "m.relates_to")))
                                                    D _ _
                                                    (thread_root-After
                                                      (values.get content (codes "m.relates_to")))
                                                    λ root root_small.
                                                      let event : InboundMatrixEvent = record {
                                                        event_id = event_id;
                                                        room_id = room_id;
                                                        thread_root = root;
                                                        sender = sender;
                                                        body = body;
                                                      } in
                                                      let done : IsDecoded raw room_id own event =
                                                        record {
                                                          value = value;
                                                          content = content;
                                                          raw_small = ground (arith, raw_small);
                                                          parsed = parsed;
                                                          not_state = ground (arith, plain);
                                                          not_redacted = ground (arith, plain);
                                                          is_message = message;
                                                          has_content = has_content;
                                                          is_text = is_text;
                                                          same_id = id.0;
                                                          same_sender = from.0;
                                                          same_body = same_body;
                                                          same_room = refl;
                                                          foreign = foreign_if sender own foreign;
                                                          event_id_small = id.1;
                                                          sender_small = from.1;
                                                          room_small =
                                                            IsId-out_of_bounds room_id room;
                                                          body_small = ground (arith, body_small);
                                                          root_small = root_small.0;
                                                          same_root = root_small.1;
                                                        } in
                                                      done

  finished-IsDecoded :
      (raw room_id own_user_id : Text) (event : InboundMatrixEvent)
      (r : Result InboundMatrixEvent Exit)
      → After (IsDecoded raw room_id own_user_id) r
      → finished r ≡ ok (some event)
      → IsDecoded raw room_id own_user_id event
  finished-IsDecoded raw room_id own event (ok found) d h =
      subst (IsDecoded raw room_id own)
        (ap (λ x. elim x [ ok o ↦ elim o [ none ↦ found | some y ↦ y ] | err e ↦ found ]) h) d
  finished-IsDecoded raw room_id own event (err ignored) d h = absurd (ground arith)
  finished-IsDecoded raw room_id own event (err (refused e)) d h = absurd (ground arith)

  -- When an event is decoded, it is a plain-text message of another user in the given room, and its
  -- fields are those of the JSON value, within their limits: the identifiers, the body, and the root,
  -- which is that of the thread that the message names as its relation, or none if it names no thread.
  pub decode_event-IsDecoded :
      (raw room_id own_user_id : Text) (event : InboundMatrixEvent)
      → decode_event values raw room_id own_user_id ≡ ok (some event)
      → IsDecoded raw room_id own_user_id event
  unfolding decode_event
  decode_event-IsDecoded raw room_id own event h =
      finished-IsDecoded raw room_id own event (decode values raw room_id own)
        (decode-After raw room_id own) h
