-- ===== src/Matrix/Permission.antt =====
-- `PermissionPolicy` of src/matrix/permission.rs.
use guigu_agent_bridge.Prelude.{
  ◌≡◌, refl, ap, ◌∙◌, Option, none, some, Bool, true, false, List, [], ◌∷◌, ◌++◌, ◌⊎◌, ◌↔◌, inl,
  inr, All, ◌==◌, if◌then◌else◌, arith, sym,
}
use guigu_agent_bridge.Prelude.Texts.{
  Text, text_eq, TextMap, get, put, get-put, text_eq_iff, text_eq_refl,
}
use guigu_agent_bridge.Models.Task.{EndpointId}

-- A user is allowed everywhere (`none`) or for one endpoint.
pub record PermissionPolicy : Type 0 where
  pub users : TextMap (Option EndpointId)

abbrev pub new : PermissionPolicy
new = record { users = [] }

unfoldable pub allow_user : Text → PermissionPolicy → PermissionPolicy
allow_user user_id p = record { users = put user_id none p.users }

unfoldable pub allow_user_for : Text → EndpointId → PermissionPolicy → PermissionPolicy
allow_user_for user_id target p = record { users = put user_id (some target) p.users }

abbrev pub allows : EndpointId → Option (Option EndpointId) → Bool
allows target none = false
allows target (some none) = true
allows target (some (some id)) = id == target

unfoldable pub permits : PermissionPolicy → Text → EndpointId → Bool
permits p user_id target = allows target (get user_id p.users)

-- A call of one of the two builders.
abbrev pub Grant : Type 0
Grant = Text × Option EndpointId

abbrev pub grant : Grant → PermissionPolicy → PermissionPolicy
grant (user_id, none) p = allow_user user_id p
grant (user_id, some target) p = allow_user_for user_id target p

abbrev pub grant_all : List Grant → PermissionPolicy → PermissionPolicy
grant_all [] p = p
grant_all (g ∷ grants) p = grant_all grants (grant g p)

-- What the last of the grants for the user, if there is one, gives in place of `found`.
abbrev pub last_grant : Text → Option (Option EndpointId) → List Grant → Option (Option EndpointId)
last_grant user_id found [] = found
last_grant user_id found ((user, scope) ∷ grants) =
    last_grant user_id (if text_eq user user_id then some scope else found) grants

get-grant_all :
    (grants : List Grant) (p : PermissionPolicy) (user_id : Text)
    → get user_id (grant_all grants p).users ≡ last_grant user_id (get user_id p.users) grants
unfolding allow_user allow_user_for
get-grant_all [] p user_id = refl
get-grant_all ((user, none) ∷ grants) p user_id =
    get-grant_all grants (record { users = put user none p.users }) user_id
    ∙ ap (λ found. last_grant user_id found grants) (get-put user user_id none p.users)
get-grant_all ((user, some target) ∷ grants) p user_id =
    get-grant_all grants (record { users = put user (some target) p.users }) user_id
    ∙ ap (λ found. last_grant user_id found grants) (get-put user user_id (some target) p.users)

-- The last of the grants for the user has this scope.
pub record IsLast (user_id : Text) (scope : Option EndpointId) (grants : List Grant) : Type 0 where
  pub before : List Grant
  pub after : List Grant
  pub whole : grants ≡ before ++ (user_id, scope) ∷ after
  pub no_later : All (λ (g : Grant). text_eq (g.0) user_id ≡ false) after

-- A scope that is found in the end was there at the start, or a grant for the user gave it.
abbrev Found : Text → Option (Option EndpointId) → Option EndpointId → List Grant → Type 0
Found user_id found scope grants =
    IsLast user_id scope grants
    ⊎ ((found ≡ some scope) × All (λ (g : Grant). text_eq (g.0) user_id ≡ false) grants)

later-IsLast :
    (user_id : Text) (scope : Option EndpointId) (g : Grant) (grants : List Grant)
    → IsLast user_id scope grants
    → IsLast user_id scope (g ∷ grants)
later-IsLast user_id scope g grants h = record {
  before = g ∷ h.before;
  after = h.after;
  whole = ap (◌∷◌ g) h.whole;
  no_later = h.no_later;
}

Found-cons :
    (user_id : Text) (found : Option (Option EndpointId)) (scope : Option EndpointId) (user : Text)
    (given : Option EndpointId) (grants : List Grant) (same : Bool)
    → text_eq user user_id ≡ same
    → Found user_id (if same then some given else found) scope grants
    → Found user_id found scope ((user, given) ∷ grants)
Found-cons user_id found scope user given grants same e (inl h) =
    inl (later-IsLast user_id scope (user, given) grants h)
Found-cons user_id found scope user given grants false e (inr h) = inr (h.0, (e, h.1))
Found-cons user_id found scope user given grants true e (inr h) =
    let given_scope : given ≡ scope = ap (λ o. elim o [ none ↦ given | some x ↦ x ]) (h.0) in
    inl (record {
      before = [];
      after = grants;
      whole =
          ap (λ u. (u, given) ∷ grants) ((text_eq_iff user user_id).0 e)
          ∙ ap (λ x. (user_id, x) ∷ grants) given_scope;
      no_later = h.1;
    })

last_grant-Found :
    (user_id : Text) (found : Option (Option EndpointId)) (scope : Option EndpointId)
    (grants : List Grant)
    → last_grant user_id found grants ≡ some scope
    → Found user_id found scope grants
last_grant-Found user_id found scope [] h = inr (h, tt)
last_grant-Found user_id found scope ((user, given) ∷ grants) h =
    Found-cons user_id found scope user given grants (text_eq user user_id) refl
      (last_grant-Found user_id (if text_eq user user_id then some given else found) scope grants h)

last_grant_unchanged :
    (user_id : Text) (found : Option (Option EndpointId)) (grants : List Grant)
    → All (λ (g : Grant). text_eq (g.0) user_id ≡ false) grants
    → last_grant user_id found grants ≡ found
last_grant_unchanged user_id found [] h = refl
last_grant_unchanged user_id found ((user, given) ∷ grants) h =
    rw (h.0) (last_grant_unchanged user_id found grants (h.1))

last_grant-append :
    (user_id : Text) (found : Option (Option EndpointId)) (scope : Option EndpointId)
    (before after : List Grant)
    → All (λ (g : Grant). text_eq (g.0) user_id ≡ false) after
    → last_grant user_id found (before ++ (user_id, scope) ∷ after) ≡ some scope
last_grant-append user_id found scope [] after h =
    ap (λ b. last_grant user_id (if b then some scope else found) after) (text_eq_refl user_id)
    ∙ last_grant_unchanged user_id (some scope) after h
last_grant-append user_id found scope ((user, given) ∷ before) after h =
    last_grant-append user_id (if text_eq user user_id then some given else found) scope before
      after h

IsLast-last_grant :
    (user_id : Text) (scope : Option EndpointId) (grants : List Grant)
    → IsLast user_id scope grants
    → last_grant user_id none grants ≡ some scope
IsLast-last_grant user_id scope grants h =
    ap (last_grant user_id none) h.whole
    ∙ last_grant-append user_id none scope h.before h.after h.no_later

-- The last grant for the user is for every target, or for this one.
pub record IsGranted (user_id : Text) (target : EndpointId) (grants : List Grant) : Type 0 where
  pub scope : Option EndpointId
  pub last : IsLast user_id scope grants
  pub covers : (scope ≡ none) ⊎ (scope ≡ some target)

allows-IsGranted :
    (user_id : Text) (target : EndpointId) (grants : List Grant) (held : Option (Option EndpointId))
    → last_grant user_id none grants ≡ held
    → allows target held ≡ true
    → IsGranted user_id target grants
allows-IsGranted user_id target grants none e h = absurd (ground (arith, h))
allows-IsGranted user_id target grants (some scope) e h = record {
  scope = scope;
  last = elim (last_grant-Found user_id none scope grants e) [
    | inl l ↦ l
    | inr x ↦ absurd (ground (arith, x.0))
  ];
  covers = covered scope h;
}
  where
    covered :
        (s : Option EndpointId) → allows target (some s) ≡ true → (s ≡ none) ⊎ (s ≡ some target)
    covered none h = inl refl
    covered (some id) h = let same : id ≡ target = ground (arith, h) in inr (ap some same)

covers-allows :
    (target : EndpointId) (scope : Option EndpointId)
    → (scope ≡ none) ⊎ (scope ≡ some target)
    → allows target (some scope) ≡ true
covers-allows target scope (inl h) = rw h refl
covers-allows target scope (inr h) = rw h (ground arith)

-- A policy built by any calls of its builders permits a target to a user exactly when there was a call
-- for the user and the last one was for every target or for this one.
pub permits-grant_all :
    (grants : List Grant) (user_id : Text) (target : EndpointId)
    → (permits (grant_all grants new) user_id target ≡ true) ↔ IsGranted user_id target grants
unfolding permits get
permits-grant_all grants user_id target =
    let held = get-grant_all grants new user_id in
    (
      λ h.
          allows-IsGranted user_id target grants (last_grant user_id none grants) refl
            (ap (allows target) (sym held) ∙ h),
      λ g.
          ap (allows target) (held ∙ IsLast-last_grant user_id g.scope grants g.last)
          ∙ covers-allows target g.scope g.covers,
    )
