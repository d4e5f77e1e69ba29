-- ===== src/App/Create/Members.antt =====
-- src/bin/Application.cpp: who is asked to be in a new group or channel.
use vox_desktop.Base.{
  ◌≡◌, refl, String, string_eq, ◌==◌, ==-self, text_eq_iff, true, false, ◌||◌, Bool-cases,
  Option-cases, inl, inr, Option, none, some, List, [], ◌∷◌, arith,
}
use vox_desktop.Network.{ConversationCreateRequest, ConversationCreateResponse, DirectoryUser}
use vox_desktop.Services.Auth.{AuthContext}
use vox_desktop.App.Create.{
  CreateApis, CreateResult, Resolved, unresolved, resolved, accepted, add_id, resolve_ids,
  is_listed, keep_new, remove_duplicates, group_request, channel_request, create_with, create_group,
  create_channel,
}

-- No id is there twice.
abbrev pub IsDistinct : List String → Type 0
IsDistinct [] = Unit
IsDistinct (id ∷ ids) = (is_listed id ids ≡ false) × IsDistinct ids

keep_new-not_seen :
    (seen ids : List String) (id : String)
    → is_listed id seen ≡ true
    → is_listed id (keep_new seen ids) ≡ false
unfolding keep_new
keep_new-not_seen seen [] id h = refl
keep_new-not_seen seen (other ∷ ids) id h =
    let skipped = keep_new-not_seen seen ids id h in
    let kept = keep_new-not_seen (other ∷ seen) ids id (ground arith) in
    ground (arith, skipped, kept, string_eq.beq_iff id other)

keep_new-IsDistinct : (seen ids : List String) → IsDistinct (keep_new seen ids)
unfolding keep_new
keep_new-IsDistinct seen [] = tt
keep_new-IsDistinct seen (id ∷ ids) = elim (Bool-cases (is_listed id seen)) [
  | inl old ↦ rw old (keep_new-IsDistinct seen ids)
  | inr new ↦ rw new (
    keep_new-not_seen (id ∷ seen) ids id (rw (==-self id) refl),
    keep_new-IsDistinct (id ∷ seen) ids,
  )
]

-- Every id is kept or was seen before.
keep_new-listed :
    (seen ids : List String) (id : String)
    → is_listed id ids ≡ true
    → (is_listed id seen || is_listed id (keep_new seen ids)) ≡ true
unfolding keep_new
keep_new-listed seen [] id h = absurd (ground arith)
keep_new-listed seen (other ∷ ids) id h = elim (Bool-cases (id == other)) [
  | inl same ↦
      let e : id ≡ other = (text_eq_iff id other).0 same in
      elim (Bool-cases (is_listed other seen)) [
        | inl old ↦ let seen_too : is_listed id seen ≡ true = rw e old in ground arith
        | inr new ↦ ground arith
      ]
  | inr apart ↦
      let later : is_listed id ids ≡ true = ground arith in
      let skipped = keep_new-listed seen ids id later in
      let kept = keep_new-listed (other ∷ seen) ids id later in
      elim (Bool-cases (is_listed other seen)) [ inl old ↦ rw old skipped | inr new ↦ ground arith ]
]

keep_new-only :
    (seen ids : List String) (id : String)
    → is_listed id (keep_new seen ids) ≡ true
    → is_listed id ids ≡ true
unfolding keep_new
keep_new-only seen [] id h = h
keep_new-only seen (other ∷ ids) id h = elim (Bool-cases (is_listed other seen)) [
  | inl old ↦ let later = keep_new-only seen ids id (rw old at h) in ground arith
  | inr new ↦ elim (Bool-cases (id == other)) [
    | inl same ↦ ground arith
    | inr apart ↦
        let rest : is_listed id (keep_new (other ∷ seen) ids) ≡ true = ground arith in
        let later = keep_new-only (other ∷ seen) ids id rest in ground arith
  ]
]

-- A name that the directory resolves, and the id that it resolves to.
abbrev pub IsUser : CreateApis → String → String → Type 0
IsUser apis name id =
    (user : DirectoryUser) × (accepted (apis.user_by_username name) ≡ some user)
    × (user.user_id ≡ id)

-- The ids of a list of names, in their order.
pub data AreUsers (apis : CreateApis) : List String → List String → Type 0 where
  end : AreUsers apis [] []
  next :
      (name id : String) (names ids : List String)
      → IsUser apis name id
      → AreUsers apis names ids
      → AreUsers apis (name ∷ names) (id ∷ ids)

-- The ids are those of the names, or some name has none.
abbrev IsOutcome : CreateApis → List String → Resolved → Type 0
IsOutcome apis names (resolved ids) = AreUsers apis names ids
IsOutcome apis names (unresolved name) =
    (is_listed name names ≡ true) × (accepted (apis.user_by_username name) ≡ none)

add_id-IsOutcome :
    (apis : CreateApis) (name : String) (names : List String) (found : Option DirectoryUser)
    (rest : Resolved)
    → accepted (apis.user_by_username name) ≡ found
    → IsOutcome apis names rest
    → IsOutcome apis (name ∷ names) (add_id found name rest)
add_id-IsOutcome apis name names none rest e h = (rw (==-self name) refl, e)
add_id-IsOutcome apis name names (some user) (unresolved later) e (listed, missing) =
    (ground (arith, listed), missing)
add_id-IsOutcome apis name names (some user) (resolved ids) e h =
    AreUsers.next name user.user_id names ids (user, e, refl) h

resolve_ids-IsOutcome :
    (apis : CreateApis) (names : List String) → IsOutcome apis names (resolve_ids apis names)
unfolding resolve_ids
resolve_ids-IsOutcome apis [] = AreUsers.end
resolve_ids-IsOutcome apis (name ∷ names) =
    add_id-IsOutcome apis name names (accepted (apis.user_by_username name))
      (resolve_ids apis names) refl (resolve_ids-IsOutcome apis names)

remove_duplicates-listed :
    (ids : List String) (id : String) → is_listed id (remove_duplicates ids) ≡ is_listed id ids
unfolding remove_duplicates
remove_duplicates-listed ids id = elim (Bool-cases (is_listed id ids)) [
  | inl there ↦ let kept = keep_new-listed [] ids id there in ground arith
  | inr absent ↦ elim (Bool-cases (is_listed id (keep_new [] ids))) [
    | inl kept ↦ let there = keep_new-only [] ids id kept in ground arith
    | inr gone ↦ ground arith
  ]
]

-- A conversation that was made: the server took a request for the user and the users of the names.
pub record IsCreated (apis : CreateApis) (user_id : String) (names : List String)
    (request : List String → ConversationCreateRequest) (result : CreateResult) : Type 0 where
  pub ids : List String
  pub members : List String
  pub made : ConversationCreateResponse
  pub are_users : AreUsers apis names ids
  pub accepted_by_server : accepted (apis.create_conversation (request members)) ≡ some made
  pub is_id : result.conversation_id ≡ made.conversation_id
  pub distinct : IsDistinct members
  pub are_members : (id : String) → is_listed id members ≡ is_listed id (user_id ∷ ids)

create_with-IsCreated :
    (apis : CreateApis) (user_id : String) (names : List String) (found : Resolved)
    (request : List String → ConversationCreateRequest) (failure : String)
    → IsOutcome apis names found
    → (create_with apis user_id found request failure).created ≡ true
    → IsCreated apis user_id names request (create_with apis user_id found request failure)
create_with-IsCreated apis user_id names (unresolved name) request failure o h =
    absurd (ground arith)
create_with-IsCreated apis user_id names (resolved ids) request failure o h =
    let members = remove_duplicates (user_id ∷ ids) in
    elim (Option-cases (accepted (apis.create_conversation (request members)))) [
      | inl refused ↦ absurd (ground arith)
      | inr (made, took) ↦ record {
        ids = ids;
        members = members;
        made = made;
        are_users = o;
        accepted_by_server = took;
        is_id = rw (create_with, took) refl;
        distinct = unfold remove_duplicates in keep_new-IsDistinct [] (user_id ∷ ids);
        are_members = remove_duplicates-listed (user_id ∷ ids);
      }
    ]

-- Where a group is reported as created, the directory resolved each of the names, and the server
-- made a group of exactly the user and the users of the names, none of them twice.
pub create_group-created :
    (apis : CreateApis) (auth : AuthContext) (usernames : List String)
    → (create_group apis (some auth) usernames).created ≡ true
    → IsCreated apis auth.user_id usernames
        (λ members. record {
          type = "group";
          peer_user_id = "";
          members = members;
          admins = [];
          subscribers = [];
        })
        (create_group apis (some auth) usernames)
unfolding create_group
create_group-created apis auth usernames h =
    create_with-IsCreated apis auth.user_id usernames (resolve_ids apis usernames) group_request
      "Could not create group." (resolve_ids-IsOutcome apis usernames) h

-- The same of a channel and its admins.
create_channel-created :
    (apis : CreateApis) (auth : AuthContext) (admin_usernames : List String)
    → (create_channel apis (some auth) admin_usernames).created ≡ true
    → IsCreated apis auth.user_id admin_usernames
        (λ admins. record {
          type = "channel";
          peer_user_id = "";
          members = [];
          admins = admins;
          subscribers = [];
        })
        (create_channel apis (some auth) admin_usernames)
unfolding create_channel
create_channel-created apis auth admin_usernames h =
    create_with-IsCreated apis auth.user_id admin_usernames (resolve_ids apis admin_usernames)
      channel_request "Could not create channel." (resolve_ids-IsOutcome apis admin_usernames) h
