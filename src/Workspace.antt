-- ===== src/Workspace.antt =====
-- packages/workspace/src/memovi_workspace: the entities of domain/entities, and the tables with the
-- repositories of infrastructure/repositories. An exception rolls the whole request back
-- (apps/api/src/api/database.py), so an operation returns the new tables or an error. A message that
-- no code reads is left out. A workspace identifier is the canonical text of a UUID.
pub mod Commands
pub mod Soundness
pub mod Ownership
pub mod Transfer
pub mod Keeps
pub mod Joining
pub mod Departing
pub mod Histories
pub mod Examples
use memovi.Prelude.{
  ℕ, String, Bool, true, false, ◌&&◌, ◌||◌, Option, none, some, List, [], ◌∷◌, ◌++◌, ltb, str_eq,
  if◌then◌else◌, is_some,
}
use memovi.Prelude.Strings.{strip, size}
use memovi.Prelude.Results.{Result, ok, err, ◌>>=◌, ◌>>◌, require}
use memovi.Prelude.Rows.{count}
use memovi.Prelude.Table.{get, modify, remove, find}

-- domain/exceptions.py and those beside the entities. `integrity_error` is the database's.
pub data Error : Type 0 where
  invalid_workspace_id : Error
  invalid_workspace_name : Error
  invalid_workspace_membership : Error
  invalid_workspace_membership_event : Error
  workspace_not_found : Error
  workspace_membership_required : Error
  workspace_owner_required : Error
  workspace_member_not_found : Error
  workspace_member_already_exists : Error
  workspace_user_not_found : Error
  cannot_remove_last_owner : Error
  cannot_leave_as_sole_owner : Error
  integrity_error : Error
  assertion_error : Error

-- VALID_ROLES
pub data Role : Type 0 where
  owner_role member_role : Role

abbrev pub same_role : Role → Role → Bool
same_role owner_role owner_role = true
same_role member_role member_role = true
same_role _ _ = false

pub record Workspace : Type 0 where
  pub id : String
  pub name : String
  pub created_at : ℕ

-- Workspace.__post_init__
unfoldable pub workspace_init : Workspace → Result Error Workspace
workspace_init w =
    let normalized = strip w.name in
    if str_eq normalized ""
    then err invalid_workspace_name
    else if ltb 256 (size normalized)
    then err invalid_workspace_name
    else ok (record w { name = normalized })

pub record WorkspaceMembership : Type 0 where
  pub id : String
  pub workspace_id : String
  pub user_id : String
  pub role : Role
  pub created_at : ℕ

-- WorkspaceMembership.__post_init__; the role is one of the valid ones by its type.
unfoldable pub membership_init : WorkspaceMembership → Result Error WorkspaceMembership
membership_init m =
    if str_eq (strip m.id) ""
    then err invalid_workspace_membership
    else if str_eq (strip m.user_id) ""
    then err invalid_workspace_membership
    else ok (record m { id = strip m.id; user_id = strip m.user_id })

-- WorkspaceMembership.with_role
unfoldable pub with_role : Role → WorkspaceMembership → Result Error WorkspaceMembership
unfolding membership_init
with_role role m = membership_init (record m { role = role })

-- MEMBERSHIP_EVENT_TYPES
pub data MembershipEventType : Type 0 where
  member_invited member_removed ownership_transferred member_left : MembershipEventType

pub record WorkspaceMembershipEvent : Type 0 where
  pub id : String
  pub workspace_id : String
  pub event_type : MembershipEventType
  pub actor_user_id : String
  pub target_user_id : String
  pub detail : String
  pub occurred_at : ℕ

-- WorkspaceMembershipEvent.__post_init__
unfoldable pub event_init : WorkspaceMembershipEvent → Result Error WorkspaceMembershipEvent
event_init e =
    let actor = strip e.actor_user_id in
    let target = strip e.target_user_id in
    if str_eq actor ""
    then err invalid_workspace_membership_event
    else if str_eq target ""
    then err invalid_workspace_membership_event
    else ok (record e { actor_user_id = actor; target_user_id = target; detail = strip e.detail })

pub record Store : Type 0 where
  pub workspaces : List Workspace
  pub memberships : List WorkspaceMembership
  pub events : List WorkspaceMembershipEvent

abbrev pub workspace_id : Workspace → String
workspace_id w = w.id

abbrev pub membership_id : WorkspaceMembership → String
membership_id m = m.id

-- `_to_domain` of a row that may be missing: the entity is made anew, so its checks run.
abbrev pub to_domain : {A : Type 0} → (A → Result Error A) → Option A → Result Error (Option A)
to_domain init none = ok none
to_domain init (some row) = init row >>= λ entity. ok (some entity)

-- SqlAlchemyWorkspaceRepository.get_by_id and add, with the table's primary key.
unfoldable pub get_by_id : String → Store → Result Error (Option Workspace)
get_by_id id s = to_domain workspace_init (get workspace_id id s.workspaces)

unfoldable pub add_workspace : Workspace → Store → Result Error Store
add_workspace w s =
    if is_some (get workspace_id w.id s.workspaces)
    then err integrity_error
    else ok (record s { workspaces = s.workspaces ++ w ∷ [] })

-- The filter of a query by user and workspace. `get` and `remove` strip the user before.
abbrev pub is_of : String → String → WorkspaceMembership → Bool
is_of user workspace row = str_eq row.user_id user && str_eq row.workspace_id workspace

-- SqlAlchemyWorkspaceMembershipRepository.get
unfoldable pub get_membership : String → String → Store → Result Error (Option WorkspaceMembership)
get_membership user workspace s =
    to_domain membership_init (find (is_of (strip user) workspace) s.memberships)

-- What the constraints of the table refuse: a second row of a primary key or of a user in a
-- workspace, and a workspace that is not there.
abbrev pub is_refused : WorkspaceMembership → Store → Bool
is_refused m s =
    is_some (get membership_id m.id s.memberships)
    || is_some (find (is_of m.user_id m.workspace_id) s.memberships)
    || (if is_some (get workspace_id m.workspace_id s.workspaces) then false else true)

abbrev pub insert_membership :
    WorkspaceMembership → Store → Option WorkspaceMembership → Result Error Store
insert_membership m s (some existing) = ok s
insert_membership m s none =
    if is_refused m s
    then err integrity_error
    else ok (record s { memberships = s.memberships ++ m ∷ [] })

-- SqlAlchemyWorkspaceMembershipRepository.add
unfoldable pub add_membership : WorkspaceMembership → Store → Result Error Store
unfolding get_membership
add_membership m s =
    get_membership m.user_id m.workspace_id s >>= λ existing. insert_membership m s existing

-- The assignments of `update` to a row.
abbrev pub write_membership : WorkspaceMembership → WorkspaceMembership → WorkspaceMembership
write_membership m row = record row {
  role = m.role;
  user_id = m.user_id;
  workspace_id = m.workspace_id;
}

abbrev pub write_row : WorkspaceMembership → Store → Option WorkspaceMembership → Result Error Store
write_row m s none = add_membership m s
write_row m s (some row) =
    ok (record s { memberships = modify membership_id row.id (write_membership m) s.memberships })

abbrev pub first_of : {A : Type 0} → Option A → Option A → Option A
first_of none other = other
first_of (some a) other = some a

-- SqlAlchemyWorkspaceMembershipRepository.update: the row of the identifier, else the one of the user
-- in the workspace, else a new one.
unfoldable pub update_membership : WorkspaceMembership → Store → Result Error Store
unfolding add_membership
update_membership m s = write_row m s (
    first_of (get membership_id m.id s.memberships)
      (find (is_of m.user_id m.workspace_id) s.memberships))

abbrev pub delete_row :
    Store → Option WorkspaceMembership → Result Error (Option WorkspaceMembership × Store)
delete_row s none = ok (none, s)
delete_row s (some row) = do
  membership ← membership_init row
  ok (some membership, record s { memberships = remove membership_id row.id s.memberships })

-- SqlAlchemyWorkspaceMembershipRepository.remove
unfoldable pub remove_membership :
    String → String → Store → Result Error (Option WorkspaceMembership × Store)
unfolding membership_init
remove_membership user workspace s =
    delete_row s (find (is_of (strip user) workspace) s.memberships)

abbrev pub has_role : String → Role → WorkspaceMembership → Bool
has_role workspace role row = str_eq row.workspace_id workspace && same_role row.role role

-- SqlAlchemyWorkspaceMembershipRepository.count_by_role
unfoldable pub count_by_role : String → Role → Store → ℕ
count_by_role workspace role s = count (has_role workspace role) s.memberships

abbrev event_id : WorkspaceMembershipEvent → String
event_id e = e.id

-- What the constraints of the table of events refuse.
abbrev pub is_event_refused : WorkspaceMembershipEvent → Store → Bool
is_event_refused e s =
    is_some (get event_id e.id s.events)
    || (if is_some (get workspace_id e.workspace_id s.workspaces) then false else true)

abbrev pub insert_event : WorkspaceMembershipEvent → Store → Result Error Store
insert_event e s =
    if is_event_refused e s
    then err integrity_error
    else ok (record s { events = s.events ++ e ∷ [] })

-- SqlAlchemyWorkspaceMembershipEventRepository.add
unfoldable pub add_event : WorkspaceMembershipEvent → Store → Result Error Store
unfolding event_init
add_event e s = event_init e >>= λ event. insert_event event s
