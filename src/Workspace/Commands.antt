-- ===== src/Workspace/Commands.antt =====
-- packages/workspace/src/memovi_workspace/application: membership_guards.py and the commands. What
-- uuid4() and the clock give during a command is its argument `fresh`.
use memovi.Prelude.{
  ℕ, String, not, Option, none, some, str_eq, leb, concat, ◌&&◌, if◌then◌else◌, is_some,
}
use memovi.Prelude.Strings.{strip}
use memovi.Prelude.Results.{Result, ok, ◌>>=◌, ◌>>◌, require, present}
use memovi.Workspace.{
  Error, invalid_workspace_id, workspace_not_found, workspace_membership_required,
  workspace_owner_required, workspace_member_not_found, workspace_member_already_exists,
  workspace_user_not_found, cannot_remove_last_owner, cannot_leave_as_sole_owner, assertion_error,
  Role, owner_role, member_role, same_role, Workspace, workspace_init, WorkspaceMembership,
  membership_init, with_role, MembershipEventType, member_invited, member_removed,
  ownership_transferred, member_left, Store, get_by_id, add_workspace, get_membership,
  add_membership, update_membership, remove_membership, count_by_role, add_event,
}

-- `str(uuid.UUID(value))` where it is a UUID, the lower case of a text, and the directory of users.
pub record Ports : Type 0 where
  pub parse_uuid : String → Option String
  pub lower : String → String
  pub find_user_id_by_email : String → Option String
  pub find_email_by_user_id : String → Option String

pub record Fresh : Type 0 where
  pub workspace_uuid : String
  pub membership_uuid : String
  pub event_uuid : String
  pub workspace_now : ℕ
  pub membership_now : ℕ
  pub event_now : ℕ

-- DEFAULT_WORKSPACE_ID of memovi_shared
abbrev pub default_workspace_id : String
default_workspace_id = "00000000-0000-4000-8000-000000000001"

pub record WorkspaceMembershipDto : Type 0 where
  pub membership : WorkspaceMembership
  pub email : Option String

unfoldable pub require_membership : String → String → Store → Result Error WorkspaceMembership
unfolding get_membership
require_membership user workspace s =
    get_membership user workspace s >>= present workspace_membership_required

unfoldable pub require_owner : String → String → Store → Result Error WorkspaceMembership
unfolding require_membership
require_owner user workspace s = do
  membership ← require_membership user workspace s
  require workspace_owner_required (same_role membership.role owner_role)
  ok membership

-- What the commands begin with: `WorkspaceId(…)` and the look-up of the workspace.
unfoldable pub existing_workspace : Ports → String → Store → Result Error String
unfolding get_by_id
existing_workspace ports id s = do
  workspace_id ← present invalid_workspace_id (ports.parse_uuid id)
  found ← get_by_id workspace_id s
  workspace ← present workspace_not_found found
  ok workspace_id

abbrev pub new_membership : Fresh → String → String → Role → WorkspaceMembership
new_membership fresh workspace user role = record {
  id = fresh.membership_uuid;
  workspace_id = workspace;
  user_id = user;
  role = role;
  created_at = fresh.membership_now;
}

-- WorkspaceMembershipEvent.create, and its entry in the table
abbrev pub record_event :
    Fresh → String → MembershipEventType → String → String → String → Store → Result Error Store
record_event fresh workspace type actor target detail s =
    add_event
      (record {
        id = fresh.event_uuid;
        workspace_id = workspace;
        event_type = type;
        actor_user_id = actor;
        target_user_id = target;
        detail = detail;
        occurred_at = fresh.event_now;
      })
      s

-- CreateWorkspace.execute
unfoldable pub create_workspace : Fresh → String → String → Store → Result Error (Workspace × Store)
create_workspace fresh name user s = do
  workspace ←
      workspace_init
        (record { id = fresh.workspace_uuid; name = name; created_at = fresh.workspace_now })
  added ← add_workspace workspace s
  membership ← membership_init (new_membership fresh workspace.id user owner_role)
  joined ← add_membership membership added
  ok (workspace, joined)

abbrev pub enroll_in : Fresh → String → Store → Option Workspace → Result Error Store
enroll_in fresh user s none = ok s
enroll_in fresh user s (some workspace) =
    let role =
      if leb (count_by_role workspace.id owner_role s) 0 then owner_role else member_role in
    membership_init (new_membership fresh workspace.id user role) >>= λ membership.
    add_membership membership s

-- EnrollDefaultWorkspaceMember.execute
unfoldable pub enroll_default_workspace_member : Fresh → String → Store → Result Error Store
enroll_default_workspace_member fresh user s = do
  found ← get_by_id default_workspace_id s
  enroll_in fresh user s found

-- InviteWorkspaceMember.execute
unfoldable pub invite_workspace_member :
    Ports → Fresh → String → String → String → Store → Result Error (WorkspaceMembershipDto × Store)
invite_workspace_member ports fresh id actor email s = do
  workspace ← existing_workspace ports id s
  guard ← require_owner actor workspace s
  user ← present workspace_user_not_found (ports.find_user_id_by_email (ports.lower (strip email)))
  existing ← get_membership user workspace s
  require workspace_member_already_exists (not (is_some existing))
  membership ← membership_init (new_membership fresh workspace user member_role)
  joined ← add_membership membership s
  logged ←
      record_event fresh workspace member_invited actor user
        (concat "Invited " (concat (ports.lower (strip email)) " as member")) joined
  ok (record { membership = membership; email = some (ports.lower (strip email)) }, logged)

-- The end of `remove` and `leave`: the row is deleted, and the event written.
abbrev pub depart :
    Ports
    → Fresh
    → String
    → MembershipEventType
    → String
    → String
    → String
    → Store
    → Result Error (WorkspaceMembershipDto × Store)
depart ports fresh workspace type actor target detail s = do
  outcome ← remove_membership target workspace s
  removed ← present assertion_error outcome.0
  logged ← record_event fresh workspace type actor target detail outcome.1
  ok (record { membership = removed; email = ports.find_email_by_user_id removed.user_id }, logged)

-- RemoveWorkspaceMember.execute
unfoldable pub remove_workspace_member :
    Ports → Fresh → String → String → String → Store → Result Error (WorkspaceMembershipDto × Store)
remove_workspace_member ports fresh id actor user s = do
  workspace ← existing_workspace ports id s
  guard ← require_owner actor workspace s
  found ← get_membership user workspace s
  target ← present workspace_member_not_found found
  require cannot_remove_last_owner
      (not (same_role target.role owner_role && leb (count_by_role workspace owner_role s) 1))
  depart ports fresh workspace member_removed actor user "Member removed by owner" s

-- LeaveWorkspace.execute
unfoldable pub leave_workspace :
    Ports → Fresh → String → String → Store → Result Error (WorkspaceMembershipDto × Store)
leave_workspace ports fresh id user s = do
  workspace ← existing_workspace ports id s
  membership ← require_membership user workspace s
  require cannot_leave_as_sole_owner
      (not (same_role membership.role owner_role && leb (count_by_role workspace owner_role s) 1))
  depart ports fresh workspace member_left user user "Member left the workspace" s

-- TransferWorkspaceOwnership.execute; the previous owner and the new one.
unfoldable pub transfer_workspace_ownership :
    Ports
    → Fresh
    → String
    → String
    → String
    → Store
    → Result Error ((WorkspaceMembershipDto × WorkspaceMembershipDto) × Store)
transfer_workspace_ownership ports fresh id actor_user user s = do
  workspace ← existing_workspace ports id s
  actor ← require_owner actor_user workspace s
  require workspace_member_not_found (not (str_eq (strip user) (strip actor_user)))
  found ← get_membership user workspace s
  target ← present workspace_member_not_found found
  demoted ← with_role member_role actor
  promoted ← with_role owner_role target
  lowered ← update_membership demoted s
  raised ← update_membership promoted lowered
  logged ←
      record_event fresh workspace ownership_transferred actor_user user "Ownership transferred"
        raised
  ok (
    (
      record { membership = demoted; email = ports.find_email_by_user_id demoted.user_id },
      record { membership = promoted; email = ports.find_email_by_user_id promoted.user_id },
    ),
    logged,
  )
