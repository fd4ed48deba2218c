-- ===== src/Workspace/Keeps.antt =====
-- What the commands of packages/workspace keep: sound tables, and each workspace with its one owner.
use memovi.Prelude.{String, ◌≡◌, refl, sym, true, some, str_eq, eq_iff, In}
use memovi.Prelude.Strings.{strip}
use memovi.Prelude.Results.{ok, ok-bind, present-ok, require-ok}
use memovi.Prelude.Table.{get, get_of_In}
use memovi.Prelude.Rows.{find-In, find-passes, All_of_In}
use memovi.Workspace.{
  WorkspaceMembership, Store, membership_id, Role, owner_role, member_role, same_role, is_of,
  get_membership, WorkspaceMembershipEvent, MembershipEventType, add_event,
  workspace_owner_required, workspace_membership_required,
}
use memovi.Workspace.Commands.{Fresh, require_membership, require_owner, record_event}
use memovi.Workspace.Soundness.{IsValid, IsSound, get_membership-row, add_event-same}
use memovi.Workspace.Ownership.{IsOwned, and-true}

pub record IsKept (s : Store) : Type 0 where
  pub sound : IsSound s.workspaces s.memberships
  pub owned : (w : String) → IsOwned s.workspaces s.memberships w

-- The entry in the audit trail leaves the other tables alone.
logged-IsKept :
    (e : WorkspaceMembershipEvent) (s : Store) {after : Store}
    → add_event e s ≡ ok after
    → IsKept s
    → IsKept after
logged-IsKept e s h kept =
    let (workspaces, rows) = add_event-same e s h in
    record {
      sound = rw (workspaces, rows) kept.sound;
      owned = λ w. rw (workspaces, rows) (kept.owned w);
    }

-- The row that a query found, and where it stands.
pub found-row :
    (user workspace : String) (s : Store) {m : WorkspaceMembership}
    → IsKept s
    → get_membership user workspace s ≡ ok (some m)
    → In m s.memberships
      × (m.user_id ≡ strip user)
      × (m.workspace_id ≡ workspace)
      × IsValid m
      × (get membership_id m.id s.memberships ≡ some m)
found-row user workspace s {m} kept h =
    let p = is_of (strip user) workspace in
    let row = get_membership-row user workspace s kept.sound.valid h in
    let i = find-In p s.memberships row in
    let (of_user, of_workspace) =
      and-true (str_eq m.user_id (strip user)) (str_eq m.workspace_id workspace)
        (find-passes p s.memberships row) in
    (
      i,
      (eq_iff m.user_id (strip user)).0 of_user,
      (eq_iff m.workspace_id workspace).0 of_workspace,
      All_of_In IsValid s.memberships kept.sound.valid i,
      get_of_In membership_id s.memberships kept.sound.unique i,
    )

pub require_membership-row :
    (user workspace : String) (s : Store) {m : WorkspaceMembership}
    → require_membership user workspace s ≡ ok m
    → get_membership user workspace s ≡ ok (some m)
unfolding require_membership
require_membership-row user workspace s h =
    let (found, read, rest) = ok-bind (get_membership user workspace s) h in
    rw (sym (present-ok workspace_membership_required found rest)) read

pub require_owner-row :
    (user workspace : String) (s : Store) {m : WorkspaceMembership}
    → require_owner user workspace s ≡ ok m
    → (get_membership user workspace s ≡ ok (some m)) × (m.role ≡ owner_role)
unfolding require_owner
require_owner-row user workspace s {m} h =
    let (found, read, rest) = ok-bind (require_membership user workspace s) h in
    let (owning, end) =
      require-ok workspace_owner_required (same_role found.role owner_role) rest in
    let same : found ≡ m = cc in
    (
      require_membership-row user workspace s (rw (sym same) read),
      rw (sym same) (is_owner found.role owning),
    )
  where
    is_owner : (role : Role) → same_role role owner_role ≡ true → role ≡ owner_role
    is_owner owner_role h = refl
    is_owner member_role h = cc

pub recorded-IsKept :
    (fresh : Fresh) (w : String) (type : MembershipEventType) (actor target detail : String)
    (s : Store) {after : Store}
    → record_event fresh w type actor target detail s ≡ ok after
    → IsKept s
    → IsKept after
recorded-IsKept fresh w type actor target detail s h kept =
    logged-IsKept
      (record {
        id = fresh.event_uuid;
        workspace_id = w;
        event_type = type;
        actor_user_id = actor;
        target_user_id = target;
        detail = detail;
        occurred_at = fresh.event_now;
      })
      s h kept
