-- ===== src/Workspace/Departing.antt =====
-- Removing a member, leaving a workspace, and handing its ownership on.
use memovi.Prelude.{String, ◌≡◌, refl, sym, ap, ◌∙◌, ◌≢◌, true, not, ◌&&◌, some, leb}
use memovi.Prelude.Results.{ok, err, ok-then, present, present-ok, require-ok}
use memovi.Workspace.{
  MembershipEventType, WorkspaceMembership, Store, Role, owner_role, member_role, same_role,
  get_membership, remove_membership, count_by_role, member_removed, member_left,
  workspace_member_not_found, cannot_remove_last_owner, cannot_leave_as_sole_owner, assertion_error,
}
use memovi.Workspace.Commands.{
  Ports, Fresh, WorkspaceMembershipDto, require_membership, require_owner, existing_workspace,
  record_event, depart, remove_workspace_member, leave_workspace,
}
use memovi.Workspace.Soundness.{get_membership-row, remove-IsSound, remove_membership-cases}
use memovi.Workspace.Ownership.{one_owner, remove_member-IsOwned}
use memovi.Workspace.Keeps.{IsKept, recorded-IsKept, found-row, require_membership-row}

departed :
    (ports : Ports) (fresh : Fresh) (w : String) (type : MembershipEventType)
    (actor user detail : String) (s : Store) {m : WorkspaceMembership}
    {dto : WorkspaceMembershipDto} {after : Store}
    → IsKept s
    → get_membership user w s ≡ ok (some m)
    → m.role ≡ member_role
    → depart ports fresh w type actor user detail s ≡ ok (dto, after)
    → IsKept after
departed ports fresh w type actor user detail s {m} {dto} {after} kept found role h =
    ok-then (remove_membership user w s) h λ outcome deleted h1.
      ok-then (present assertion_error outcome.0) h1 λ removed was h2.
        ok-then (record_event fresh w type actor user detail outcome.1) h2 λ logged log h3.
          let there = present-ok assertion_error outcome.0 was in
          let whole : outcome ≡ (some removed, outcome.1) = rw (sym there) refl in
          let (row, written) =
            remove_membership-cases user w s kept.sound.valid (deleted ∙ ap ok whole) in
          let known = get_membership-row user w s kept.sound.valid found in
          let same : m ≡ removed = cc in
          let (_, _, _, _, reads) = found-row user w s kept found in
          let done : logged ≡ after = cc in
          rw (sym done) (
            recorded-IsKept fresh w type actor user detail outcome.1 log (
              rw written (
                rw (sym same) (record {
                  sound = remove-IsSound m.id s.workspaces s.memberships kept.sound;
                  owned = λ v.
                      remove_member-IsOwned s.workspaces s.memberships m v reads role
                        (kept.owned v);
                }))))

-- In tables that are kept the guard of the two commands stops an owner.
not_owner :
    (user w : String) (s : Store) {m : WorkspaceMembership}
    → IsKept s
    → get_membership user w s ≡ ok (some m)
    → not (same_role m.role owner_role && leb (count_by_role w owner_role s) 1) ≡ true
    → m.role ≡ member_role
unfolding count_by_role
not_owner user w s {m} kept found h =
    let (i, _, of_w, _, _) = found-row user w s kept found in
    let one = one_owner s.workspaces s.memberships w (kept.owned w) i of_w in
    member m.role (rw one at h)
  where
    member : (role : Role) → not (same_role role owner_role && true) ≡ true → role ≡ member_role
    member owner_role h = cc
    member member_role h = refl

pub remove_workspace_member-IsKept :
    (ports : Ports) (fresh : Fresh) (id actor user : String) (s : Store)
    {dto : WorkspaceMembershipDto} {after : Store}
    → IsKept s
    → remove_workspace_member ports fresh id actor user s ≡ ok (dto, after)
    → IsKept after
unfolding remove_workspace_member
remove_workspace_member-IsKept ports fresh id actor user s kept h =
    ok-then (existing_workspace ports id s) h λ w looked h1.
      ok-then (require_owner actor w s) h1 λ guard guarded h2.
        ok-then (get_membership user w s) h2 λ found read h3.
          ok-then (present workspace_member_not_found found) h3 λ target was h4.
            let row = read ∙ ap ok (present-ok workspace_member_not_found found was) in
            let (allowed, rest) =
              require-ok cannot_remove_last_owner
                (not (same_role target.role owner_role && leb (count_by_role w owner_role s) 1))
                h4 in
            departed ports fresh w member_removed actor user "Member removed by owner" s kept row
              (not_owner user w s kept row allowed) rest

pub leave_workspace-IsKept :
    (ports : Ports) (fresh : Fresh) (id user : String) (s : Store) {dto : WorkspaceMembershipDto}
    {after : Store}
    → IsKept s
    → leave_workspace ports fresh id user s ≡ ok (dto, after)
    → IsKept after
unfolding leave_workspace
leave_workspace-IsKept ports fresh id user s kept h =
    ok-then (existing_workspace ports id s) h λ w looked h1.
      ok-then (require_membership user w s) h1 λ membership required h2.
        let row = require_membership-row user w s required in
        let (allowed, rest) =
          require-ok cannot_leave_as_sole_owner
            (not (same_role membership.role owner_role && leb (count_by_role w owner_role s) 1))
            h2 in
        departed ports fresh w member_left user user "Member left the workspace" s kept row
          (not_owner user w s kept row allowed) rest

-- In tables that are kept an owner can neither leave nor be removed.
module _ (ports : Ports) (fresh : Fresh) (id w : String) where
  pub owner_cannot_leave :
      (user : String) (s : Store) {m : WorkspaceMembership}
      → IsKept s
      → existing_workspace ports id s ≡ ok w
      → get_membership user w s ≡ ok (some m)
      → m.role ≡ owner_role
      → leave_workspace ports fresh id user s ≡ err cannot_leave_as_sole_owner
  unfolding leave_workspace require_membership count_by_role
  owner_cannot_leave user s kept h found role =
      let (i, _, of_w, _, _) = found-row user w s kept found in
      let one = one_owner s.workspaces s.memberships w (kept.owned w) i of_w in
      rw (h, found, role, one) refl

  pub owner_cannot_be_removed :
      (actor user : String) (s : Store) {m : WorkspaceMembership}
      → IsKept s
      → existing_workspace ports id s ≡ ok w
      → get_membership user w s ≡ ok (some m)
      → m.role ≡ owner_role
      → (result : WorkspaceMembershipDto × Store)
      → remove_workspace_member ports fresh id actor user s ≢ ok result
  unfolding remove_workspace_member
  owner_cannot_be_removed actor user s {m} kept h found role (dto, after) removed =
      let opened = rw (h, found) at removed in
      ok-then (require_owner actor w s) opened λ guard guarded h2.
        let (allowed, _) =
          require-ok cannot_remove_last_owner
            (not (same_role m.role owner_role && leb (count_by_role w owner_role s) 1)) h2 in
        let member = not_owner user w s kept found allowed in absurd cc
