-- ===== src/Workspace/Transfer/Command.antt =====
-- TransferWorkspaceOwnership.execute, command and tables.
use memovi.Prelude.{
  String, ◌≡◌, refl, sym, ap, ◌∙◌, ◌≢◌, true, false, not, some, List, str_eq, arith, eq_iff, In,
  is_some,
}
use memovi.Prelude.Strings.{strip}
use memovi.Prelude.Results.{ok, ok-then, present, present-ok, require-ok}
use memovi.Prelude.Table.{get, modify, get_of_In}
use memovi.Prelude.Rows.{All_of_In}
use memovi.Workspace.{
  WorkspaceMembership, Store, workspace_id, membership_id, owner_role, member_role, get_membership,
  update_membership, ownership_transferred, workspace_member_not_found, write_membership, with_role,
}
use memovi.Workspace.Commands.{
  Ports, Fresh, WorkspaceMembershipDto, require_owner, existing_workspace, record_event,
  transfer_workspace_ownership,
}
use memovi.Workspace.Soundness.{
  IsValid, modify-IsSound, with_role-row, role-IsValid, update_membership-row,
}
use memovi.Workspace.Transfer.{transfer-IsOwned}
use memovi.Workspace.Transfer.{swapped, target_stays, transfer-IsOwned}
use memovi.Workspace.Keeps.{IsKept, recorded-IsKept, found-row, require_owner-row}

module _ (s : Store) (actor target : WorkspaceMembership) (kept : IsKept s)
    (i : In actor s.memberships) (j : In target s.memberships) (others : actor.id ≢ target.id) where
  abbrev changed : List WorkspaceMembership
  changed = swapped s.memberships actor target

  two_updates :
      (demoted promoted : WorkspaceMembership) (lowered raised : Store)
      → with_role member_role actor ≡ ok demoted
      → with_role owner_role target ≡ ok promoted
      → update_membership demoted s ≡ ok lowered
      → update_membership promoted lowered ≡ ok raised
      → raised ≡ record s { memberships = changed }
  two_updates demoted promoted lowered raised lower raise first second =
      let valid_actor = All_of_In IsValid s.memberships kept.sound.valid i in
      let valid_target = All_of_In IsValid s.memberships kept.sound.valid j in
      let down = with_role-row member_role actor valid_actor lower in
      let up = with_role-row owner_role target valid_target raise in
      let reads_actor = get_of_In membership_id s.memberships kept.sound.unique i in
      let reads_target = get_of_In membership_id s.memberships kept.sound.unique j in
      let one : lowered ≡ record s {
        memberships =
            modify membership_id actor.id (write_membership (record actor { role = member_role }))
              s.memberships;
      } =
        update_membership-row (record actor { role = member_role }) s reads_actor
          (rw (sym down) at first) in
      let there = target_stays s.memberships actor target reads_actor reads_target others in
      let last =
        update_membership-row (record target { role = owner_role }) lowered {row = target}
          (rw one there) (rw (sym up) at second) in
      last ∙ (rw one refl)

  changed-IsKept :
      actor.role ≡ owner_role
      → target.workspace_id ≡ actor.workspace_id
      → IsKept (record s { memberships = changed })
  changed-IsKept role same = record {
    sound =
        let placed = λ (m : WorkspaceMembership) (n : In m s.memberships).
          All_of_In (λ r. is_some (get workspace_id r.workspace_id s.workspaces) ≡ true)
            s.memberships kept.sound.placed n in
        let down = record actor { role = member_role } in
        let up = record target { role = owner_role } in
        modify-IsSound up target.id s.workspaces
          (modify membership_id actor.id (write_membership down) s.memberships)
          (modify-IsSound down actor.id s.workspaces s.memberships kept.sound
            (role-IsValid member_role actor (All_of_In IsValid s.memberships kept.sound.valid i))
            (placed actor i))
          (role-IsValid owner_role target (All_of_In IsValid s.memberships kept.sound.valid j))
          (placed target j);
    owned = λ v.
        transfer-IsOwned s.memberships actor target
          (get_of_In membership_id s.memberships kept.sound.unique i)
          (get_of_In membership_id s.memberships kept.sound.unique j) others s.workspaces v i role
          same (kept.owned v);
  }

-- Two rows of different users have different identifiers.
apart :
    (s : Store) (a b : WorkspaceMembership)
    → get membership_id a.id s.memberships ≡ some a
    → get membership_id b.id s.memberships ≡ some b
    → str_eq b.user_id a.user_id ≡ false
    → a.id ≢ b.id
apart s a b reads_a reads_b differ e =
    let both : some a ≡ some b = sym reads_a ∙ (rw e reads_b) in
    let same : a ≡ b = cc in
    absurd (ground (arith, eq_iff b.user_id a.user_id, ap (λ m. m.user_id) same, differ))

pub transfer_workspace_ownership-IsKept :
    (ports : Ports) (fresh : Fresh) (id actor_user user : String) (s : Store)
    {dtos : WorkspaceMembershipDto × WorkspaceMembershipDto} {after : Store}
    → IsKept s
    → transfer_workspace_ownership ports fresh id actor_user user s ≡ ok (dtos, after)
    → IsKept after
unfolding transfer_workspace_ownership
transfer_workspace_ownership-IsKept ports fresh id actor_user user s {dtos} {after} kept h =
    ok-then (existing_workspace ports id s) h λ w looked h1.
      ok-then (require_owner actor_user w s) h1 λ actor guarded h2.
        let (differ, h3) =
          require-ok workspace_member_not_found (not (str_eq (strip user) (strip actor_user))) h2 in
        ok-then (get_membership user w s) h3 λ found read h4.
          ok-then (present workspace_member_not_found found) h4 λ target was h5.
            ok-then (with_role member_role actor) h5 λ demoted lower h6.
              ok-then (with_role owner_role target) h6 λ promoted raise h7.
                ok-then (update_membership demoted s) h7 λ lowered first h8.
                  ok-then (update_membership promoted lowered) h8 λ raised second h9.
                    ok-then
                      (record_event fresh w ownership_transferred actor_user user
                        "Ownership transferred" raised)
                      h9
                      λ logged log h10.
                        let (actor_row, role) = require_owner-row actor_user w s guarded in
                        let (i, of_a, in_a, _, reads_a) = found-row actor_user w s kept actor_row in
                        let (j, of_t, in_t, _, reads_t) =
                          found-row user w s kept
                            (read ∙ ap ok (present-ok workspace_member_not_found found was)) in
                        let others =
                          apart s actor target reads_a reads_t
                            (rw (of_a, of_t) (ground (arith, differ))) in
                        let done : logged ≡ after = cc in
                        rw (sym done) (
                          recorded-IsKept fresh w ownership_transferred actor_user user
                            "Ownership transferred" raised log
                            (rw
                              (two_updates s actor target kept i j others demoted promoted lowered
                                raised lower raise first second)
                              (changed-IsKept s actor target kept i j others role
                                (in_t ∙ sym in_a))))
