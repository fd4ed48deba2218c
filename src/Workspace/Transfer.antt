-- ===== src/Workspace/Transfer.antt =====
-- The two assignments of a transfer of ownership.
pub mod Command
use memovi.Prelude.{
  ℕ, ◌+◌, ◌≤◌, String, ◌≡◌, refl, sym, ap, ◌≢◌, ◌⊎◌, inl, inr, ◌∙◌, Bool, true, false, none, some,
  List, str_eq, arith, eq_iff, In, text-cases,
}
use memovi.Prelude.Table.{get, modify, get-modify_ne}
use memovi.Prelude.Rows.{bit, count, count-modify, count-remove}
use memovi.Workspace.{
  Workspace, WorkspaceMembership, membership_id, Role, owner_role, member_role, has_role,
  write_membership,
}
use memovi.Workspace.Ownership.{
  is_member_row, IsOwned, quiet-IsOwned, one_owner, elsewhere_counts, owner_counts, member_counts,
}

module _ (rows : List WorkspaceMembership) (actor target : WorkspaceMembership) where
  abbrev pub swapped : List WorkspaceMembership
  swapped =
      modify membership_id target.id (write_membership (record target { role = owner_role })) (
        modify membership_id actor.id (write_membership (record actor { role = member_role })) rows)

  module _ (actor_row : get membership_id actor.id rows ≡ some actor)
      (target_row : get membership_id target.id rows ≡ some target)
      (others : actor.id ≢ target.id) where
    pub target_stays :
        get membership_id target.id (
          modify membership_id actor.id
            (write_membership (record actor { role = member_role }))
            rows)
        ≡ some target
    target_stays =
        get-modify_ne membership_id (write_membership (record actor { role = member_role }))
          (λ r. refl) actor.id target.id rows others
        ∙ target_row

    count-swapped :
        (q : WorkspaceMembership → Bool)
        → count q swapped + bit (q target) + bit (q actor)
          ≡ count q rows
            + bit (q (record actor { role = member_role }))
            + bit (q (record target { role = owner_role }))
    count-swapped q = omega (
      arith,
      count-modify membership_id q actor.id (write_membership (record actor { role = member_role }))
          rows actor_row,
      count-modify membership_id q target.id
          (write_membership (record target { role = owner_role }))
          (modify membership_id actor.id (write_membership (record actor { role = member_role }))
            rows)
          target_stays,
    )

    transferred_here :
        (w : String)
        → actor.role ≡ owner_role
        → actor.workspace_id ≡ w
        → target.workspace_id ≡ w
        → count (has_role w owner_role) rows ≡ 1
        → count (has_role w owner_role) swapped ≡ 1
    transferred_here w role here there one = omega (
      arith,
      count-swapped (has_role w owner_role),
      count-modify membership_id (has_role w owner_role) actor.id
          (write_membership (record actor { role = member_role })) rows actor_row,
      count-remove membership_id (has_role w owner_role) target.id
          (modify membership_id actor.id (write_membership (record actor { role = member_role }))
            rows)
          target_stays,
      ap bit (owner_counts actor w role here),
      member_counts (record actor { role = member_role }) w refl,
      ap bit (owner_counts (record target { role = owner_role }) w refl there),
    )

    -- After a transfer each workspace has as many owners as before.
    pub transfer-IsOwned :
        (workspaces : List Workspace) (w : String)
        → In actor rows
        → actor.role ≡ owner_role
        → target.workspace_id ≡ actor.workspace_id
        → IsOwned workspaces rows w
        → IsOwned workspaces swapped w
    transfer-IsOwned workspaces w i role same owned = elim (text-cases actor.workspace_id w) [
      | inl (b, e) ↦
          inr (transferred_here w role e (same ∙ e) (one_owner workspaces rows w owned i e))
      | inr (b, _) ↦
          let away : str_eq target.workspace_id w ≡ false = rw same b in
          let a = elsewhere_counts actor w b in
          let lowered = elsewhere_counts (record actor { role = member_role }) w b in
          let t = elsewhere_counts target w away in
          let raised = elsewhere_counts (record target { role = owner_role }) w away in
          quiet-IsOwned workspaces rows swapped w
            (omega (arith, count-swapped (has_role w owner_role), a, lowered, t, raised))
            (omega (arith, count-swapped (is_member_row w), a, lowered, t, raised)) owned
    ]
