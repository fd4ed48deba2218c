-- ===== src/Workspace/Histories.antt =====
-- Requests for the commands, one after the other, from the tables as they are first set up: the
-- default workspace without a member. A request that raises leaves the tables as they were.
use memovi.Prelude.{ℕ, String, ◌≡◌, refl, sym, ◌≢◌, inl, inr, some, List, [], ◌∷◌, text-cases}
use memovi.Prelude.Results.{Result, ok, err}
use memovi.Prelude.Table.{get}
use memovi.Workspace.{
  Error, cannot_leave_as_sole_owner, WorkspaceMembership, Store, owner_role, get_membership,
}
use memovi.Workspace.Commands.{
  Ports, Fresh, WorkspaceMembershipDto, default_workspace_id, create_workspace,
  enroll_default_workspace_member, invite_workspace_member, remove_workspace_member,
  leave_workspace, transfer_workspace_ownership, existing_workspace,
}
use memovi.Workspace.Ownership.{IsOwned}
use memovi.Workspace.Keeps.{IsKept}
use memovi.Workspace.Joining.{
  create_workspace-IsKept, enroll_default_workspace_member-IsKept, invite_workspace_member-IsKept,
}
use memovi.Workspace.Departing.{
  remove_workspace_member-IsKept, leave_workspace-IsKept, owner_cannot_leave,
  owner_cannot_be_removed,
}
use memovi.Workspace.Transfer.Command.{transfer_workspace_ownership-IsKept}

pub data Request : Type 0 where
  create : String → String → Request
  enroll : String → Request
  invite : String → String → String → Request
  remove_member : String → String → String → Request
  leave : String → String → Request
  transfer : String → String → String → Request

-- The tables after a request: `database_session` commits, or rolls back.
abbrev pub settled : {A : Type 0} → Store → Result Error (A × Store) → Store
settled s (ok (a, after)) = after
settled s (err e) = s

abbrev pub settled_enrolment : Store → Result Error Store → Store
settled_enrolment s (ok after) = after
settled_enrolment s (err e) = s

unfoldable pub perform : Ports → Fresh → Request → Store → Store
perform ports fresh (create name user) s = settled s (create_workspace fresh name user s)
perform ports fresh (enroll user) s =
    settled_enrolment s (enroll_default_workspace_member fresh user s)
perform ports fresh (invite id actor email) s =
    settled s (invite_workspace_member ports fresh id actor email s)
perform ports fresh (remove_member id actor user) s =
    settled s (remove_workspace_member ports fresh id actor user s)
perform ports fresh (leave id user) s = settled s (leave_workspace ports fresh id user s)
perform ports fresh (transfer id actor user) s =
    settled s (transfer_workspace_ownership ports fresh id actor user s)

unfoldable pub perform_all : Ports → List (Fresh × Request) → Store → Store
unfolding perform
perform_all ports [] s = s
perform_all ports ((fresh, request) ∷ requests) s =
    perform_all ports requests (perform ports fresh request s)

-- Workspace.default, alone in the tables
abbrev pub seeded : ℕ → Store
seeded now = record {
  workspaces = record { id = default_workspace_id; name = "Default"; created_at = now } ∷ [];
  memberships = [];
  events = [];
}

settled-IsKept :
    {A : Type 0} (s : Store) (result : Result Error (A × Store))
    → IsKept s
    → ((a : A) (after : Store) → result ≡ ok (a, after) → IsKept after)
    → IsKept (settled s result)
settled-IsKept s (ok (a, after)) kept h = h a after refl
settled-IsKept s (err e) kept h = kept

enrolment-IsKept :
    (s : Store) (result : Result Error Store)
    → IsKept s
    → ((after : Store) → result ≡ ok after → IsKept after)
    → IsKept (settled_enrolment s result)
enrolment-IsKept s (ok after) kept h = h after refl
enrolment-IsKept s (err e) kept h = kept

perform-IsKept :
    (ports : Ports) (fresh : Fresh) (request : Request) (s : Store)
    → IsKept s
    → IsKept (perform ports fresh request s)
unfolding perform
perform-IsKept ports fresh (create name user) s kept =
    settled-IsKept s (create_workspace fresh name user s) kept
      (λ a after. create_workspace-IsKept fresh name user s kept)
perform-IsKept ports fresh (enroll user) s kept =
    enrolment-IsKept s (enroll_default_workspace_member fresh user s) kept
      (λ after. enroll_default_workspace_member-IsKept fresh user s kept)
perform-IsKept ports fresh (invite id actor email) s kept =
    settled-IsKept s (invite_workspace_member ports fresh id actor email s) kept
      (λ a after. invite_workspace_member-IsKept ports fresh id actor email s kept)
perform-IsKept ports fresh (remove_member id actor user) s kept =
    settled-IsKept s (remove_workspace_member ports fresh id actor user s) kept
      (λ a after. remove_workspace_member-IsKept ports fresh id actor user s kept)
perform-IsKept ports fresh (leave id user) s kept =
    settled-IsKept s (leave_workspace ports fresh id user s) kept
      (λ a after. leave_workspace-IsKept ports fresh id user s kept)
perform-IsKept ports fresh (transfer id actor user) s kept =
    settled-IsKept s (transfer_workspace_ownership ports fresh id actor user s) kept
      (λ a after. transfer_workspace_ownership-IsKept ports fresh id actor user s kept)

perform_all-IsKept :
    (ports : Ports) (requests : List (Fresh × Request)) (s : Store)
    → IsKept s
    → IsKept (perform_all ports requests s)
unfolding perform_all
perform_all-IsKept ports [] s kept = kept
perform_all-IsKept ports ((fresh, request) ∷ requests) s kept =
    perform_all-IsKept ports requests (perform ports fresh request s)
      (perform-IsKept ports fresh request s kept)

seeded-IsKept : (now : ℕ) → IsKept (seeded now)
unfolding get
seeded-IsKept now = record {
  sound = record { unique = tt; valid = tt; placed = tt };
  owned = λ w. elim (text-cases default_workspace_id w) [
    | inl (b, e) ↦ inl (refl, inl (sym e))
    | inr (b, _) ↦ inl (refl, inr (rw b refl))
  ];
}

-- After any requests from the first tables, a workspace has exactly one owner; or it has no member at
-- all, and then it is the default workspace or is not in the table.
pub perform_all-IsOwned :
    (ports : Ports) (requests : List (Fresh × Request)) (now : ℕ) (w : String)
    → IsOwned
        (perform_all ports requests (seeded now)).workspaces
        (perform_all ports requests (seeded now)).memberships
        w
perform_all-IsOwned ports requests now w =
    (perform_all-IsKept ports requests (seeded now) (seeded-IsKept now)).owned w

-- After any requests from the first tables, an owner of a workspace who asks to leave it gets the
-- error of a sole owner, and no request to remove that user from the workspace succeeds.
pub owner_stays :
    (ports : Ports) (requests : List (Fresh × Request)) (now : ℕ) (fresh : Fresh)
    (id w user : String) {m : WorkspaceMembership}
    → existing_workspace ports id (perform_all ports requests (seeded now)) ≡ ok w
    → get_membership user w (perform_all ports requests (seeded now)) ≡ ok (some m)
    → m.role ≡ owner_role
    → (leave_workspace ports fresh id user (perform_all ports requests (seeded now))
        ≡ err cannot_leave_as_sole_owner)
      × ((actor : String) (result : WorkspaceMembershipDto × Store)
          → remove_workspace_member ports fresh id actor user
              (perform_all ports requests (seeded now))
            ≢ ok result)
owner_stays ports requests now fresh id w user h found role =
    let s = perform_all ports requests (seeded now) in
    let kept = perform_all-IsKept ports requests (seeded now) (seeded-IsKept now) in
    (
      owner_cannot_leave ports fresh id w user s kept h found role,
      λ actor. owner_cannot_be_removed ports fresh id w actor user s kept h found role,
    )
