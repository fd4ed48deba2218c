-- ===== src/Workspace/Ownership.antt =====
-- The owners of a workspace, as the tables change.
use memovi.Prelude.{
  ◌≤◌, String, ◌≡◌, refl, ◌≢◌, ◌⊎◌, inl, inr, Bool, true, false, ◌&&◌, none, some, List, ◌∷◌, [],
  ◌++◌, str_eq, arith, eq_iff, In, text-cases, ap, and-false,
}
use memovi.Prelude.Table.{get, remove}
use memovi.Prelude.Rows.{bit, count, count-append, count-remove, count_of_In, count_mono}
use memovi.Workspace.{
  Workspace, WorkspaceMembership, workspace_id, membership_id, owner_role, member_role, same_role,
  has_role,
}
use memovi.Workspace.Commands.{default_workspace_id}

abbrev pub is_member_row : String → WorkspaceMembership → Bool
is_member_row w row = str_eq row.workspace_id w

-- A workspace has one owner; or it has no member at all, and then it is the default one or not there.
abbrev pub IsOwned : List Workspace → List WorkspaceMembership → String → Type 0
IsOwned workspaces rows w =
    ((count (is_member_row w) rows ≡ 0)
      × ((w ≡ default_workspace_id) ⊎ (get workspace_id w workspaces ≡ none)))
    ⊎ (count (has_role w owner_role) rows ≡ 1)

pub and-true : (a b : Bool) → (a && b) ≡ true → (a ≡ true) × (b ≡ true)
and-true true b h = (refl, h)
and-true false b h = cc

-- Of what a row is counted for.
pub member_counts :
    (m : WorkspaceMembership) (w : String)
    → m.role ≡ member_role
    → bit (has_role w owner_role m) ≡ 0
member_counts m w role = rw role (rw (and-false (str_eq m.workspace_id w)) refl)

pub elsewhere_counts :
    (m : WorkspaceMembership) (w : String)
    → str_eq m.workspace_id w ≡ false
    → (bit (has_role w owner_role m) ≡ 0) × (bit (is_member_row w m) ≡ 0)
elsewhere_counts m w b = rw b (refl, refl)

pub owner_counts :
    (m : WorkspaceMembership) (w : String)
    → m.role ≡ owner_role
    → m.workspace_id ≡ w
    → has_role w owner_role m ≡ true
owner_counts m w role e = rw (role, (eq_iff m.workspace_id w).1 e) refl

pub owners_of_members :
    (w : String) (rows : List WorkspaceMembership)
    → count (has_role w owner_role) rows ≤ count (is_member_row w) rows
owners_of_members w =
    count_mono (has_role w owner_role) (is_member_row w)
      (λ r h. (and-true (str_eq r.workspace_id w) (same_role r.role owner_role) h).0)

module _ (workspaces : List Workspace) (rows : List WorkspaceMembership) where
  -- A workspace with a member has one owner.
  pub one_owner :
      (w : String) {m : WorkspaceMembership}
      → IsOwned workspaces rows w
      → In m rows
      → m.workspace_id ≡ w
      → count (has_role w owner_role) rows ≡ 1
  one_owner w (inr one) i e = one
  one_owner w {m} (inl (empty, _)) i e =
      let some_member = count_of_In (is_member_row w) rows i ((eq_iff m.workspace_id w).1 e) in
      omega arith

  -- No owner more or less, and no new member.
  pub quiet-IsOwned :
      (after : List WorkspaceMembership) (w : String)
      → count (has_role w owner_role) after ≡ count (has_role w owner_role) rows
      → count (is_member_row w) after ≤ count (is_member_row w) rows
      → IsOwned workspaces rows w
      → IsOwned workspaces after w
  quiet-IsOwned after w same fewer (inl (empty, e)) = inl (omega arith, e)
  quiet-IsOwned after w same fewer (inr one) = inr (omega arith)

  pub append_member-IsOwned :
      (m : WorkspaceMembership) (w : String)
      → m.role ≡ member_role
      → count (has_role m.workspace_id owner_role) rows ≡ 1
      → IsOwned workspaces rows w
      → IsOwned workspaces (rows ++ m ∷ []) w
  append_member-IsOwned m w role one owned = elim (text-cases m.workspace_id w) [
    | inl (b, e) ↦
        let one_here = rw e at one in
        inr (omega (arith, count-append (has_role w owner_role) rows m, member_counts m w role))
    | inr (b, _) ↦
        quiet-IsOwned (rows ++ m ∷ []) w
          (omega (arith, count-append (has_role w owner_role) rows m, elsewhere_counts m w b))
          (omega (arith, count-append (is_member_row w) rows m, elsewhere_counts m w b)) owned
  ]

  pub append_owner-IsOwned :
      (m : WorkspaceMembership) (w : String)
      → m.role ≡ owner_role
      → count (is_member_row m.workspace_id) rows ≡ 0
      → (m.workspace_id ≢ w → IsOwned workspaces rows w)
      → IsOwned workspaces (rows ++ m ∷ []) w
  append_owner-IsOwned m w role empty owned = elim (text-cases m.workspace_id w) [
    | inl (b, e) ↦
        let none_here = rw e at empty in
        inr (
          omega (
            arith,
            count-append (has_role w owner_role) rows m,
            owners_of_members w rows,
            ap bit (owner_counts m w role e),
          ))
    | inr (b, n) ↦
        quiet-IsOwned (rows ++ m ∷ []) w
          (omega (arith, count-append (has_role w owner_role) rows m, elsewhere_counts m w b))
          (omega (arith, count-append (is_member_row w) rows m, elsewhere_counts m w b)) (owned n)
  ]

  pub remove_member-IsOwned :
      (m : WorkspaceMembership) (w : String)
      → get membership_id m.id rows ≡ some m
      → m.role ≡ member_role
      → IsOwned workspaces rows w
      → IsOwned workspaces (remove membership_id m.id rows) w
  remove_member-IsOwned m w found role owned =
      quiet-IsOwned (remove membership_id m.id rows) w
        (omega (
          arith,
          count-remove membership_id (has_role w owner_role) m.id rows found,
          member_counts m w role,
        ))
        (omega (arith, count-remove membership_id (is_member_row w) m.id rows found)) owned
