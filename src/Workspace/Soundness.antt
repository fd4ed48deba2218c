-- ===== src/Workspace/Soundness.antt =====
-- The tables of packages/workspace hold valid rows: memberships with distinct identifiers, each of an
-- entity that passes its own checks, in a workspace of the table.
use memovi.Prelude.{
  String, ◌≡◌, refl, sym, ◌⊎◌, inl, inr, Bool, true, false, ◌||◌, ap, Option, none, some, List, ◌∷◌,
  [], ◌++◌, str_eq, arith, All, Bool-cases, is_some, if◌then◌else◌,
}
use memovi.Prelude.Strings.{strip, strip_twice}
use memovi.Prelude.Results.{Result, ok, ok-bind}
use memovi.Prelude.Table.{get, modify, remove, find, Unique, Unique-modify}
use memovi.Prelude.Rows.{
  All_of_In, All-append, All-remove, All-modify, Unique-append, Unique-remove, find-In,
  get-append_some,
}
use memovi.Workspace.{
  Error, Workspace, WorkspaceMembership, membership_init, Store, workspace_id, membership_id, Role,
  is_of, is_refused, insert_membership, add_membership, get_membership, add_workspace, to_domain,
  write_membership, update_membership, remove_membership, delete_row, WorkspaceMembershipEvent,
  add_event, is_event_refused, event_init, with_role,
}

-- A row whose entity is the row itself.
abbrev pub IsValid : WorkspaceMembership → Type 0
IsValid m = membership_init m ≡ ok m

pub membership_init-cases :
    (m : WorkspaceMembership) {entity : WorkspaceMembership}
    → membership_init m ≡ ok entity
    → (str_eq (strip m.id) "" ≡ false)
      × (str_eq (strip m.user_id) "" ≡ false)
      × (record m { id = strip m.id; user_id = strip m.user_id } ≡ entity)
unfolding membership_init
membership_init-cases m h = elim (Bool-cases (str_eq (strip m.id) "")) [
  | inl e ↦ absurd (ground (arith, h, e))
  | inr e ↦ elim (Bool-cases (str_eq (strip m.user_id) "")) [
    | inl f ↦ absurd (ground (arith, h, e, f))
    | inr f ↦ (e, f, ok_injective (rw (e, f) at h))
  ]
]
  where
    ok_injective :
        {a b : WorkspaceMembership}
        → ◌≡◌ {A = Result Error WorkspaceMembership} (ok a) (ok b)
        → a ≡ b
    ok_injective h = cc

-- The checks pass again on what they gave.
pub membership_init-IsValid :
    (m : WorkspaceMembership) {entity : WorkspaceMembership}
    → membership_init m ≡ ok entity
    → IsValid entity
unfolding membership_init
membership_init-IsValid m {entity} h =
    let (no_id, no_user, same) = membership_init-cases m h in
    rw (sym same, strip_twice m.id, strip_twice m.user_id, no_id, no_user) refl

read-row :
    (found : Option WorkspaceMembership) {m : WorkspaceMembership}
    → ((row : WorkspaceMembership) → found ≡ some row → IsValid row)
    → to_domain membership_init found ≡ ok (some m)
    → found ≡ some m
read-row none valid h = cc
read-row (some row) valid h = let own = valid row refl in let read = rw own at h in cc

-- In a valid table the entity that a query returns is the row.
pub get_membership-row :
    (user workspace : String) (s : Store) {m : WorkspaceMembership}
    → All IsValid s.memberships
    → get_membership user workspace s ≡ ok (some m)
    → find (is_of (strip user) workspace) s.memberships ≡ some m
unfolding get_membership
get_membership-row user workspace s valid h =
    let p = is_of (strip user) workspace in
    read-row (find p s.memberships)
      (λ row e. All_of_In IsValid s.memberships valid (find-In p s.memberships e)) h

-- The tables that the theorems are about.
pub record IsSound (workspaces : List Workspace) (rows : List WorkspaceMembership) : Type 0 where
  pub unique : Unique membership_id rows
  pub valid : All IsValid rows
  pub placed : All (λ r. is_some (get workspace_id r.workspace_id workspaces) ≡ true) rows

-- What `add` does: nothing where the user has a row, else a row at the end.
abbrev pub IsAdded : WorkspaceMembership → Store → Store → Type 0
IsAdded m s after =
    ((after ≡ s)
      × ((row : WorkspaceMembership) × (find (is_of (strip m.user_id) m.workspace_id) s.memberships
            ≡ some row)))
    ⊎ ((is_refused m s ≡ false) × (after ≡ record s { memberships = s.memberships ++ m ∷ [] }))

some_row :
    (found : Option WorkspaceMembership) {m : WorkspaceMembership}
    → to_domain membership_init found ≡ ok (some m)
    → (row : WorkspaceMembership) × (found ≡ some row)
some_row none h = cc
some_row (some row) h = (row, refl)

pub add_membership-IsAdded :
    (m : WorkspaceMembership) (s : Store) {after : Store}
    → add_membership m s ≡ ok after
    → IsAdded m s after
unfolding add_membership get_membership
add_membership-IsAdded m s {after} h =
    let (existing, read, rest) = ok-bind (get_membership m.user_id m.workspace_id s) h in
    inserted existing read rest
  where
    inserted :
        (existing : Option WorkspaceMembership)
        → get_membership m.user_id m.workspace_id s ≡ ok existing
        → insert_membership m s existing ≡ ok after
        → IsAdded m s after
    inserted (some row) read h =
        inl (cc, some_row (find (is_of (strip m.user_id) m.workspace_id) s.memberships) read)
    inserted none read h = elim (Bool-cases (is_refused m s)) [
      | inl e ↦ absurd (ground (arith, rw e at h))
      | inr e ↦ inr (e, let written = rw e at h in cc)
    ]

not_refused :
    (a b c : Bool) → (a || b || (if c then false else true)) ≡ false → (a ≡ false) × (c ≡ true)
not_refused true b c h = cc
not_refused false true c h = cc
not_refused false false true h = (refl, refl)
not_refused false false false h = cc

none_of_is_some : {A : Type 0} (o : Option A) → is_some o ≡ false → o ≡ none
none_of_is_some none h = refl
none_of_is_some (some a) h = cc

pub append-IsSound :
    (m : WorkspaceMembership) (s : Store)
    → IsSound s.workspaces s.memberships
    → IsValid m
    → is_refused m s ≡ false
    → IsSound s.workspaces (s.memberships ++ m ∷ [])
append-IsSound m s sound valid h =
    let (fresh, there) =
      not_refused (is_some (get membership_id m.id s.memberships))
        (is_some (find (is_of m.user_id m.workspace_id) s.memberships))
        (is_some (get workspace_id m.workspace_id s.workspaces)) h in
    record {
      unique =
          Unique-append membership_id s.memberships m sound.unique
            (none_of_is_some (get membership_id m.id s.memberships) fresh);
      valid = All-append IsValid s.memberships sound.valid valid;
      placed =
          All-append (λ r. is_some (get workspace_id r.workspace_id s.workspaces) ≡ true)
            s.memberships sound.placed there;
    }

pub add_workspace-cases :
    (w : Workspace) (s : Store) {after : Store}
    → add_workspace w s ≡ ok after
    → (get workspace_id w.id s.workspaces ≡ none)
      × (after ≡ record s { workspaces = s.workspaces ++ w ∷ [] })
unfolding add_workspace
add_workspace-cases w s h = elim (Bool-cases (is_some (get workspace_id w.id s.workspaces))) [
  | inl e ↦ absurd (ground (arith, rw e at h))
  | inr e ↦ (none_of_is_some (get workspace_id w.id s.workspaces) e, let written = rw e at h in cc)
]

placed_grow :
    (w : Workspace) (workspaces : List Workspace) (rows : List WorkspaceMembership)
    → All (λ r. is_some (get workspace_id r.workspace_id workspaces) ≡ true) rows
    → All (λ r. is_some (get workspace_id r.workspace_id (workspaces ++ w ∷ [])) ≡ true) rows
placed_grow w workspaces [] h = tt
placed_grow w workspaces (r ∷ rows) h = (
  get-append_some workspace_id r.workspace_id workspaces w h.0,
  placed_grow w workspaces rows h.1,
)

pub grow-IsSound :
    (w : Workspace) (workspaces : List Workspace) (rows : List WorkspaceMembership)
    → IsSound workspaces rows
    → IsSound (workspaces ++ w ∷ []) rows
grow-IsSound w workspaces rows sound = record {
  unique = sound.unique;
  valid = sound.valid;
  placed = placed_grow w workspaces rows sound.placed;
}

pub remove-IsSound :
    (k : String) (workspaces : List Workspace) (rows : List WorkspaceMembership)
    → IsSound workspaces rows
    → IsSound workspaces (remove membership_id k rows)
remove-IsSound k workspaces rows sound = record {
  unique = Unique-remove membership_id k rows sound.unique;
  valid = All-remove membership_id IsValid k rows sound.valid;
  placed =
      All-remove membership_id (λ r. is_some (get workspace_id r.workspace_id workspaces) ≡ true) k
        rows sound.placed;
}

-- An assignment of valid columns keeps a row valid.
write_membership-IsValid :
    (m row : WorkspaceMembership) → IsValid m → IsValid row → IsValid (write_membership m row)
unfolding membership_init
write_membership-IsValid m row valid own =
    let (_, no_user, same) = membership_init-cases m valid in
    let (no_id, _, row_same) = membership_init-cases row own in
    let user : strip m.user_id ≡ m.user_id = ap (λ x. x.user_id) same in
    let id : strip row.id ≡ row.id = ap (λ x. x.id) row_same in rw (no_id, no_user, user, id) refl

pub modify-IsSound :
    (m : WorkspaceMembership) (k : String) (workspaces : List Workspace)
    (rows : List WorkspaceMembership)
    → IsSound workspaces rows
    → IsValid m
    → is_some (get workspace_id m.workspace_id workspaces) ≡ true
    → IsSound workspaces (modify membership_id k (write_membership m) rows)
modify-IsSound m k workspaces rows sound valid there = record {
  unique = Unique-modify membership_id (write_membership m) (λ r. refl) k rows sound.unique;
  valid =
      All-modify membership_id IsValid k (write_membership m)
        (λ r. write_membership-IsValid m r valid) rows sound.valid;
  placed =
      All-modify membership_id (λ r. is_some (get workspace_id r.workspace_id workspaces) ≡ true) k
        (write_membership m) (λ r p. there) rows sound.placed;
}

-- What `remove` does, where it finds a row.
pub remove_membership-cases :
    (user workspace : String) (s : Store) {m : WorkspaceMembership} {after : Store}
    → All IsValid s.memberships
    → remove_membership user workspace s ≡ ok (some m, after)
    → (find (is_of (strip user) workspace) s.memberships ≡ some m)
      × (after ≡ record s { memberships = remove membership_id m.id s.memberships })
unfolding remove_membership
remove_membership-cases user workspace s {m} {after} valid h =
    let p = is_of (strip user) workspace in
    deleted (find p s.memberships)
      (λ row e. All_of_In IsValid s.memberships valid (find-In p s.memberships e)) h
  where
    deleted :
        (found : Option WorkspaceMembership)
        → ((row : WorkspaceMembership) → found ≡ some row → IsValid row)
        → delete_row s found ≡ ok (some m, after)
        → (found ≡ some m)
          × (after ≡ record s { memberships = remove membership_id m.id s.memberships })
    deleted none own h = cc
    deleted (some row) own h =
        let self = own row refl in
        let written = rw self at h in let same : row ≡ m = cc in (ap some same, rw (sym same) cc)

-- In a valid table `with_role` changes the role only.
pub with_role-row :
    (role : Role) (m : WorkspaceMembership) {changed : WorkspaceMembership}
    → IsValid m
    → with_role role m ≡ ok changed
    → record m { role = role } ≡ changed
unfolding with_role
with_role-row role m valid h =
    let (_, _, same) = membership_init-cases m valid in
    let (_, _, made) = membership_init-cases (record m { role = role }) h in
    let user : strip m.user_id ≡ m.user_id = ap (λ x. x.user_id) same in
    let id : strip m.id ≡ m.id = ap (λ x. x.id) same in rw (user, id) at made

pub update_membership-row :
    (m : WorkspaceMembership) (s : Store) {row : WorkspaceMembership} {after : Store}
    → get membership_id m.id s.memberships ≡ some row
    → update_membership m s ≡ ok after
    → after
      ≡ record s { memberships = modify membership_id row.id (write_membership m) s.memberships }
unfolding update_membership
update_membership-row m s found h = let written = rw found at h in cc

-- The audit trail is another table.
pub add_event-same :
    (e : WorkspaceMembershipEvent) (s : Store) {after : Store}
    → add_event e s ≡ ok after
    → (after.workspaces ≡ s.workspaces) × (after.memberships ≡ s.memberships)
unfolding add_event
add_event-same e s h =
    let (event, made, written) = ok-bind (event_init e) h in
    elim (Bool-cases (is_event_refused event s)) [
      | inl refused ↦ let clash = rw refused at written in absurd cc
      | inr fits ↦
          let written' = rw fits at written in (ground (arith, written'), ground (arith, written'))
    ]

pub role-IsValid :
    (role : Role) (m : WorkspaceMembership) → IsValid m → IsValid (record m { role = role })
unfolding membership_init
role-IsValid role m valid =
    let (no_id, no_user, same) = membership_init-cases m valid in
    let user : strip m.user_id ≡ m.user_id = ap (λ x. x.user_id) same in
    let id : strip m.id ≡ m.id = ap (λ x. x.id) same in rw (no_id, no_user, user, id) refl
