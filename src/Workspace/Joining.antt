-- ===== src/Workspace/Joining.antt =====
-- Creating a workspace, enrolling in the default one, and inviting a member.
use memovi.Prelude.{
  concat, ltb, String, ◌≡◌, refl, sym, ◌∙◌, ◌≢◌, ◌⊎◌, inl, inr, true, not, Option, none, some, List,
  [], ◌∷◌, ◌++◌, str_eq, leb, arith, All, text-cases, Bool-cases, is_some,
}
use memovi.Prelude.Strings.{strip, size}
use memovi.Prelude.Results.{ok, ◌>>=◌, ok-then, present, require-ok}
use memovi.Prelude.Table.{get, key-get}
use memovi.Prelude.Rows.{count, count_of_In, find-In, find-passes, get-append_ne}
use memovi.Workspace.{
  to_domain, workspace_user_not_found, workspace_member_already_exists, Workspace,
  WorkspaceMembership, Store, workspace_id, workspace_init, membership_init, Role, owner_role,
  member_role, has_role, is_of, get_by_id, get_membership, add_workspace, add_membership,
  count_by_role, member_invited,
}
use memovi.Workspace.Commands.{
  Ports, Fresh, WorkspaceMembershipDto, default_workspace_id, require_owner, existing_workspace,
  new_membership, record_event, create_workspace, enroll_in, enroll_default_workspace_member,
  invite_workspace_member,
}
use memovi.Workspace.Soundness.{
  IsValid, IsSound, membership_init-IsValid, membership_init-cases, add_membership-IsAdded,
  add_workspace-cases, append-IsSound, grow-IsSound,
}
use memovi.Workspace.Ownership.{
  owners_of_members, is_member_row, IsOwned, one_owner, append_member-IsOwned, append_owner-IsOwned,
  and-true,
}
use memovi.Workspace.Keeps.{IsKept, recorded-IsKept, found-row, require_owner-row}

-- No row is in a workspace that the table does not have.
members_absent :
    (w : String) (workspaces : List Workspace) (rows : List WorkspaceMembership)
    → All (λ r. is_some (get workspace_id r.workspace_id workspaces) ≡ true) rows
    → get workspace_id w workspaces ≡ none
    → count (is_member_row w) rows ≡ 0
members_absent w workspaces [] placed h = omega arith
members_absent w workspaces (r ∷ rows) placed h = elim (text-cases r.workspace_id w) [
  | inl (b, e) ↦ let there = rw (e, h) at placed.0 in cc
  | inr (b, _) ↦ rw b (omega (arith, members_absent w workspaces rows placed.1 h))
]

-- What `add` gives, seen from the workspace of the row.
module _ (m : WorkspaceMembership) (s : Store) (valid : IsValid m)
    (sound : IsSound s.workspaces s.memberships) where
  joined_as_owner :
      {after : Store}
      → m.role ≡ owner_role
      → count (is_member_row m.workspace_id) s.memberships ≡ 0
      → ((w : String) → m.workspace_id ≢ w → IsOwned s.workspaces s.memberships w)
      → add_membership m s ≡ ok after
      → IsKept after
  joined_as_owner {after} role empty others h = elim (add_membership-IsAdded m s h) [
    | inl (same, (row, found)) ↦
        let p = is_of (strip m.user_id) m.workspace_id in
        let one =
          count_of_In (is_member_row m.workspace_id) s.memberships (find-In p s.memberships found)
            (and-true (str_eq row.user_id (strip m.user_id))
              (str_eq row.workspace_id m.workspace_id) (find-passes p s.memberships found)).1 in
        absurd (omega arith)
    | inr (accepted, written) ↦ rw written (record {
      sound = append-IsSound m s sound valid accepted;
      owned = λ w. append_owner-IsOwned s.workspaces s.memberships m w role empty (others w);
    })
  ]

  joined_as_member :
      {after : Store}
      → m.role ≡ member_role
      → count (has_role m.workspace_id owner_role) s.memberships ≡ 1
      → ((w : String) → IsOwned s.workspaces s.memberships w)
      → add_membership m s ≡ ok after
      → IsKept after
  joined_as_member {after} role one owned h = elim (add_membership-IsAdded m s h) [
    | inl (same, _) ↦ rw same (record { sound = sound; owned = owned })
    | inr (accepted, written) ↦ rw written (record {
      sound = append-IsSound m s sound valid accepted;
      owned = λ w. append_member-IsOwned s.workspaces s.memberships m w role one (owned w);
    })
  ]

-- The columns that the checks of an entity keep.
made-same :
    (m : WorkspaceMembership) {entity : WorkspaceMembership}
    → membership_init m ≡ ok entity
    → (entity.workspace_id ≡ m.workspace_id) × (entity.role ≡ m.role)
made-same m h = let (_, _, same) = membership_init-cases m h in rw (sym same) (refl, refl)

created :
    (fresh : Fresh) (user : String) (s added joined : Store) (made : Workspace)
    (m : WorkspaceMembership)
    → IsKept s
    → add_workspace made s ≡ ok added
    → membership_init (new_membership fresh made.id user owner_role) ≡ ok m
    → add_membership m added ≡ ok joined
    → IsKept joined
created fresh user s added joined made m kept add init join =
    let asked = new_membership fresh made.id user owner_role in
    let (absent, written) = add_workspace-cases made s add in
    let (there, role) = made-same asked init in
    let grown : IsSound added.workspaces added.memberships =
      rw written (grow-IsSound made s.workspaces s.memberships kept.sound) in
    let empty : count (is_member_row made.id) s.memberships ≡ 0 =
      members_absent made.id s.workspaces s.memberships kept.sound.placed absent in
    joined_as_owner m added (membership_init-IsValid asked init) grown role
      (rw (written, there) empty) (λ w other. rw written (others w (rw there at other))) join
  where
    others : (w : String) → made.id ≢ w → IsOwned (s.workspaces ++ made ∷ []) s.memberships w
    others w other = rw (get-append_ne workspace_id w s.workspaces made other) (kept.owned w)

pub create_workspace-IsKept :
    (fresh : Fresh) (name user : String) (s : Store) {workspace : Workspace} {after : Store}
    → IsKept s
    → create_workspace fresh name user s ≡ ok (workspace, after)
    → IsKept after
unfolding create_workspace
create_workspace-IsKept fresh name user s {workspace} {after} kept h =
    ok-then
      (workspace_init
        (record { id = fresh.workspace_uuid; name = name; created_at = fresh.workspace_now }))
      h
      λ made init h1. ok-then (add_workspace made s) h1 λ added add h2.
        ok-then (membership_init (new_membership fresh made.id user owner_role)) h2 λ m m_init h3.
          ok-then (add_membership m added) h3 λ joined join h4.
            let done : joined ≡ after = cc in
            rw (sym done) (created fresh user s added joined made m kept add m_init join)

get_by_id-same :
    (id : String) (s : Store) {workspace : Workspace}
    → get_by_id id s ≡ ok (some workspace)
    → workspace.id ≡ id
unfolding get_by_id workspace_init
get_by_id-same id s {workspace} h = read (get workspace_id id s.workspaces) refl h
  where
    init-same : (row made : Workspace) → workspace_init row ≡ ok made → made.id ≡ row.id
    init-same row made h = elim (Bool-cases (str_eq (strip row.name) "")) [
      | inl e ↦ absurd (ground (arith, rw e at h))
      | inr e ↦ elim (Bool-cases (ltb 256 (size (strip row.name)))) [
        | inl f ↦ absurd (ground (arith, rw (e, f) at h))
        | inr f ↦ let same = rw (e, f) at h in cc
      ]
    ]

    read :
        (found : Option Workspace)
        → get workspace_id id s.workspaces ≡ found
        → to_domain workspace_init found ≡ ok (some workspace)
        → workspace.id ≡ id
    read none e h = cc
    read (some row) e h = ok-then (workspace_init row) h λ made init rest.
        let same : made ≡ workspace = cc in
        rw (sym same) (init-same row made init ∙ key-get workspace_id id s.workspaces e)

enrolled :
    (fresh : Fresh) (user : String) (s after : Store) (w : String) (role : Role)
    → IsKept s
    → w ≡ default_workspace_id
    → ((role ≡ owner_role) × (count (has_role w owner_role) s.memberships ≡ 0))
      ⊎ ((role ≡ member_role) × (count (has_role w owner_role) s.memberships ≢ 0))
    → (membership_init (new_membership fresh w user role) >>= λ m. add_membership m s) ≡ ok after
    → IsKept after
enrolled fresh user s after w role kept e choice h =
    ok-then (membership_init (new_membership fresh w user role)) h λ m init join.
      let asked = new_membership fresh w user role in
      let (there, same_as) = made-same asked init in
      let valid = membership_init-IsValid asked init in
      elim choice [
        | inl (owning, none_yet) ↦
            joined_as_owner m s valid kept.sound (same_as ∙ owning)
              (rw there (empty none_yet (kept.owned w))) (λ v other. kept.owned v) join
        | inr (membering, one) ↦
            joined_as_member m s valid kept.sound (same_as ∙ membering)
              (rw there (single one (kept.owned w))) kept.owned join
      ]
  where
    empty :
        count (has_role w owner_role) s.memberships ≡ 0
        → IsOwned s.workspaces s.memberships w
        → count (is_member_row w) s.memberships ≡ 0
    empty nobody_owns (inl (nobody, _)) = nobody
    empty nobody_owns (inr one) = absurd (omega arith)

    single :
        count (has_role w owner_role) s.memberships ≢ 0
        → IsOwned s.workspaces s.memberships w
        → count (has_role w owner_role) s.memberships ≡ 1
    single some_owner (inl (nobody, _)) = absurd (omega (arith, owners_of_members w s.memberships))
    single some_owner (inr one) = one

pub enroll_default_workspace_member-IsKept :
    (fresh : Fresh) (user : String) (s : Store) {after : Store}
    → IsKept s
    → enroll_default_workspace_member fresh user s ≡ ok after
    → IsKept after
unfolding enroll_default_workspace_member count_by_role
enroll_default_workspace_member-IsKept fresh user s {after} kept h =
    ok-then (get_by_id default_workspace_id s) h λ found read rest. entered found read rest
  where
    entered :
        (found : Option Workspace)
        → get_by_id default_workspace_id s ≡ ok found
        → enroll_in fresh user s found ≡ ok after
        → IsKept after
    entered none read h = let same : s ≡ after = cc in rw (sym same) kept
    entered (some w) read h =
        let default = get_by_id-same default_workspace_id s read in
        elim (Bool-cases (leb (count (has_role w.id owner_role) s.memberships) 0)) [
          | inl e ↦
              enrolled fresh user s after w.id owner_role kept default
                (inl (refl, ground (arith, e))) (rw e at h)
          | inr e ↦
              enrolled fresh user s after w.id member_role kept default
                (inr (refl, ground (arith, e))) (rw e at h)
        ]

pub invite_workspace_member-IsKept :
    (ports : Ports) (fresh : Fresh) (id actor email : String) (s : Store)
    {dto : WorkspaceMembershipDto} {after : Store}
    → IsKept s
    → invite_workspace_member ports fresh id actor email s ≡ ok (dto, after)
    → IsKept after
unfolding invite_workspace_member
invite_workspace_member-IsKept ports fresh id actor email s {dto} {after} kept h =
    ok-then (existing_workspace ports id s) h λ w looked h1.
      ok-then (require_owner actor w s) h1 λ guard guarded h2.
        ok-then
          (present workspace_user_not_found
            (ports.find_user_id_by_email (ports.lower (strip email))))
          h2
          λ user known h3. ok-then (get_membership user w s) h3 λ existing read h4.
            let (_, h5) = require-ok workspace_member_already_exists (not (is_some existing)) h4 in
            ok-then (membership_init (new_membership fresh w user member_role)) h5 λ m init h6.
              ok-then (add_membership m s) h6 λ joined join h7.
                ok-then
                  (record_event fresh w member_invited actor user
                    (concat "Invited " (concat (ports.lower (strip email)) " as member")) joined)
                  h7
                  λ logged log h8.
                    let (row, owning) = require_owner-row actor w s guarded in
                    let (i, _, of_w, _, _) = found-row actor w s kept row in
                    let (there, role) = made-same (new_membership fresh w user member_role) init in
                    let one = one_owner s.workspaces s.memberships w (kept.owned w) i of_w in
                    let done : logged ≡ after = cc in
                    rw (sym done) (
                      recorded-IsKept fresh w member_invited actor user
                        (concat "Invited " (concat (ports.lower (strip email)) " as member")) joined
                        log
                        (joined_as_member m s
                          (membership_init-IsValid (new_membership fresh w user member_role) init)
                          kept.sound role (rw there one) kept.owned join))
