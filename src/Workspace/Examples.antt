-- ===== src/Workspace/Examples.antt =====
-- The theorems on packages/workspace at concrete requests.
use memovi.Prelude.{String, ◌≡◌, refl, ◌≢◌, none, some, List, [], ◌∷◌, str_eq, if◌then◌else◌}
use memovi.Prelude.Strings.{strip, lstrip, rstrip, size}
use memovi.Prelude.Results.{ok, err}
use memovi.Prelude.Table.{get, find}
use memovi.Workspace.{
  Store, WorkspaceMembership, owner_role, get_membership, get_by_id, add_membership, workspace_init,
  membership_init, count_by_role, cannot_leave_as_sole_owner,
}
use memovi.Workspace.Commands.{
  Ports, Fresh, WorkspaceMembershipDto, default_workspace_id, enroll_default_workspace_member,
  existing_workspace, leave_workspace, remove_workspace_member,
}
use memovi.Workspace.Ownership.{IsOwned}
use memovi.Workspace.Histories.{
  Request, create, enroll, invite, leave, transfer, perform, perform_all, seeded,
  perform_all-IsOwned, owner_stays,
}

abbrev ports : Ports
ports = record {
  parse_uuid = λ s. some s;
  lower = λ s. s;
  find_user_id_by_email = λ email. if str_eq email "ben@example.org" then some "ben" else none;
  find_email_by_user_id = λ user. none;
}

abbrev fresh : String → Fresh
fresh uuid = record {
  workspace_uuid = uuid;
  membership_uuid = uuid;
  event_uuid = uuid;
  workspace_now = 1;
  membership_now = 2;
  event_now = 3;
}

abbrev requests : List (Fresh × Request)
requests =
    (fresh "m1", enroll "ann")
    ∷ (fresh "m2", enroll "ben")
    ∷ (fresh "w3", create "Team" " ann ")
    ∷ (fresh "m4", invite "w3" "ann" "ben@example.org")
    ∷ (fresh "m5", transfer "w3" "ann" "ben")
    ∷ (fresh "m6", leave "w3" "ann")
    ∷ []

perform_all-IsOwned_example :
    IsOwned
      (perform_all ports requests (seeded 0)).workspaces
      (perform_all ports requests (seeded 0)).memberships
      "w3"
perform_all-IsOwned_example = perform_all-IsOwned ports requests 0 "w3"

abbrev enrolments : List (Fresh × Request)
enrolments = (fresh "m1", enroll "ann") ∷ (fresh "m2", enroll "ben") ∷ []

abbrev ann : WorkspaceMembership
ann = record {
  id = "m1";
  workspace_id = default_workspace_id;
  user_id = "ann";
  role = owner_role;
  created_at = 2;
}

enrolled_ann :
    get_membership "ann" default_workspace_id (perform_all ports enrolments (seeded 0))
    ≡ ok (some ann)
unfolding existing_workspace get perform_all perform enroll_default_workspace_member workspace_init
    strip lstrip rstrip size get_membership find get_by_id add_membership membership_init
    count_by_role
enrolled_ann = refl

known_default :
    existing_workspace ports default_workspace_id (perform_all ports enrolments (seeded 0))
    ≡ ok default_workspace_id
unfolding existing_workspace get perform_all perform enroll_default_workspace_member workspace_init
    strip lstrip rstrip size get_membership find get_by_id add_membership membership_init
    count_by_role
known_default = refl

owner_stays_example :
    (leave_workspace ports
        (fresh "m9")
        default_workspace_id
        "ann"
        (perform_all ports enrolments (seeded 0))
      ≡ err cannot_leave_as_sole_owner)
    × ((actor : String) (result : WorkspaceMembershipDto × Store)
        → remove_workspace_member ports
            (fresh "m9")
            default_workspace_id
            actor
            "ann"
            (perform_all ports enrolments (seeded 0))
          ≢ ok result)
owner_stays_example =
    owner_stays ports enrolments 0 (fresh "m9") default_workspace_id default_workspace_id "ann"
      {m = ann} known_default enrolled_ann refl
