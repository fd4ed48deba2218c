-- ===== src/Automation/Authorization.antt =====
-- packages/automation/src/memovi_automation/application/services/capability_authorization_service.py.
-- Membership is a port, implemented over the workspace package.
use memovi.Prelude.{String, concat, Bool, Option, none, some, List, str_eq, if◌then◌else◌}
use memovi.Automation.Values.{
  Error, Outcome, returned, raised, authorization_denied, PermissionMode, deny,
}
use memovi.Automation.Store.{Capability, State, get_capability, get_mode}

-- WorkspaceMembershipPort
pub record Membership : Type 0 where
  pub is_member : String → String → Bool
  pub get_role : String → String → Option String

-- What the engine is made with. A missing policy falls back to the mode of the policy store.
pub record Engine : Type 0 where
  pub registry : List (String × Capability)
  pub membership : Membership
  pub store_default_mode : PermissionMode
  pub default_permission_mode : PermissionMode

-- Why a capability is refused; submit tells the two apart by the text of the reason.
pub data Denial : Type 0 where
  unknown_denial policy_denial : Denial

pub record Decision : Type 0 where
  pub permission_mode : PermissionMode
  pub denial : Option Denial

abbrev not_a_member : String → String → Error
not_a_member user workspace =
    authorization_denied
      (concat "User '"
        (concat user (concat "' is not a member of workspace '" (concat workspace "'."))))
      "workspace_membership_required"

unfoldable pub require_workspace_member : Engine → String → String → Outcome (Unit {0})
require_workspace_member engine user workspace =
    if engine.membership.is_member user workspace
    then returned tt
    else raised (not_a_member user workspace)

abbrev owner_of : String → String → Option String → Outcome (Unit {0})
owner_of user workspace none = raised (not_a_member user workspace)
owner_of user workspace (some role) =
    if str_eq role "owner"
    then returned tt
    else raised (
        authorization_denied
          (concat "User '"
            (concat user (concat "' must be an owner of workspace '" (concat workspace "'."))))
          "workspace_owner_required")

unfoldable pub require_workspace_owner : Engine → String → String → Outcome (Unit {0})
require_workspace_owner engine user workspace =
    owner_of user workspace (engine.membership.get_role user workspace)

abbrev decide : PermissionMode → Decision
decide deny = record { permission_mode = deny; denial = some policy_denial }
decide mode = record { permission_mode = mode; denial = none }

abbrev authorize_found : Engine → String → String → State → Outcome Capability → Decision
authorize_found engine workspace capability s (returned c) =
    decide (get_mode engine.store_default_mode workspace capability s.modes)
authorize_found engine workspace capability s (raised e) = record {
  permission_mode = engine.default_permission_mode;
  denial = some unknown_denial;
}

abbrev for_member : Decision → Outcome (Unit {0}) → Outcome Decision
for_member decision (returned member) = returned decision
for_member decision (raised e) = raised e

unfoldable pub authorize_capability : Engine → String → String → String → State → Outcome Decision
unfolding require_workspace_member
authorize_capability engine user workspace capability s =
    for_member
      (authorize_found engine workspace capability s (get_capability capability engine.registry))
      (require_workspace_member engine user workspace)
