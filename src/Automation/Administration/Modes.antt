-- ===== src/Automation/Administration/Modes.antt =====
-- Permission modes that are set and read again.
use memovi.Prelude.{
  String, ◌≡◌, refl, false, ◌&&◌, List, [], ◌∷◌, str_eq, eq_iff, eq_refl, arith, if◌then◌else◌,
}
use memovi.Automation.Values.{returned, PermissionMode, AuthenticatedExecutionContext}
use memovi.Automation.Store.{Capability, State, get_capability, get_mode, set_mode}
use memovi.Automation.Authorization.{Engine, require_workspace_owner}
use memovi.Automation.Administration.{set_permission_mode, get_permission_mode}

get_mode-set_mode :
    (default_mode mode : PermissionMode) (w c workspace capability : String)
    (modes : List ((String × String) × PermissionMode))
    → get_mode default_mode workspace capability (set_mode w c mode modes) ≡ (
        if str_eq w workspace && str_eq c capability
        then mode
        else get_mode default_mode workspace capability modes)
unfolding get_mode set_mode
get_mode-set_mode default_mode mode w c workspace capability [] = refl
get_mode-set_mode default_mode mode w c workspace capability (((v, d), old) ∷ modes) = ground (
  arith,
  eq_iff v w,
  eq_iff d c,
  eq_iff v workspace,
  eq_iff d capability,
  eq_iff w workspace,
  eq_iff c capability,
  get_mode-set_mode default_mode mode w c workspace capability modes,
)

-- An owner of a workspace sets the mode of a registered capability. That succeeds, and the capability
-- has the mode in this workspace; another registered capability, or this one in another workspace, has
-- the mode that it had.
pub get-set_permission_mode :
    (engine : Engine) (capability : String) (mode : PermissionMode) (workspace : String)
    (context : AuthenticatedExecutionContext) (s : State) (c other : Capability)
    (other_workspace other_capability : String)
    → require_workspace_owner engine context.user_id workspace ≡ returned tt
    → get_capability capability engine.registry ≡ returned c
    → get_capability other_capability engine.registry ≡ returned other
    → (str_eq workspace other_workspace && str_eq capability other_capability) ≡ false
    → ((set_permission_mode engine capability mode workspace context s).0 ≡ returned tt)
      × (get_permission_mode engine capability workspace
            (set_permission_mode engine capability mode workspace context s).1
          ≡ returned mode)
      × (get_permission_mode engine other_capability other_workspace
            (set_permission_mode engine capability mode workspace context s).1
          ≡ get_permission_mode engine other_capability other_workspace s)
unfolding set_permission_mode get_permission_mode
get-set_permission_mode engine capability mode workspace context s c other other_workspace
      other_capability owner known other_known different =
    (
      rw (owner, known) refl,
      rw
          (
            owner,
            known,
            get_mode-set_mode engine.store_default_mode mode workspace capability workspace
                capability s.modes,
            eq_refl workspace,
            eq_refl capability,
          )
          refl,
      rw
          (
            owner,
            known,
            other_known,
            get_mode-set_mode engine.store_default_mode mode workspace capability other_workspace
                other_capability s.modes,
            different,
          )
          refl,
    )
