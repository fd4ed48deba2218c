-- ===== src/Automation/Codec.antt =====
-- packages/automation/src/memovi_automation/infrastructure/execution_state_codec.py: what the durable
-- store keeps in columns of JSON. An object is a dictionary of its items; `opaque s` is an object of
-- another type, with s for its text, and `shown` is Python's `str` of what is not a text.
pub mod RoundTrip
use memovi.Prelude.{
  ℕ, String, Bool, true, false, Option, none, some, List, [], ◌∷◌, map, str_eq, if◌then◌else◌, ◌==◌,
}
use memovi.Prelude.Maps.{lookup}
use memovi.Prelude.Strings.{strip}
use memovi.Automation.Values.{
  Outcome, returned, raised, other, Value, Values, Entries, null, text, boolean, integer, floating,
  object, array, opaque, no_values, item, no_entries, entry, Arguments, CapabilityError,
  PermissionMode, always_allow, ask_every_time, deny, CapabilityExecutionPolicy,
  CapabilityExecutionRequest, AuthenticatedExecutionContext,
}

mutual
  pub json_safe : Value → Value
  json_safe null = null
  json_safe (text s) = text s
  json_safe (boolean b) = boolean b
  json_safe (integer negative n) = integer negative n
  json_safe (floating s) = floating s
  json_safe (object items) = object (safe_entries items)
  json_safe (array items) = array (safe_values items)
  json_safe (opaque s) = text s

  pub safe_values : Values → Values
  safe_values no_values = no_values
  safe_values (item v rest) = item (json_safe v) (safe_values rest)

  pub safe_entries : Entries → Entries
  safe_entries no_entries = no_entries
  safe_entries (entry key v rest) = entry key (json_safe v) (safe_entries rest)

-- A dictionary as a JSON object, and `dict` of one.
abbrev pub to_entries : Arguments → Entries
to_entries [] = no_entries
to_entries ((key, v) ∷ rest) = entry key v (to_entries rest)

abbrev pub to_arguments : Entries → Arguments
to_arguments no_entries = []
to_arguments (entry key v rest) = (key, v) ∷ to_arguments rest

abbrev pub optional_text : Option String → Value
optional_text none = null
optional_text (some s) = text s

-- A number of microseconds, or None.
abbrev pub optional_number : Option ℕ → Value
optional_number none = null
optional_number (some n) = integer false n

unfoldable pub serialize_error : Option CapabilityError → Option Arguments
serialize_error none = none
serialize_error (some e) = some (("code", text e.code) ∷ ("message", text e.message) ∷ [])

-- PermissionMode, a StrEnum
abbrev pub mode_value : PermissionMode → String
mode_value always_allow = "always_allow"
mode_value ask_every_time = "ask_every_time"
mode_value deny = "deny"

abbrev pub optional_mode : Option PermissionMode → Value
optional_mode none = null
optional_mode (some mode) = text (mode_value mode)

abbrev pub policy_payload : Option CapabilityExecutionPolicy → Value
policy_payload none = null
policy_payload (some p) = object (
    entry "timeout_seconds" (optional_number p.timeout_seconds) (
      entry "cancellable" (boolean p.cancellable)
        (entry "permission_mode" (optional_mode p.permission_mode) no_entries)))

unfoldable pub serialize_pending_request : CapabilityExecutionRequest → Arguments
unfolding json_safe
serialize_pending_request request =
    ("id", text request.id)
    ∷ ("capability_id", text request.capability_id)
    ∷ ("workspace_id", text request.workspace_id)
    ∷ ("arguments", json_safe (object (to_entries request.arguments)))
    ∷ ("conversation_id", optional_text request.conversation_id)
    ∷ ("source", text request.source)
    ∷ ("policy", policy_payload request.policy)
    ∷ []

unfoldable pub serialize_auth_context : AuthenticatedExecutionContext → Arguments
serialize_auth_context auth =
    ("user_id", text auth.user_id)
    ∷ ("workspace_id", text auth.workspace_id)
    ∷ ("session_id", text auth.session_id)
    ∷ ("request_id", text auth.request_id)
    ∷ ("conversation_id", optional_text auth.conversation_id)
    ∷ ("source", text auth.source)
    ∷ []

-- bool(value)
abbrev pub truthy : Value → Bool
truthy null = false
truthy (text s) = if str_eq s "" then false else true
truthy (boolean b) = b
truthy (integer negative n) = if n == 0 then false else true
truthy (floating s) = if str_eq s "0.0" then false else true
truthy (object no_entries) = false
truthy (array no_values) = false
truthy _ = true

module _ (shown : Value → String) where
  abbrev pub to_str : Value → String
  to_str (text s) = s
  to_str v = shown v

  -- `payload[key]`
  abbrev pub required : Option Value → Outcome String
  required none = raised (other "KeyError")
  required (some v) = returned (to_str v)

  abbrev pub text_or : Option Value → String → String
  text_or none d = d
  text_or (some null) d = d
  text_or (some v) d = to_str v

  -- `_optional_str`
  abbrev pub optional_str : Option Value → Option String
  optional_str none = none
  optional_str (some null) = none
  optional_str (some v) =
      let stripped = strip (to_str v) in if str_eq stripped "" then none else some stripped

  -- `str(payload.get("source") or "api")`
  abbrev pub source_of : Option Value → String
  source_of none = "api"
  source_of (some v) = if truthy v then to_str v else "api"

  unfoldable pub deserialize_error : Option Arguments → Option CapabilityError
  deserialize_error none = none
  deserialize_error (some payload) = some (record {
    code = text_or (lookup "code" payload) "unknown";
    message = text_or (lookup "message" payload) "Unknown error";
  })

  -- `policy_raw.get("timeout_seconds")`, which is a number or None.
  abbrev pub timeout_of : Option Value → Option ℕ
  timeout_of (some (integer false n)) = some n
  timeout_of _ = none

  abbrev pub cancellable_of : Option Value → Bool
  cancellable_of none = true
  cancellable_of (some v) = truthy v

  -- `PermissionMode(value)`
  abbrev pub to_mode : String → Outcome PermissionMode
  to_mode value =
      if str_eq value "always_allow"
      then returned always_allow
      else if str_eq value "ask_every_time"
      then returned ask_every_time
      else if str_eq value "deny"
      then returned deny
      else raised (other "ValueError")

  abbrev pub some_mode : Outcome PermissionMode → Outcome (Option PermissionMode)
  some_mode (returned mode) = returned (some mode)
  some_mode (raised e) = raised e

  -- `None if mode_raw is None else PermissionMode(str(mode_raw))`
  abbrev pub mode_of : Option Value → Outcome (Option PermissionMode)
  mode_of none = returned none
  mode_of (some null) = returned none
  mode_of (some v) = some_mode (to_mode (to_str v))

  -- The policy with its mode; that a timeout of zero raises is left out, as no policy has one.
  abbrev pub policy_with :
      Option ℕ → Bool → Outcome (Option PermissionMode) → Outcome (Option CapabilityExecutionPolicy)
  policy_with timeout cancellable (returned mode) = returned (
      some
        (record { timeout_seconds = timeout; cancellable = cancellable; permission_mode = mode }))
  policy_with timeout cancellable (raised e) = raised e

  abbrev pub policy_of : Option Value → Outcome (Option CapabilityExecutionPolicy)
  policy_of (some (object items)) =
      policy_with (timeout_of (lookup "timeout_seconds" (to_arguments items)))
        (cancellable_of (lookup "cancellable" (to_arguments items)))
        (mode_of (lookup "permission_mode" (to_arguments items)))
  policy_of _ = returned none

  -- `dict(payload.get("arguments") or {})`
  abbrev pub arguments_of : Option Value → Outcome Arguments
  arguments_of none = returned []
  arguments_of (some (object items)) = returned (to_arguments items)
  arguments_of (some v) = if truthy v then raised (other "ValueError") else returned []

  infixl 5 ◌>>=◌
  abbrev ◌>>=◌ : {A B : Type 0} → Outcome A → (A → Outcome B) → Outcome B
  returned a >>= rest = rest a
  raised e >>= rest = raised e

  unfoldable pub deserialize_pending_request : Arguments → Outcome CapabilityExecutionRequest
  deserialize_pending_request payload = policy_of (lookup "policy" payload) >>= λ policy.
      required (lookup "capability_id" payload) >>= λ capability_id.
      required (lookup "workspace_id" payload) >>= λ workspace_id.
      arguments_of (lookup "arguments" payload) >>= λ arguments.
      required (lookup "id" payload) >>= λ id. returned (record {
        id = id;
        capability_id = capability_id;
        workspace_id = workspace_id;
        arguments = arguments;
        conversation_id = optional_str (lookup "conversation_id" payload);
        policy = policy;
        source = source_of (lookup "source" payload);
      })

  -- The context has a new token.
  unfoldable pub deserialize_auth_context : ℕ → Arguments → Outcome AuthenticatedExecutionContext
  deserialize_auth_context token payload = required (lookup "user_id" payload) >>= λ user_id.
      required (lookup "workspace_id" payload) >>= λ workspace_id.
      required (lookup "session_id" payload) >>= λ session_id.
      required (lookup "request_id" payload) >>= λ request_id. returned (record {
        user_id = user_id;
        workspace_id = workspace_id;
        session_id = session_id;
        request_id = request_id;
        cancellation = token;
        conversation_id = optional_str (lookup "conversation_id" payload);
        source = source_of (lookup "source" payload);
      })
