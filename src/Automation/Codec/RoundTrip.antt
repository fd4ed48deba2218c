-- ===== src/Automation/Codec/RoundTrip.antt =====
-- What comes back from the columns of JSON.
use memovi.Prelude.{ℕ, String, ◌≡◌, refl, ◌≢◌, Option, none, some, [], ◌∷◌, inl, inr, text-cases}
use memovi.Prelude.Maps.{lookup}
use memovi.Prelude.Strings.{strip}
use memovi.Automation.Values.{
  returned, PermissionMode, always_allow, ask_every_time, deny, Value, Arguments, CapabilityError,
  CapabilityExecutionPolicy, CapabilityExecutionRequest, AuthenticatedExecutionContext, text,
}
use memovi.Automation.Codec.{
  json_safe, safe_entries, to_entries, to_arguments, optional_text, serialize_error,
  deserialize_error, serialize_pending_request, serialize_auth_context, deserialize_pending_request,
  deserialize_auth_context, policy_payload, policy_of, mode_of, optional_mode, timeout_of,
  optional_number, optional_str, source_of,
}

-- A text that stripping leaves alone, and that is not empty.
abbrev pub IsName : String → Type 0
IsName s = (strip s ≡ s) × (s ≢ "")

abbrev pub IsOptionalName : Option String → Type 0
IsOptionalName none = Unit
IsOptionalName (some s) = IsName s

-- A dictionary with its values made safe for JSON.
abbrev pub safe_arguments : Arguments → Arguments
safe_arguments [] = []
safe_arguments ((key, v) ∷ rest) = (key, json_safe v) ∷ safe_arguments rest

to_arguments-safe_entries :
    (arguments : Arguments)
    → to_arguments (safe_entries (to_entries arguments)) ≡ safe_arguments arguments
unfolding safe_entries
to_arguments-safe_entries [] = refl
to_arguments-safe_entries ((key, v) ∷ rest) = rw (to_arguments-safe_entries rest) refl

module _ (shown : Value → String) where
  pub error_again :
      (error : Option CapabilityError) → deserialize_error shown (serialize_error error) ≡ error
  unfolding serialize_error deserialize_error lookup
  error_again none = refl
  error_again (some e) = refl

  optional_again :
      (name : Option String)
      → IsOptionalName name
      → optional_str shown (some (optional_text name)) ≡ name
  optional_again none h = refl
  optional_again (some s) h = elim (text-cases s "") [
    | inl (b, e) ↦ absurd (h.1 e)
    | inr (b, _) ↦ rw (h.0, b) refl
  ]

  source_again : (source : String) → source ≢ "" → source_of shown (some (text source)) ≡ source
  source_again source h = elim (text-cases source "") [
    | inl (b, e) ↦ absurd (h e)
    | inr (b, _) ↦ rw b refl
  ]

  timeout_again : (t : Option ℕ) → timeout_of shown (some (optional_number t)) ≡ t
  timeout_again none = refl
  timeout_again (some n) = refl

  mode_again :
      (mode : Option PermissionMode) → mode_of shown (some (optional_mode mode)) ≡ returned mode
  mode_again none = refl
  mode_again (some always_allow) = refl
  mode_again (some ask_every_time) = refl
  mode_again (some deny) = refl

  policy_again :
      (policy : Option CapabilityExecutionPolicy)
      → policy_of shown (some (policy_payload policy)) ≡ returned policy
  unfolding lookup
  policy_again none = refl
  policy_again (some policy) =
      rw (timeout_again policy.timeout_seconds, mode_again policy.permission_mode) refl

  -- A request is read back as it was, with the values of its arguments made safe for JSON, where its
  -- source is not empty and its conversation, if it has one, is not blank and is stripped.
  pub pending_request_again :
      (request : CapabilityExecutionRequest)
      → IsOptionalName request.conversation_id
      → request.source ≢ ""
      → deserialize_pending_request shown (serialize_pending_request request)
        ≡ returned (record request { arguments = safe_arguments request.arguments })
  unfolding serialize_pending_request deserialize_pending_request lookup json_safe
  pending_request_again request name source =
      rw
        (
          to_arguments-safe_entries request.arguments,
          optional_again request.conversation_id name,
          source_again request.source source,
          policy_again request.policy,
        )
        refl

  pub auth_context_again :
      (token : ℕ) (auth : AuthenticatedExecutionContext)
      → IsOptionalName auth.conversation_id
      → auth.source ≢ ""
      → deserialize_auth_context shown token (serialize_auth_context auth)
        ≡ returned (record auth { cancellation = token })
  unfolding serialize_auth_context deserialize_auth_context lookup
  auth_context_again token auth name source =
      rw (optional_again auth.conversation_id name, source_again auth.source source) refl
