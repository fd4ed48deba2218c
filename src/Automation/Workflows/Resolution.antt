-- ===== src/Automation/Workflows/Resolution.antt =====
-- References that the validator accepted, when they are substituted.
use memovi.Prelude.{
  String, ◌≡◌, refl, sym, subst, ◌∙◌, ◌≢◌, inl, inr, true, Option, none, some, List, [], ◌∷◌, ◌++◌,
  All, text-cases, is_some,
}
use memovi.Prelude.Maps.{lookup}
use memovi.Prelude.Results.{Result, ok, err, ◌>>=◌}
use memovi.Automation.Values.{
  Value, Values, Entries, null, text, boolean, integer, floating, object, array, opaque, no_values,
  item, no_entries, entry,
}
use memovi.Automation.Codec.{to_arguments}
use memovi.Automation.Workflows.References.{
  Piece, literal, reference, names, pieces_of, Target, step_output, variable_name, target,
  split_dots, target_of_parts, collect_refs, collect_items, collect_entries,
}
use memovi.Automation.Workflows.Definitions.{
  WorkflowError, path_not_found, not_a_mapping, WorkflowContext,
}
use memovi.Automation.Workflows.Substitution.{
  dug, dig, dig_all, output_at, variable_value, resolve_target, resolve_reference, join_pieces,
  substitute_pieces, substitute_value, substitute_items, substitute_entries,
}

-- The two errors of a path into the output of a capability.
abbrev pub IsPathError : WorkflowError → Type 0
IsPathError (path_not_found ref part) = Unit
IsPathError (not_a_mapping ref) = Unit
IsPathError _ = ⊥

-- What a reference is to is there.
abbrev pub IsBound : WorkflowContext → String → Target → Type 0
IsBound context ref variable_name = is_some (lookup ref context.variables) ≡ true
IsBound context ref (step_output step_id path) =
    (step_id ≢ "") × (is_some (lookup step_id context.step_outputs) ≡ true)

-- An error of a block is one of its parts'.
module _ {A B : Type 0} (P : WorkflowError → Type 0) where
  pub err-bind :
      (m : Result WorkflowError A) {rest : A → Result WorkflowError B} {e : WorkflowError}
      → (m >>= rest) ≡ err e
      → (m ≡ err e → P e)
      → ((a : A) → m ≡ ok a → rest a ≡ err e → P e)
      → P e
  err-bind (ok a) h first second = second a refl h
  err-bind (err f) {e = e} h first second = first cc

dig-IsPathError :
    (current : Value) (part ref : String) {e : WorkflowError}
    → dig current part ref ≡ err e
    → IsPathError e
unfolding dig
dig-IsPathError (object items) part ref {e} h = found (lookup part (to_arguments items)) h
  where
    found : (o : Option Value) → dug part ref o ≡ err e → IsPathError e
    found none h = let same : path_not_found ref part ≡ e = cc in subst IsPathError same tt
    found (some v) h = absurd cc
dig-IsPathError null part ref {e} h =
    let same : not_a_mapping ref ≡ e = cc in subst IsPathError same tt
dig-IsPathError (text s) part ref {e} h =
    let same : not_a_mapping ref ≡ e = cc in subst IsPathError same tt
dig-IsPathError (boolean b) part ref {e} h =
    let same : not_a_mapping ref ≡ e = cc in subst IsPathError same tt
dig-IsPathError (integer b n) part ref {e} h =
    let same : not_a_mapping ref ≡ e = cc in subst IsPathError same tt
dig-IsPathError (floating s) part ref {e} h =
    let same : not_a_mapping ref ≡ e = cc in subst IsPathError same tt
dig-IsPathError (array items) part ref {e} h =
    let same : not_a_mapping ref ≡ e = cc in subst IsPathError same tt
dig-IsPathError (opaque s) part ref {e} h =
    let same : not_a_mapping ref ≡ e = cc in subst IsPathError same tt

dig_all-IsPathError :
    (parts : List String) (ref : String) (current : Value) {e : WorkflowError}
    → dig_all parts ref current ≡ err e
    → IsPathError e
unfolding dig_all
dig_all-IsPathError [] ref current h = absurd cc
dig_all-IsPathError (part ∷ parts) ref current h =
    err-bind IsPathError (dig current part ref) h (dig-IsPathError current part ref)
      (λ next _ rest. dig_all-IsPathError parts ref next rest)

bare_steps : target "steps." ≡ step_output "" []
unfolding target split_dots target_of_parts
bare_steps = refl

module _ (context : WorkflowContext) where
  abbrev pub AreBound : List String → Type 0
  AreBound refs = All (λ ref. IsBound context ref (target ref)) refs

  resolve-IsPathError :
      (ref : String) {e : WorkflowError}
      → IsBound context ref (target ref)
      → resolve_reference ref context ≡ err e
      → IsPathError e
  unfolding resolve_reference
  resolve-IsPathError ref {e} bound h = resolved (target ref) refl bound h
    where
      value : (o : Option Value) → is_some o ≡ true → variable_value ref o ≡ err e → IsPathError e
      value none there h = absurd cc
      value (some v) there h = absurd cc

      output :
          (step_id : String) (path : List String) (o : Option Value)
          → is_some o ≡ true
          → output_at ref step_id path o ≡ err e
          → IsPathError e
      output step_id path none there h = absurd cc
      output step_id path (some v) there h = dig_all-IsPathError path ref v h

      resolved :
          (t : Target)
          → target ref ≡ t
          → IsBound context ref t
          → resolve_target ref context t ≡ err e
          → IsPathError e
      resolved variable_name is bound h = value (lookup ref context.variables) bound h
      resolved (step_output step_id path) is bound h = elim (text-cases ref "steps.") [
        | inl (b, same) ↦
            let both = sym bare_steps ∙ (rw same at is) in
            let empty : step_id ≡ "" = cc in absurd (bound.0 empty)
        | inr (b, _) ↦ output step_id path (lookup step_id context.step_outputs) bound.1 (rw b at h)
      ]

  module _ (shown : Value → String) where
    join-IsPathError :
        (pieces : List Piece) {e : WorkflowError}
        → AreBound (names pieces)
        → join_pieces shown context pieces ≡ err e
        → IsPathError e
    unfolding join_pieces
    join-IsPathError [] bound h = absurd cc
    join-IsPathError (literal s ∷ pieces) bound h =
        err-bind IsPathError (join_pieces shown context pieces) h (join-IsPathError pieces bound)
          (λ rest _ end. absurd cc)
    join-IsPathError (reference name ∷ pieces) bound h =
        err-bind IsPathError (resolve_reference name context) h (resolve-IsPathError name bound.0)
          (λ v _ after.
            err-bind IsPathError (join_pieces shown context pieces) after
              (join-IsPathError pieces bound.1) (λ rest _ end. absurd cc))

    pieces-IsPathError :
        (pieces : List Piece) {e : WorkflowError}
        → AreBound (names pieces)
        → substitute_pieces shown context pieces ≡ err e
        → IsPathError e
    unfolding substitute_pieces join_pieces
    pieces-IsPathError (reference name ∷ []) bound h = resolve-IsPathError name bound.0 h
    pieces-IsPathError [] bound h = absurd cc
    pieces-IsPathError (literal s ∷ pieces) bound h =
        err-bind IsPathError (join_pieces shown context (literal s ∷ pieces)) h
          (join-IsPathError (literal s ∷ pieces) bound) (λ s _ end. absurd cc)
    pieces-IsPathError (reference name ∷ next ∷ pieces) bound h =
        err-bind IsPathError (join_pieces shown context (reference name ∷ next ∷ pieces)) h
          (join-IsPathError (reference name ∷ next ∷ pieces) bound) (λ s _ end. absurd cc)

    split-AreBound : (xs ys : List String) → AreBound (xs ++ ys) → AreBound xs × AreBound ys
    split-AreBound [] ys bound = (tt, bound)
    split-AreBound (x ∷ xs) ys bound =
        let (left, right) = split-AreBound xs ys bound.1 in ((bound.0, left), right)

    -- In a context that has what the references are to, a substitution fails only on a path.
    mutual
      unfolding collect_refs substitute_value

      pub substitute-IsPathError :
          (v : Value) {e : WorkflowError}
          → AreBound (collect_refs v)
          → substitute_value shown context v ≡ err e
          → IsPathError e
      substitute-IsPathError null bound h = absurd cc
      substitute-IsPathError (text s) bound h = pieces-IsPathError (pieces_of s) bound h
      substitute-IsPathError (boolean b) bound h = absurd cc
      substitute-IsPathError (integer b n) bound h = absurd cc
      substitute-IsPathError (floating s) bound h = absurd cc
      substitute-IsPathError (object items) bound h =
          err-bind IsPathError (substitute_entries shown context items) h
            (entries-IsPathError items bound) (λ done _ end. absurd cc)
      substitute-IsPathError (array items) bound h =
          err-bind IsPathError (substitute_items shown context items) h
            (items-IsPathError items bound) (λ done _ end. absurd cc)
      substitute-IsPathError (opaque s) bound h = absurd cc

      items-IsPathError :
          (items : Values) {e : WorkflowError}
          → AreBound (collect_items items)
          → substitute_items shown context items ≡ err e
          → IsPathError e
      items-IsPathError no_values bound h = absurd cc
      items-IsPathError (item v rest) bound h =
          let (here, there) = split-AreBound (collect_refs v) (collect_items rest) bound in
          err-bind IsPathError (substitute_value shown context v) h (substitute-IsPathError v here)
            (λ done _ after.
              err-bind IsPathError (substitute_items shown context rest) after
                (items-IsPathError rest there) (λ others _ end. absurd cc))

      entries-IsPathError :
          (items : Entries) {e : WorkflowError}
          → AreBound (collect_entries items)
          → substitute_entries shown context items ≡ err e
          → IsPathError e
      entries-IsPathError no_entries bound h = absurd cc
      entries-IsPathError (entry key v rest) bound h =
          let (here, there) = split-AreBound (collect_refs v) (collect_entries rest) bound in
          err-bind IsPathError (substitute_value shown context v) h (substitute-IsPathError v here)
            (λ done _ after.
              err-bind IsPathError (substitute_entries shown context rest) after
                (entries-IsPathError rest there) (λ others _ end. absurd cc))
