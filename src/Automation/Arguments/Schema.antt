-- ===== src/Automation/Arguments/Schema.antt =====
-- Which arguments `validate_capability_arguments` accepts.
use memovi.Prelude.{
  String, ◌≡◌, ◌↔◌, ◌∙◌, sym, refl, inl, inr, Bool, true, false, not, ◌&&◌, some, List, [], ◌∷◌,
  All, arith, is_some, Bool-cases, Option-cases,
}
use memovi.Prelude.Maps.{lookup}
use memovi.Automation.Values.{
  Outcome, returned, raised, Value, text, boolean, integer, floating, object, array, Arguments,
  ParameterType, string_type, integer_type, number_type, boolean_type, object_type, array_type,
  CapabilityParameter, CapabilityMetadata,
}
use memovi.Automation.Arguments.{
  check_type, before, kept, refuse_names, parameter_of, validate_parameter_value, unknown_arguments,
  missing_arguments, validate_values, validate_capability_arguments,
}

-- The values of a type. A bool is only of type boolean, and an integer is a number.
abbrev pub fits : ParameterType → Value → Bool
fits string_type (text s) = true
fits integer_type (integer negative n) = true
fits number_type (integer negative n) = true
fits number_type (floating repr) = true
fits boolean_type (boolean b) = true
fits object_type (object mapping) = true
fits array_type (array items) = true
fits type value = false

abbrev is_returned : Outcome (Unit {0}) → Bool
is_returned (returned done) = true
is_returned (raised e) = false

check_type-fits :
    (type : ParameterType) (p : CapabilityParameter) (value : Value)
    → is_returned (check_type type p value) ≡ fits type value
check_type-fits string_type p value =
    elim value as (λ v. is_returned (check_type string_type p v) ≡ fits string_type v) [
      | text s ↦ refl
      | _ ↦ refl
    ]
check_type-fits integer_type p value =
    elim value as (λ v. is_returned (check_type integer_type p v) ≡ fits integer_type v) [
      | integer negative n ↦ refl
      | boolean b ↦ refl
      | _ ↦ refl
    ]
check_type-fits number_type p value =
    elim value as (λ v. is_returned (check_type number_type p v) ≡ fits number_type v) [
      | integer negative n ↦ refl
      | floating s ↦ refl
      | boolean b ↦ refl
      | _ ↦ refl
    ]
check_type-fits boolean_type p value =
    elim value as (λ v. is_returned (check_type boolean_type p v) ≡ fits boolean_type v) [
      | boolean b ↦ refl
      | _ ↦ refl
    ]
check_type-fits object_type p value =
    elim value as (λ v. is_returned (check_type object_type p v) ≡ fits object_type v) [
      | object es ↦ refl
      | _ ↦ refl
    ]
check_type-fits array_type p value =
    elim value as (λ v. is_returned (check_type array_type p v) ≡ fits array_type v) [
      | array vs ↦ refl
      | _ ↦ refl
    ]

returned_of : (o : Outcome (Unit {0})) → is_returned o ≡ true → o ≡ returned tt
returned_of (returned tt) h = refl
returned_of (raised e) h = cc

-- What a schema asks of arguments: each has a parameter, whose type it fits, and each required
-- parameter has an argument.
abbrev FitsSchema : List CapabilityParameter → String × Value → Type 0
FitsSchema ps argument =
    (p : CapabilityParameter) × (parameter_of argument.0 ps ≡ some p)
    × (fits p.type argument.1 ≡ true)

abbrev HasArgument : Arguments → CapabilityParameter → Type 0
HasArgument arguments p = p.required ≡ true → is_some (lookup p.name arguments) ≡ true

abbrev pub Conforms : Arguments → CapabilityMetadata → Type 0
Conforms arguments metadata =
    All (FitsSchema metadata.parameters) arguments × All (HasArgument arguments) metadata.parameters

no_unknown :
    (ps : List CapabilityParameter) (arguments : Arguments)
    → All (FitsSchema ps) arguments
    → unknown_arguments arguments ps ≡ []
unfolding unknown_arguments
no_unknown ps [] h = refl
no_unknown ps ((name, value) ∷ rest) ((p, e, f), h) = rw e (no_unknown ps rest h)

no_missing :
    (arguments : Arguments) (ps : List CapabilityParameter)
    → All (HasArgument arguments) ps
    → missing_arguments arguments ps ≡ []
unfolding missing_arguments
no_missing arguments [] h = refl
no_missing arguments (p ∷ ps) (h, hs) = elim (Bool-cases p.required) [
  | inl e ↦ rw (e, h e) (no_missing arguments ps hs)
  | inr e ↦ rw e (no_missing arguments ps hs)
]

values_pass :
    (ps : List CapabilityParameter) (arguments : Arguments)
    → All (FitsSchema ps) arguments
    → validate_values arguments ps ≡ returned arguments
unfolding validate_values validate_parameter_value
values_pass ps [] h = refl
values_pass ps ((name, value) ∷ rest) ((p, e, f), h) =
    rw
      (
        e,
        returned_of (check_type p.type p value) (check_type-fits p.type p value ∙ f),
        values_pass ps rest h,
      )
      refl

required_present :
    (arguments : Arguments) (ps : List CapabilityParameter)
    → missing_arguments arguments ps ≡ []
    → All (HasArgument arguments) ps
unfolding missing_arguments
required_present arguments [] h = tt
required_present arguments (p ∷ ps) h =
    elim (Bool-cases (p.required && not (is_some (lookup p.name arguments)))) [
      | inl e ↦ absurd (ground (arith, e, h))
      | inr e ↦ ((λ r. ground (arith, e, r)), required_present arguments ps (rw e at h))
    ]

-- What is known of the parts when a value and the values after it have been accepted.
before_returned :
    (argument : String × Value) (validated : Arguments) (first : Outcome (Unit {0}))
    (others : Outcome Arguments)
    → before first (kept argument others) ≡ returned validated
    → (is_returned first ≡ true)
      × ((rest : Arguments) × (others ≡ returned rest) × (validated ≡ argument ∷ rest))
before_returned argument validated (raised e) others h = cc
before_returned argument validated (returned done) (raised e) h = cc
before_returned argument validated (returned done) (returned rest) h = (refl, (rest, refl, cc))

accepted_fit :
    (ps : List CapabilityParameter) (arguments validated : Arguments)
    → unknown_arguments arguments ps ≡ []
    → validate_values arguments ps ≡ returned validated
    → All (FitsSchema ps) arguments × (validated ≡ arguments)
unfolding unknown_arguments validate_values validate_parameter_value
accepted_fit ps [] validated u v = (tt, cc)
accepted_fit ps ((name, value) ∷ rest) validated u v = elim (Option-cases (parameter_of name ps)) [
  | inl e ↦ cc (rw e at u)
  | inr (p, e) ↦
      let (b, (others, w, same)) =
        before_returned (name, value) validated (check_type p.type p value)
          (validate_values rest ps) (rw e at v) in
      let (fit, kept) = accepted_fit ps rest others (rw e at u) w in
      (((p, e, sym (check_type-fits p.type p value) ∙ b), fit), ground (arith, same, kept))
]

-- Arguments are returned exactly if they conform to the schema, and are returned as they are.
pub validate-Conforms :
    (arguments validated : Arguments) (metadata : CapabilityMetadata)
    → (validate_capability_arguments arguments metadata ≡ returned validated)
      ↔ (Conforms arguments metadata × (validated ≡ arguments))
unfolding validate_capability_arguments
validate-Conforms arguments validated metadata = (
  λ h.
      let (u, m, v) =
        accepted (unknown_arguments arguments metadata.parameters)
          (missing_arguments arguments metadata.parameters)
          (validate_values arguments metadata.parameters) h in
      let (fit, same) = accepted_fit metadata.parameters arguments validated u v in
      ((fit, required_present arguments metadata.parameters m), same),
  λ ((fit, present), same).
      rw
        (
          same,
          no_unknown metadata.parameters arguments fit,
          no_missing arguments metadata.parameters present,
        )
        (values_pass metadata.parameters arguments fit),
)
  where
    accepted :
        (unknown missing : List String) (values : Outcome Arguments)
        → refuse_names "Unknown arguments" metadata unknown
            (refuse_names "Missing required arguments" metadata missing values)
          ≡ returned validated
        → (unknown ≡ []) × (missing ≡ []) × (values ≡ returned validated)
    accepted [] [] values h = (refl, refl, h)
    accepted [] (name ∷ names) values h = cc
    accepted (name ∷ names) missing values h = cc
