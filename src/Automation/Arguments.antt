-- ===== src/Automation/Arguments.antt =====
-- packages/automation/src/memovi_automation/application/services/argument_validation.py: the arguments
-- of a capability against the parameters that it declares.
pub mod Schema
use Prim.Native.Nat.{Ordering}
use Prim.Native.String.{compare}
use memovi.Prelude.{
  String, concat, Bool, true, false, not, ◌&&◌, Option, none, some, List, [], ◌∷◌, map, filter,
  str_eq, if◌then◌else◌, is_some,
}
use memovi.Prelude.Maps.{lookup}
use memovi.Automation.Values.{
  Error, Outcome, returned, raised, invalid_arguments, Value, null, text, boolean, integer,
  floating, object, array, opaque, Arguments, ParameterType, string_type, integer_type, number_type,
  boolean_type, object_type, array_type, CapabilityParameter, CapabilityMetadata,
}

abbrev name_of : CapabilityParameter → String
name_of p = p.name

-- `sorted` of texts, and `", ".join`.
abbrev at_most : String → String → Bool
at_most s t = elim (compare s t) [ Ordering.gt ↦ false | _ ↦ true ]

abbrev insert_sorted : String → List String → List String
insert_sorted s [] = s ∷ []
insert_sorted s (t ∷ ts) =
    let rest = insert_sorted s ts in if at_most s t then s ∷ t ∷ ts else t ∷ rest

abbrev sorted : List String → List String
sorted [] = []
sorted (s ∷ ss) = insert_sorted s (sorted ss)

abbrev join : List String → String
join [] = ""
join (s ∷ []) = s
join (s ∷ t ∷ ts) = concat s (concat ", " (join (t ∷ ts)))

-- metadata.parameter_map().get(name); the names of the parameters are unique.
unfoldable pub parameter_of : String → List CapabilityParameter → Option CapabilityParameter
parameter_of name [] = none
parameter_of name (p ∷ ps) = if str_eq p.name name then some p else parameter_of name ps

-- `isinstance(value, _TYPE_CHECKS[type])`, in which a bool is an int.
abbrev pub is_instance : ParameterType → Value → Bool
is_instance string_type (text s) = true
is_instance integer_type (integer negative n) = true
is_instance integer_type (boolean b) = true
is_instance number_type (integer negative n) = true
is_instance number_type (floating repr) = true
is_instance number_type (boolean b) = true
is_instance boolean_type (boolean b) = true
is_instance object_type (object mapping) = true
is_instance array_type (array items) = true
is_instance type value = false

abbrev is_bool : Value → Bool
is_bool (boolean b) = true
is_bool value = false

abbrev type_name : ParameterType → String
type_name string_type = "string"
type_name integer_type = "integer"
type_name number_type = "number"
type_name boolean_type = "boolean"
type_name object_type = "object"
type_name array_type = "array"

abbrev of_type : CapabilityParameter → Error
of_type p = invalid_arguments (
    concat "Argument '"
      (concat p.name (concat "' must be of type " (concat (type_name p.type) "."))))

abbrev unless_instance : ParameterType → CapabilityParameter → Value → Outcome (Unit {0})
unless_instance type p value = if is_instance type value then returned tt else raised (of_type p)

-- The three tests on bool, and then the test of the type.
abbrev pub check_type : ParameterType → CapabilityParameter → Value → Outcome (Unit {0})
check_type boolean_type p value =
    if is_bool value then returned tt else unless_instance boolean_type p value
check_type integer_type p value =
    if is_bool value then raised (of_type p) else unless_instance integer_type p value
check_type number_type p value =
    if is_bool value then raised (of_type p) else unless_instance number_type p value
check_type type p value = unless_instance type p value

unfoldable pub validate_parameter_value : CapabilityParameter → Value → Outcome (Unit {0})
validate_parameter_value p value = check_type p.type p value

unfoldable pub unknown_arguments : Arguments → List CapabilityParameter → List String
unknown_arguments [] ps = []
unknown_arguments ((name, value) ∷ rest) ps =
    let others = unknown_arguments rest ps in
    if is_some (parameter_of name ps) then others else name ∷ others

unfoldable pub missing_arguments : Arguments → List CapabilityParameter → List String
missing_arguments arguments [] = []
missing_arguments arguments (p ∷ ps) =
    let others = missing_arguments arguments ps in
    if p.required && not (is_some (lookup p.name arguments)) then p.name ∷ others else others

-- The loop over the arguments, all of which have a parameter.
abbrev validate_found : Option CapabilityParameter → Value → Outcome (Unit {0})
validate_found none value = returned tt
validate_found (some p) value = validate_parameter_value p value

abbrev pub kept : String × Value → Outcome Arguments → Outcome Arguments
kept argument (returned validated) = returned (argument ∷ validated)
kept argument (raised e) = raised e

abbrev pub before : Outcome (Unit {0}) → Outcome Arguments → Outcome Arguments
before (returned done) rest = rest
before (raised e) rest = raised e

unfoldable pub validate_values : Arguments → List CapabilityParameter → Outcome Arguments
validate_values [] ps = returned []
validate_values ((name, value) ∷ rest) ps =
    before (validate_found (parameter_of name ps) value)
      (kept (name, value) (validate_values rest ps))

abbrev pub refuse_names :
    String → CapabilityMetadata → List String → Outcome Arguments → Outcome Arguments
refuse_names what metadata [] rest = rest
refuse_names what metadata (name ∷ names) rest = raised (
    invalid_arguments (
      concat what (
        concat " for capability '"
          (concat metadata.id (concat "': " (concat (join (sorted (name ∷ names))) "."))))))

unfoldable pub validate_capability_arguments : Arguments → CapabilityMetadata → Outcome Arguments
unfolding unknown_arguments missing_arguments validate_values
validate_capability_arguments arguments metadata =
    refuse_names "Unknown arguments" metadata (unknown_arguments arguments metadata.parameters) (
      refuse_names "Missing required arguments" metadata
        (missing_arguments arguments metadata.parameters)
        (validate_values arguments metadata.parameters))
