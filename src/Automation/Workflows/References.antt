-- ===== src/Automation/Workflows/References.antt =====
-- packages/automation/src/memovi_automation/domain/value_objects/workflow.py: the references in a
-- text, `_VARIABLE_REF`, and in a value. The regular expression is read in one pass: what fails to be
-- a reference has no second dollar sign in it.
use Prim.Native.Char.{Char, code}
use memovi.Prelude.{
  ℕ, String, concat, Bool, true, false, ◌&&◌, ◌||◌, not, List, [], ◌∷◌, ◌++◌, leb, ◌==◌, str_eq,
}
use memovi.Automation.Values.{
  Value, Values, Entries, null, text, boolean, integer, floating, object, array, opaque, no_values,
  item, no_entries, entry,
}

-- A template's pieces: what stands for itself, and the name in `${name}`.
pub data Piece : Type 0 where
  literal : String → Piece
  reference : String → Piece

-- Where the scan stands: outside, behind `$`, or behind `${` and a part of a name.
pub data Mode : Type 0 where
  outside dollar : Mode
  inside : String → Mode

abbrev pub one : Char → String
one c = String.◌∷◌ c String.[]

abbrev pub is_letter : ℕ → Bool
is_letter c = (leb 65 c && leb c 90) || (leb 97 c && leb c 122) || c == 95

-- [a-zA-Z_] for the first character of a name, and [a-zA-Z0-9_\.] for the others.
abbrev pub in_name : String → ℕ → Bool
in_name name c = is_letter c || (not (str_eq name "") && ((leb 48 c && leb c 57) || c == 46))

-- What is read in a mode that the text or a character ends.
abbrev pub pending_text : Mode → String
pending_text outside = ""
pending_text dollar = "$"
pending_text (inside name) = concat "${" name

-- What a character does in a mode: the pieces that it ends, and the next mode.
abbrev pub restart : Mode → Char → List Piece × Mode
restart mode c = elim (code c == 36) [
  | true ↦ (literal (pending_text mode) ∷ [], dollar)
  | false ↦ (literal (concat (pending_text mode) (one c)) ∷ [], outside)
]

abbrev pub read_char : Mode → Char → List Piece × Mode
read_char outside c = restart outside c
read_char dollar c = elim (code c == 123) [ true ↦ ([], inside "") | false ↦ restart dollar c ]
read_char (inside name) c = elim (code c == 125 && not (str_eq name "")) [
  | true ↦ (reference name ∷ [], outside)
  | false ↦ elim (in_name name (code c)) [
    | true ↦ ([], inside (concat name (one c)))
    | false ↦ restart (inside name) c
  ]
]

unfoldable pub scan : Mode → String → List Piece
scan mode String.[] = literal (pending_text mode) ∷ []
scan mode (String.◌∷◌ c rest) = (read_char mode c).0 ++ scan (read_char mode c).1 rest

-- The pieces of a template but for the empty ones.
abbrev pub solid : List Piece → List Piece
solid [] = []
solid (reference name ∷ pieces) = reference name ∷ solid pieces
solid (literal s ∷ pieces) = elim (str_eq s "") [
  | true ↦ solid pieces
  | false ↦ literal s ∷ solid pieces
]

-- `_VARIABLE_REF.findall`
abbrev pub names : List Piece → List String
names [] = []
names (reference name ∷ pieces) = name ∷ names pieces
names (literal s ∷ pieces) = names pieces

unfoldable pub pieces_of : String → List Piece
unfolding scan
pieces_of template = solid (scan outside template)

-- `_collect_refs`, in the order of the values
unfoldable mutual
  unfolding pieces_of

  pub collect_refs : Value → List String
  collect_refs null = []
  collect_refs (text s) = names (pieces_of s)
  collect_refs (boolean b) = []
  collect_refs (integer negative n) = []
  collect_refs (floating s) = []
  collect_refs (object items) = collect_entries items
  collect_refs (array items) = collect_items items
  collect_refs (opaque s) = []

  pub collect_items : Values → List String
  collect_items no_values = []
  collect_items (item v rest) = collect_refs v ++ collect_items rest

  pub collect_entries : Entries → List String
  collect_entries no_entries = []
  collect_entries (entry key v rest) = collect_refs v ++ collect_entries rest

-- `reference.split(".")`
abbrev pub onto_first : Char → List String → List String
onto_first c [] = one c ∷ []
onto_first c (part ∷ parts) = String.◌∷◌ c part ∷ parts

unfoldable pub split_dots : String → List String
split_dots String.[] = "" ∷ []
split_dots (String.◌∷◌ c rest) = elim (code c == 46) [
  | true ↦ "" ∷ split_dots rest
  | false ↦ onto_first c (split_dots rest)
]

-- A reference to a step's output, `steps.<step_id>…`, or to a variable.
pub data Target : Type 0 where
  step_output : String → List String → Target
  variable_name : Target

unfoldable pub target_of_parts : List String → Target
target_of_parts [] = variable_name
target_of_parts (first ∷ []) = variable_name
target_of_parts (first ∷ step_id ∷ path) = elim (str_eq first "steps") [
  | true ↦ step_output step_id path
  | false ↦ variable_name
]

-- `ref.startswith("steps.")`, with the parts that follow
unfoldable pub target : String → Target
unfolding split_dots target_of_parts
target ref = target_of_parts (split_dots ref)
