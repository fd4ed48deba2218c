-- ===== src/Documents/Text.antt =====
-- packages/documents/src/documents/domain/services/text_normalizer.py, over texts as lists of code
-- points. The regular expressions are runs of one class of characters: a run of blanks becomes one
-- space, and a run of three or more line feeds becomes two.
pub mod Normal
use memovi.Prelude.{
  ℕ, suc, ◌+◌, Bool, true, false, ◌&&◌, ◌||◌, List, [], ◌∷◌, ◌++◌, map, leb, ltb, ◌==◌,
  if◌then◌else◌,
}
use memovi.Prelude.Strings.{is_space}

abbrev pub Text : Type 0
Text = List ℕ

-- text.replace("\r\n", "\n")
pub replace_crlf : Text → Text
replace_crlf [] = []
replace_crlf (c ∷ []) = c ∷ []
replace_crlf (c ∷ d ∷ rest) =
    let joined = 10 ∷ replace_crlf rest in
    let kept = c ∷ replace_crlf (d ∷ rest) in if c == 13 && d == 10 then joined else kept

-- .replace("\r", "\n")
pub replace_cr : Text → Text
replace_cr [] = []
replace_cr (c ∷ rest) = (if c == 13 then 10 else c) ∷ replace_cr rest

-- `first` in front of the first line.
abbrev pub onto_first : ℕ → List Text → List Text
onto_first c [] = (c ∷ []) ∷ []
onto_first c (line ∷ lines) = (c ∷ line) ∷ lines

-- normalized.split("\n")
pub split_lines : Text → List Text
split_lines [] = [] ∷ []
split_lines (c ∷ rest) =
    let lines = split_lines rest in if c == 10 then [] ∷ lines else onto_first c lines

abbrev pub keep_or_drop : ℕ → Text → Text
keep_or_drop c [] = if is_space c then [] else c ∷ []
keep_or_drop c (d ∷ rest) = c ∷ d ∷ rest

-- `rstrip`: a character is dropped if nothing is left behind it and it is white space.
unfoldable pub rstrip : Text → Text
rstrip [] = []
rstrip (c ∷ rest) = keep_or_drop c (rstrip rest)

unfoldable pub lstrip : Text → Text
lstrip [] = []
lstrip (c ∷ rest) = let stripped = lstrip rest in if is_space c then stripped else c ∷ rest

unfoldable pub strip : Text → Text
unfolding lstrip rstrip
strip text = lstrip (rstrip text)

-- re.sub(r"[ \t]+", " ", line); `inside` says whether the character before was of the run.
pub collapse_blanks : Bool → Text → Text
collapse_blanks inside [] = []
collapse_blanks inside (c ∷ rest) =
    let run = if inside then collapse_blanks true rest else 32 ∷ collapse_blanks true rest in
    let other = c ∷ collapse_blanks false rest in if c == 32 || c == 9 then run else other

-- "\n".join(lines)
pub join_lines : List Text → Text
join_lines [] = []
join_lines (line ∷ []) = line
join_lines (line ∷ next ∷ lines) = line ++ 10 ∷ join_lines (next ∷ lines)

-- re.sub(r"\n{3,}", "\n\n", text); `seen` counts the line feeds of the run so far.
pub collapse_newlines : ℕ → Text → Text
collapse_newlines seen [] = []
collapse_newlines seen (c ∷ rest) =
    let feed =
      if ltb seen 2
      then c ∷ collapse_newlines (seen + 1) rest
      else collapse_newlines (seen + 1) rest in
    let other = c ∷ collapse_newlines 0 rest in if c == 10 then feed else other

unfoldable pub normalize_text : Text → Text
unfolding replace_crlf replace_cr split_lines rstrip collapse_blanks join_lines collapse_newlines
    strip
normalize_text text =
    let normalized = replace_cr (replace_crlf text) in
    let lines = map (λ line. collapse_blanks false (rstrip line)) (split_lines normalized) in
    strip (collapse_newlines 0 (join_lines lines))
