-- ===== src/Documents/Text/Normal.antt =====
-- What `normalize_text` guarantees of its result.
use memovi.Prelude.{
  ℕ, ◌+◌, ◌≡◌, refl, ◌≢◌, inl, inr, Bool, true, false, List, [], ◌∷◌, ◌++◌, map, All, ltb, ◌==◌,
  ◌||◌, Bool-cases, arith, if◌then◌else◌,
}
use memovi.Prelude.Strings.{is_space}
use memovi.Documents.Text.{
  Text, replace_crlf, replace_cr, onto_first, split_lines, keep_or_drop, rstrip, lstrip, strip,
  collapse_blanks, join_lines, collapse_newlines, normalize_text,
}

abbrev pub IsPlain : ℕ → Type 0
IsPlain c = (c ≢ 13) × (c ≢ 9)

replace_cr-All : (text : Text) → All (λ c. c ≢ 13) (replace_cr text)
unfolding replace_cr
replace_cr-All [] = tt
replace_cr-All (c ∷ rest) = (ground arith, replace_cr-All rest)

module _ (P : ℕ → Type 0) where
  abbrev AllLines : List Text → Type 0
  AllLines = All (All P)

  onto_first-AllLines :
      (c : ℕ) (lines : List Text) → P c → AllLines lines → AllLines (onto_first c lines)
  onto_first-AllLines c [] p h = ((p, tt), tt)
  onto_first-AllLines c (line ∷ lines) p h = ((p, h.0), h.1)

  split_lines-AllLines : (text : Text) → All P text → AllLines (split_lines text)
  unfolding split_lines
  split_lines-AllLines [] h = (tt, tt)
  split_lines-AllLines (c ∷ rest) h = elim (Bool-cases (c == 10)) [
    | inl e ↦ rw e (tt, split_lines-AllLines rest h.1)
    | inr e ↦ rw e (onto_first-AllLines c (split_lines rest) h.0 (split_lines-AllLines rest h.1))
  ]

  keep_or_drop-All : (c : ℕ) (text : Text) → P c → All P text → All P (keep_or_drop c text)
  keep_or_drop-All c [] p h = elim (Bool-cases (is_space c)) [
    | inl e ↦ rw e tt
    | inr e ↦ rw e (p, tt)
  ]
  keep_or_drop-All c (d ∷ rest) p h = (p, h)

  rstrip-All : (text : Text) → All P text → All P (rstrip text)
  unfolding rstrip
  rstrip-All [] h = tt
  rstrip-All (c ∷ rest) h = keep_or_drop-All c (rstrip rest) h.0 (rstrip-All rest h.1)

  lstrip-All : (text : Text) → All P text → All P (lstrip text)
  unfolding lstrip
  lstrip-All [] h = tt
  lstrip-All (c ∷ rest) h = elim (Bool-cases (is_space c)) [
    | inl e ↦ rw e (lstrip-All rest h.1)
    | inr e ↦ rw e h
  ]

  append-All : (xs ys : Text) → All P xs → All P ys → All P (xs ++ ys)
  append-All [] ys hx hy = hy
  append-All (x ∷ xs) ys hx hy = (hx.0, append-All xs ys hx.1 hy)

  join_lines-All : P 10 → (lines : List Text) → AllLines lines → All P (join_lines lines)
  unfolding join_lines
  join_lines-All feed [] h = tt
  join_lines-All feed (line ∷ []) h = h.0
  join_lines-All feed (line ∷ next ∷ lines) h =
      append-All line (10 ∷ join_lines (next ∷ lines)) h.0
        (feed, join_lines-All feed (next ∷ lines) h.1)

  collapse_newlines-All :
      (seen : ℕ) (text : Text) → All P text → All P (collapse_newlines seen text)
  unfolding collapse_newlines
  collapse_newlines-All seen [] h = tt
  collapse_newlines-All seen (c ∷ rest) h = elim (Bool-cases (c == 10)) [
    | inr e ↦ rw e (h.0, collapse_newlines-All 0 rest h.1)
    | inl e ↦ rw e (elim (Bool-cases (ltb seen 2)) [
      | inl few ↦ rw few (h.0, collapse_newlines-All (seen + 1) rest h.1)
      | inr many ↦ rw many (collapse_newlines-All (seen + 1) rest h.1)
    ])
  ]

-- A collapsed line has no tab: a run of blanks becomes a space.
collapse_blanks-All :
    (inside : Bool) (text : Text)
    → All (λ c. c ≢ 13) text
    → All IsPlain (collapse_blanks inside text)
unfolding collapse_blanks
collapse_blanks-All inside [] h = tt
collapse_blanks-All inside (c ∷ rest) h = elim (Bool-cases (c == 32 || c == 9)) [
  | inl e ↦ rw e (blank_run inside (collapse_blanks-All true rest h.1))
  | inr e ↦ rw e ((h.0, ground arith), collapse_blanks-All false rest h.1)
]
  where
    blank_run :
        (inside : Bool)
        → All IsPlain (collapse_blanks true rest)
        → All IsPlain (if inside then collapse_blanks true rest else 32 ∷ collapse_blanks true rest)
    blank_run true k = k
    blank_run false k = ((omega arith, omega arith), k)

normal_lines-All :
    (lines : List Text)
    → All (All (λ c. c ≢ 13)) lines
    → All (All IsPlain) (map (λ line. collapse_blanks false (rstrip line)) lines)
normal_lines-All [] h = tt
normal_lines-All (line ∷ lines) h = (
  collapse_blanks-All false (rstrip line) (rstrip-All (λ c. c ≢ 13) line h.0),
  normal_lines-All lines h.1,
)

-- A text that `rstrip` leaves alone, and so the rest of it.
keep_or_drop_fixed :
    (c : ℕ) (text stripped : Text) → keep_or_drop c stripped ≡ c ∷ text → stripped ≡ text
keep_or_drop_fixed c text [] h = elim (Bool-cases (is_space c)) [ inl e ↦ cc | inr e ↦ cc ]
keep_or_drop_fixed c text (d ∷ rest) h = cc

rstrip-keep_or_drop :
    (c : ℕ) (text : Text) → rstrip text ≡ text → rstrip (keep_or_drop c text) ≡ keep_or_drop c text
unfolding rstrip
rstrip-keep_or_drop c [] h = elim (Bool-cases (is_space c)) [
  | inl e ↦ rw e refl
  | inr e ↦ rw (e, e) refl
]
rstrip-keep_or_drop c (d ∷ rest) h = rw h refl

rstrip_twice : (text : Text) → rstrip (rstrip text) ≡ rstrip text
unfolding rstrip
rstrip_twice [] = refl
rstrip_twice (c ∷ rest) = rstrip-keep_or_drop c (rstrip rest) (rstrip_twice rest)

rstrip-lstrip : (text : Text) → rstrip text ≡ text → rstrip (lstrip text) ≡ lstrip text
unfolding rstrip lstrip
rstrip-lstrip [] h = refl
rstrip-lstrip (c ∷ rest) h = elim (Bool-cases (is_space c)) [
  | inl e ↦ rw e (rstrip-lstrip rest (keep_or_drop_fixed c rest (rstrip rest) h))
  | inr e ↦ rw e h
]

lstrip_twice : (text : Text) → lstrip (lstrip text) ≡ lstrip text
unfolding lstrip
lstrip_twice [] = refl
lstrip_twice (c ∷ rest) = elim (Bool-cases (is_space c)) [
  | inl e ↦ rw e (lstrip_twice rest)
  | inr e ↦ rw (e, e) refl
]

pub strip_twice : (text : Text) → strip (strip text) ≡ strip text
unfolding strip
strip_twice text = rw (rstrip-lstrip (rstrip text) (rstrip_twice text)) (lstrip_twice (rstrip text))

-- The normalised text has no carriage return and no tab, and nothing that `strip` would take away:
-- stripping it again changes nothing.
pub normalize_text-IsPlain :
    (text : Text)
    → All IsPlain (normalize_text text) × (strip (normalize_text text) ≡ normalize_text text)
unfolding normalize_text strip
normalize_text-IsPlain text =
    let unified = replace_cr (replace_crlf text) in
    let joined =
      join_lines (map (λ line. collapse_blanks false (rstrip line)) (split_lines unified)) in
    let plain =
      join_lines-All IsPlain (omega arith, omega arith)
        (map (λ line. collapse_blanks false (rstrip line)) (split_lines unified))
        (normal_lines-All (split_lines unified)
          (split_lines-AllLines (λ c. c ≢ 13) unified (replace_cr-All (replace_crlf text)))) in
    (
      lstrip-All IsPlain (rstrip (collapse_newlines 0 joined)) (
          rstrip-All IsPlain (collapse_newlines 0 joined)
            (collapse_newlines-All IsPlain 0 joined plain)),
      strip_twice (collapse_newlines 0 joined),
    )
