-- ===== src/Memory/Chunks/Coverage.antt =====
-- What the chunks of a text hold.
use memovi.Prelude.{
  ℕ, zero, suc, ◌+◌, ◌-◌, ◌≤◌, ◌≡◌, refl, sym, ap, ◌∙◌, inl, inr, true, false, not, List, [], ◌∷◌,
  ◌++◌, All, Bool-cases, arith, ltb, length, take, drop, take-drop, drop-drop, drop_beyond,
  length-take, filter, filter-append,
}
use memovi.Prelude.Strings.{is_space}
use memovi.Prelude.Results.{ok}
use memovi.Documents.Text.{Text, strip, rstrip, lstrip, keep_or_drop}
use memovi.Documents.Text.Normal.{strip_twice}
use memovi.Memory.Chunks.{ChunkDraft, is_empty, range, slice, collect_drafts, generate}

-- The characters of a text that are not white space.
abbrev pub visible : Text → Text
visible = filter (λ c. not (is_space c))

-- What `strip` takes away is white space.
visible-keep_or_drop : (c : ℕ) (text : Text) → visible (keep_or_drop c text) ≡ visible (c ∷ text)
visible-keep_or_drop c [] = elim (Bool-cases (is_space c)) [
  | inl e ↦ rw e refl
  | inr e ↦ rw (e, e) refl
]
visible-keep_or_drop c (d ∷ text) = refl

visible-rstrip : (text : Text) → visible (rstrip text) ≡ visible text
unfolding rstrip
visible-rstrip [] = refl
visible-rstrip (c ∷ text) = visible-keep_or_drop c (rstrip text) ∙ (elim (Bool-cases (is_space c)) [
  | inl e ↦ rw (e, visible-rstrip text) refl
  | inr e ↦ rw (e, visible-rstrip text) refl
])

visible-lstrip : (text : Text) → visible (lstrip text) ≡ visible text
unfolding lstrip
visible-lstrip [] = refl
visible-lstrip (c ∷ text) = elim (Bool-cases (is_space c)) [
  | inl e ↦ rw e (visible-lstrip text)
  | inr e ↦ rw (e, e) refl
]

visible-strip : (text : Text) → visible (strip text) ≡ visible text
unfolding strip
visible-strip text = visible-lstrip (rstrip text) ∙ visible-rstrip text

length-keep_or_drop : (c : ℕ) (text : Text) → length (keep_or_drop c text) ≤ suc (length text)
length-keep_or_drop c [] = elim (Bool-cases (is_space c)) [
  | inl e ↦ rw e (omega arith)
  | inr e ↦ rw e (omega arith)
]
length-keep_or_drop c (d ∷ text) = omega arith

length-rstrip : (text : Text) → length (rstrip text) ≤ length text
unfolding rstrip
length-rstrip [] = omega arith
length-rstrip (c ∷ text) = omega (arith, length-keep_or_drop c (rstrip text), length-rstrip text)

length-lstrip : (text : Text) → length (lstrip text) ≤ length text
unfolding lstrip
length-lstrip [] = omega arith
length-lstrip (c ∷ text) = elim (Bool-cases (is_space c)) [
  | inl e ↦ rw e (omega (arith, length-lstrip text))
  | inr e ↦ rw e (omega arith)
]

length-strip : (text : Text) → length (strip text) ≤ length text
unfolding strip
length-strip text = omega (arith, length-lstrip (rstrip text), length-rstrip text)

-- A chunk is not empty, no longer than the bound, and has no white space at its ends.
abbrev pub IsChunk : ℕ → ChunkDraft → Type 0
IsChunk max_chunk_size draft =
    (1 ≤ length draft.text) × (length draft.text ≤ max_chunk_size) × (strip draft.text ≡ draft.text)

abbrev pub IsNumbered : ℕ → List ChunkDraft → Type 0
IsNumbered next [] = Unit
IsNumbered next (draft ∷ drafts) = (draft.chunk_index ≡ next) × IsNumbered (next + 1) drafts

abbrev pub texts : List ChunkDraft → Text
texts [] = []
texts (draft ∷ drafts) = draft.text ++ texts drafts

-- The drafts of the part of a text from `start` on.
abbrev AreDrafts : ℕ → Text → ℕ → ℕ → List ChunkDraft → Type 0
AreDrafts max text start next drafts =
    All (IsChunk max) drafts
    × IsNumbered next drafts
    × (visible (texts drafts) ≡ visible (drop start text))

empty_of_is_empty : (text : Text) → is_empty text ≡ true → text ≡ []
empty_of_is_empty [] h = refl
empty_of_is_empty (c ∷ text) h = cc

length_of_is_empty : (text : Text) → is_empty text ≡ false → 1 ≤ length text
length_of_is_empty [] h = cc
length_of_is_empty (c ∷ text) h = omega arith

module _ (max : ℕ) (positive : 1 ≤ max) (text : Text) where
  -- One slice and the rest.
  visible-slice :
      (start : ℕ)
      → visible (drop start text)
        ≡ visible (strip (slice start (start + max) text)) ++ visible (drop (start + max) text)
  visible-slice start =
      let here = drop start text in
      let rest : drop max here ≡ drop (start + max) text = drop-drop max start text in
      let size : start + max - start ≡ max = omega arith in
      ap visible (sym (take-drop max here))
      ∙ filter-append (λ c. not (is_space c)) (take max here) (drop max here)
      ∙ (rw (size, visible-strip (take max here), rest) refl)

  collect_drafts-AreDrafts :
      (fuel start next : ℕ)
      → length text ≤ fuel + start
      → (drafts : List ChunkDraft) × (collect_drafts max text
            (range fuel start (length text) max)
            next
          ≡ ok drafts)
        × AreDrafts max text start next drafts
  unfolding collect_drafts range
  collect_drafts-AreDrafts zero start next h =
      ([], refl, (tt, tt, rw (drop_beyond start text (omega arith)) refl))
  collect_drafts-AreDrafts (suc fuel) start next h = elim (Bool-cases (ltb start (length text))) [
    | inr e ↦ ([], rw e refl, (tt, tt, rw (drop_beyond start text (ground (arith, e))) refl))
    | inl e ↦ elim (Bool-cases (is_empty (strip (slice start (start + max) text)))) [
      | inl f ↦
          let (drafts, collected, are) =
            collect_drafts-AreDrafts fuel (start + max) next (omega arith) in
          (
            drafts,
            rw (e, f) collected,
            (
              are.0,
              are.1,
              are.2
                  ∙ sym (
                      visible-slice start
                      ∙ (rw (empty_of_is_empty (strip (slice start (start + max) text)) f) refl)),
            ),
          )
      | inr f ↦
          let (drafts, collected, are) =
            collect_drafts-AreDrafts fuel (start + max) (next + 1) (omega arith) in
          let segment = strip (slice start (start + max) text) in
          (
            record { chunk_index = next; text = segment } ∷ drafts,
            rw (e, f, collected) refl,
            (
              (
                (
                  length_of_is_empty segment f,
                  omega (
                    arith,
                    length-strip (slice start (start + max) text),
                    length-take (start + max - start) (drop start text),
                  ),
                  strip_twice (slice start (start + max) text),
                ),
                are.0,
              ),
              (refl, are.1),
              filter-append (λ c. not (is_space c)) segment (texts drafts)
                  ∙ (rw are.2 (sym (visible-slice start))),
            ),
          )
    ]
  ]

-- For a bound of at least one, `generate` raises nothing. No chunk is empty, longer than the bound or
-- with white space at its ends, their indices count from zero, and together they hold all the
-- characters of the text that are not white space, in order.
pub generate-AreDrafts :
    (max : ℕ) (text : Text)
    → 1 ≤ max
    → (drafts : List ChunkDraft) × (generate max text ≡ ok drafts)
      × All (IsChunk max) drafts
      × IsNumbered 0 drafts
      × (visible (texts drafts) ≡ visible text)
unfolding generate
generate-AreDrafts max text positive = elim (Bool-cases (is_empty (strip text))) [
  | inl e ↦
      let nothing = ap visible (empty_of_is_empty (strip text) e) in
      ([], rw e refl, tt, tt, sym nothing ∙ visible-strip text)
  | inr e ↦
      let (drafts, collected, are) =
        collect_drafts-AreDrafts max positive (strip text) (length (strip text)) 0 0
          (omega arith) in
      (drafts, rw e collected, are.0, are.1, are.2 ∙ visible-strip text)
]
