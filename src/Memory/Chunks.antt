-- ===== src/Memory/Chunks.antt =====
-- packages/memory/src/memovi_memory/domain/services/chunk_generator.py, over texts as lists of code
-- points.
pub mod Coverage
use memovi.Prelude.{
  ℕ, zero, suc, ◌+◌, ◌-◌, Bool, true, false, List, [], ◌∷◌, leb, ltb, length, take, drop,
  if◌then◌else◌,
}
use memovi.Prelude.Results.{Result, ok, err, ◌>>=◌}
use memovi.Documents.Text.{Text, strip}

-- The errors of domain/exceptions.py that the package raises here.
pub data Error : Type 0 where
  invalid_chunk : Error
  invalid_chunk_generator : Error

pub record ChunkDraft : Type 0 where
  pub chunk_index : ℕ
  pub text : Text

abbrev pub is_empty : Text → Bool
is_empty [] = true
is_empty (c ∷ text) = false

-- ChunkDraft.__post_init__; an index that is a natural number is a ChunkIndex.
abbrev pub draft_init : ChunkDraft → Result Error ChunkDraft
draft_init draft = if is_empty draft.text then err invalid_chunk else ok draft

-- ChunkGenerator.__init__
abbrev pub chunk_generator : ℕ → Result Error ℕ
chunk_generator max_chunk_size =
    if leb max_chunk_size 0 then err invalid_chunk_generator else ok max_chunk_size

-- range(start, stop, step) for a step that is not zero: `fuel` bounds the number of its members, and
-- `stop` is enough.
unfoldable pub range : ℕ → ℕ → ℕ → ℕ → List ℕ
range zero start stop step = []
range (suc fuel) start stop step =
    let rest = range fuel (start + step) stop step in if ltb start stop then start ∷ rest else []

-- text[start:stop]
abbrev pub slice : ℕ → ℕ → Text → Text
slice start stop text = take (stop - start) (drop start text)

-- The loop of `generate`, from a number of drafts on.
unfoldable pub collect_drafts : ℕ → Text → List ℕ → ℕ → Result Error (List ChunkDraft)
collect_drafts max_chunk_size text [] next_index = ok []
collect_drafts max_chunk_size text (start ∷ starts) next_index =
    let segment = strip (slice start (start + max_chunk_size) text) in
    let skipped = collect_drafts max_chunk_size text starts next_index in
    let appended = draft_init (record { chunk_index = next_index; text = segment }) >>= λ draft.
    collect_drafts max_chunk_size text starts (next_index + 1) >>= λ drafts. ok (draft ∷ drafts) in
    if is_empty segment then skipped else appended

-- ChunkGenerator.generate
unfoldable pub generate : ℕ → Text → Result Error (List ChunkDraft)
unfolding collect_drafts
generate max_chunk_size normalized_text =
    let text = strip normalized_text in
    if is_empty text
    then ok []
    else collect_drafts max_chunk_size text (range (length text) 0 (length text) max_chunk_size) 0
