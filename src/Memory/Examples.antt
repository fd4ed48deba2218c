-- ===== src/Memory/Examples.antt =====
-- The theorems on packages/memory at concrete texts.
use memovi.Prelude.{◌≡◌, List, [], ◌∷◌, All, arith}
use memovi.Prelude.Results.{ok}
use memovi.Documents.Text.{Text}
use memovi.Memory.Chunks.{ChunkDraft, generate}
use memovi.Memory.Chunks.Coverage.{IsChunk, IsNumbered, texts, visible, generate-AreDrafts}

-- "ab cd" in chunks of two, one of which loses a blank.
abbrev sample : Text
sample = 97 ∷ 98 ∷ 32 ∷ 99 ∷ 100 ∷ []

generate-AreDrafts_example :
    (drafts : List ChunkDraft) × (generate 2 sample ≡ ok drafts)
    × All (IsChunk 2) drafts
    × IsNumbered 0 drafts
    × (visible (texts drafts) ≡ visible sample)
generate-AreDrafts_example = generate-AreDrafts 2 sample (omega arith)
