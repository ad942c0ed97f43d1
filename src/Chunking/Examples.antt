-- ===== src/Chunking/Examples.antt =====
-- The chunks of short texts, and context windows over three chunks.
use mathlib.Core.Option
use trust_news.Prelude.{
  some, All, arith, ◌*◌, ℕ, ◌≤◌, String, ◌≡◌, refl, none, [], ◌∷◌, map, length, List,
}
use trust_news.Chunking.Sentences.{overlap_sentences, IsShortestEnd, overlap-IsShortestEnd}
use trust_news.Chunking.Cut.{chunk_text, chunk_size_of, overlap_of}
use trust_news.Chunking.Rounds.{AreNumbered}
use trust_news.Chunking.Chunks.{chunk_text_ends, chunks_are_short}
use trust_news.Chunking.Ids.{chunks_are_found_by_id}
use trust_news.Prelude.Int.{pos}
use trust_news.Chunking.Windows.{chunk_by_id, Chunk, Ranked, Settings, build_context_windows}
use trust_news.Chunking.Cover.{countdown, AreApart, included, windows_do_not_nest}

abbrev chunk : ℕ → String → Chunk
chunk n k = record { chunk_index = n; chunk_id = k; text = "It opened in May."; char_length = 17 }

abbrev chunks : List Chunk
chunks = chunk 1 "k1" ∷ chunk 2 "k2" ∷ chunk 3 "k3" ∷ []

abbrev ranked : String → Ranked
ranked k = record { chunk_id = k; score = none }

abbrev settings : Settings
settings = record { max_contexts = 2; before = 0; after = 1; min_context_chars = 5 }

windows_do_not_nest_example :
    let contexts = (build_context_windows settings chunks (ranked "k1" ∷ ranked "k2" ∷ []) []).0 in
    (map (λ w. w.number) contexts ≡ countdown (length contexts))
    × AreApart (included contexts)
    × (length contexts ≤ 2)
windows_do_not_nest_example =
    windows_do_not_nest settings chunks (ranked "k1" ∷ ranked "k2" ∷ []) []

two_windows :
    included (build_context_windows settings chunks (ranked "k1" ∷ ranked "k2" ∷ []) []).0
    ≡ ("k2" ∷ "k3" ∷ []) ∷ ("k1" ∷ "k2" ∷ []) ∷ []
unfolding build_context_windows
two_windows = refl

-- "A." and "B." are one chunk of the size 5; the long sentence is cut.
abbrev letter : String
letter = "A. B. CCCCCCCCCC"

three_chunks :
    Option.map (map (λ c. c.text)) (chunk_text "s" letter (pos 5) (pos 0))
    ≡ some ("A. B." ∷ "CCCCC" ∷ "CCCCC" ∷ [])
unfolding chunk_text
three_chunks = refl

-- With an overlap, the long sentence follows others and is not cut.
long_chunk :
    Option.map (map (λ c. c.char_length)) (chunk_text "s" letter (pos 5) (pos 2))
    ≡ some (5 ∷ 13 ∷ [])
unfolding chunk_text
long_chunk = refl

chunk_text_ends_example :
    (chunks : List Chunk) × (chunk_text "s" letter (pos 5) (pos 2) ≡ some chunks)
    × AreNumbered "s" 0 chunks
chunk_text_ends_example = chunk_text_ends "s" letter (pos 5) (pos 2)

abbrev chunks_of_letter : List Chunk
chunks_of_letter = (chunk_text_ends "s" letter (pos 5) (pos 0)).0

chunks_are_short_example : All (λ c. 2 * c.char_length ≤ 15) chunks_of_letter
unfolding chunk_size_of overlap_of
chunks_are_short_example =
    chunks_are_short "s" letter (pos 5) (pos 0) chunks_of_letter refl
      (chunk_text_ends "s" letter (pos 5) (pos 0)).1

chunks_are_found_by_id_example :
    All (λ c. chunk_by_id c.chunk_id chunks_of_letter ≡ some c) chunks_of_letter
chunks_are_found_by_id_example =
    chunks_are_found_by_id "s" letter (pos 5) (pos 0) chunks_of_letter
      (chunk_text_ends "s" letter (pos 5) (pos 0)).1

overlap-IsShortestEnd_example :
    IsShortestEnd 4
      ("One." ∷ "Two." ∷ "Six." ∷ [])
      (overlap_sentences ("One." ∷ "Two." ∷ "Six." ∷ []) 4)
overlap-IsShortestEnd_example =
    overlap-IsShortestEnd ("One." ∷ "Two." ∷ "Six." ∷ []) 4 (omega arith)
