-- ===== src/Chunking/Cut.antt =====
-- `chunk_text` and `_make_chunk` of chunker.py.
use mathlib.Core.Option
use trust_news.Prelude.{
  ℕ, zero, suc, ◌+◌, ◌-◌, ◌*◌, String, Bool, true, false, ◌&&◌, Option, none, some, List, [], ◌∷◌,
  ◌++◌, ◌==◌, and_then, length, min, max, ltb, eqb, if◌then◌else◌, strip, concat, collapse_spaces,
  join_spaced, text_length, text_take, text_drop,
}
use trust_news.Prelude.Int.{ℤ, pos, negsuc}
use trust_news.Prelude.Decimal.{decimal}
use trust_news.Chunking.Windows.{Chunk}
use trust_news.Chunking.Sentences.{split_sentences, overlap_sentences}

-- `f"{source_id}-chunk-{n}"`.
unfoldable pub chunk_id : String → ℕ → String
unfolding concat decimal
chunk_id source_id n = concat source_id (concat "-chunk-" (decimal n))

unfoldable pub make_chunk : String → ℕ → String → Chunk
unfolding chunk_id
make_chunk source_id zero_based_index text = record {
  chunk_index = zero_based_index + 1;
  chunk_id = chunk_id source_id (zero_based_index + 1);
  text = text;
  char_length = text_length text;
}

-- `max(1, int(chunk_size_chars or 1200))`.
unfoldable pub chunk_size_of : ℤ → ℕ
chunk_size_of (pos n) = if eqb n 0 then 1200 else n
chunk_size_of (negsuc n) = 1

-- `max(0, int(overlap_chars or 0))`.
unfoldable pub overlap_of : ℤ → ℕ
overlap_of (pos n) = n
overlap_of (negsuc n) = 0

-- The loop's variables.
pub record Building : Type 0 where
  pub chunks : List Chunk
  pub current : List String

-- `_normalize_text(" ".join(current))`.
unfoldable pub joined_sentences : List String → String
unfolding collapse_spaces join_spaced
joined_sentences current = collapse_spaces (join_spaced current)

abbrev pub is_filled : List String → Bool
is_filled [] = false
is_filled (s ∷ rest) = true

module _ (source_id : String) (chunk_size_chars overlap_chars : ℕ) where
  unfoldable pub push_chunk : String → List Chunk → List Chunk
  unfolding make_chunk
  push_chunk text chunks = chunks ++ make_chunk source_id (length chunks) text ∷ []

  -- `n > chunk_size_chars * 1.5`.
  abbrev pub is_long : ℕ → Bool
  is_long n = ltb (3 * chunk_size_chars) (2 * n)

  abbrev pub slice_step : ℕ
  slice_step = max 1 (chunk_size_chars - min overlap_chars (chunk_size_chars - 1))

  -- A candidate that is too long closes the current chunk.
  unfoldable pub close_chunk : Building → String → Building
  unfolding joined_sentences push_chunk overlap_sentences
  close_chunk st sentence =
      if is_filled st.current
        && ltb chunk_size_chars (text_length (joined_sentences (st.current ++ sentence ∷ [])))
      then record {
        chunks = push_chunk (joined_sentences st.current) st.chunks;
        current = overlap_sentences st.current overlap_chars;
      }
      else st

  -- The loop over `long_sentence[offset:]`; `none` means that the fuel ran out.
  unfoldable pub cut_slices : ℕ → String → List Chunk → Option (List Chunk × String)
  unfolding push_chunk strip text_take text_drop
  cut_slices zero rest chunks = none
  cut_slices (suc fuel) rest chunks =
      let more =
        cut_slices fuel (text_drop slice_step rest)
          (push_chunk (strip (text_take chunk_size_chars rest)) chunks) in
      if is_long (text_length rest) then more else some (chunks, rest)

  -- `remainder`, and `current` after it.
  unfoldable pub keep_remainder : List Chunk × String → Building
  unfolding strip
  keep_remainder (chunks, rest) = record {
    chunks = chunks;
    current = if strip rest == "" then [] else strip rest ∷ [];
  }

  -- A sentence that stands alone and is too long is cut into slices.
  unfoldable pub cut_long : List Chunk → List String → Option Building
  unfolding cut_slices keep_remainder
  cut_long chunks [] = some (record { chunks = chunks; current = [] })
  cut_long chunks (s ∷ []) =
      if is_long (text_length s)
      then Option.map keep_remainder (cut_slices (suc (text_length s)) s chunks)
      else some (record { chunks = chunks; current = s ∷ [] })
  cut_long chunks (s ∷ t ∷ rest) = some (record { chunks = chunks; current = s ∷ t ∷ rest })

  -- A round of the loop.
  unfoldable pub add_sentence : Building → String → Option Building
  unfolding close_chunk cut_long
  add_sentence st sentence =
      let closed = close_chunk st sentence in
      cut_long closed.chunks (closed.current ++ sentence ∷ [])

  unfoldable pub add_sentences : Building → List String → Option Building
  unfolding add_sentence
  add_sentences st [] = some st
  add_sentences st (s ∷ rest) = and_then (add_sentence st s) (λ now. add_sentences now rest)

  -- The last chunk.
  unfoldable pub last_chunk : Building → List Chunk
  unfolding joined_sentences push_chunk
  last_chunk st =
      if is_filled st.current then push_chunk (joined_sentences st.current) st.chunks else st.chunks

unfoldable pub chunk_text : String → String → ℤ → ℤ → Option (List Chunk)
unfolding split_sentences chunk_size_of overlap_of add_sentences last_chunk
chunk_text source_id text chunk_size_chars overlap_chars =
    let size = chunk_size_of chunk_size_chars in
    let overlap = overlap_of overlap_chars in
    Option.map (last_chunk source_id size overlap) (
      add_sentences source_id size overlap (record { chunks = []; current = [] })
        (split_sentences text))
