-- ===== src/Chunking/Chunks.antt =====
-- The chunks of a text: that the loop ends, how they are numbered, and how long they are.
use trust_news.Prelude.{
  subst, ℕ, ◌*◌, ◌≤◌, ◌<◌, String, ◌≡◌, refl, Option, none, some, List, [], arith, All,
}
use trust_news.Prelude.Int.{ℤ, pos, negsuc}
use trust_news.Chunking.Windows.{Chunk}
use trust_news.Chunking.Sentences.{split_sentences}
use trust_news.Chunking.Cut.{chunk_size_of, overlap_of, joined_sentences, chunk_text}
use trust_news.Chunking.Rounds.{
  AreNumbered, Returns, AreBuilt, Fits, add_sentences-IsBuilt, last_chunk-Returns,
}

chunk_size_of-pos : (n : ℤ) → 0 < chunk_size_of n
unfolding chunk_size_of
chunk_size_of-pos (pos n) = ground arith
chunk_size_of-pos (negsuc n) = omega arith

chunk_text-Returns :
    (source_id text : String) (chunk_size_chars overlap_chars : ℤ)
    → Returns
        (AreBuilt source_id (chunk_size_of chunk_size_chars) (overlap_of overlap_chars))
        (chunk_text source_id text chunk_size_chars overlap_chars)
unfolding chunk_text Fits joined_sentences
chunk_text-Returns source_id text chunk_size_chars overlap_chars =
    let size = chunk_size_of chunk_size_chars in
    let overlap = overlap_of overlap_chars in
    last_chunk-Returns source_id size overlap _ (
      add_sentences-IsBuilt source_id size overlap (record { chunks = []; current = [] })
        (split_sentences text) (chunk_size_of-pos chunk_size_chars)
        (record { numbered = tt; short = λ e. tt }, λ e. omega arith))

chunks_of :
    (source_id : String) (size overlap : ℕ) (o : Option (List Chunk))
    → Returns (AreBuilt source_id size overlap) o
    → (chunks : List Chunk) × (o ≡ some chunks) × AreNumbered source_id 0 chunks
chunks_of source_id size overlap none h = elim h [ ]
chunks_of source_id size overlap (some chunks) h = (chunks, refl, h.numbered)

-- `chunk_text` ends for every text and every two numbers, and numbers its chunks from 1 on: the
-- index and the id of the nth chunk are n and "<source>-chunk-<n>", and its length is that of its text.
pub chunk_text_ends :
    (source_id text : String) (chunk_size_chars overlap_chars : ℤ)
    → (chunks : List Chunk) × (chunk_text source_id text chunk_size_chars overlap_chars
        ≡ some chunks)
      × AreNumbered source_id 0 chunks
chunk_text_ends source_id text chunk_size_chars overlap_chars =
    chunks_of source_id _ _ _ (chunk_text-Returns source_id text chunk_size_chars overlap_chars)

short_of :
    (source_id : String) (size overlap : ℕ) (o : Option (List Chunk)) (chunks : List Chunk)
    → Returns (AreBuilt source_id size overlap) o
    → overlap ≡ 0
    → o ≡ some chunks
    → All (λ c. 2 * c.char_length ≤ 3 * size) chunks
short_of source_id size overlap none chunks h e returned = cc
short_of source_id size overlap (some found) chunks h e returned =
    subst
      (λ (o : Option (List Chunk)). elim o [
        | none ↦ Unit {0}
        | some cs ↦ All (λ c. 2 * c.char_length ≤ 3 * size) cs
      ])
      returned (h.short e)

-- Without an overlap no chunk is longer than one and a half times the chunk size.
pub chunks_are_short :
    (source_id text : String) (chunk_size_chars overlap_chars : ℤ) (chunks : List Chunk)
    → overlap_of overlap_chars ≡ 0
    → chunk_text source_id text chunk_size_chars overlap_chars ≡ some chunks
    → All (λ c. 2 * c.char_length ≤ 3 * chunk_size_of chunk_size_chars) chunks
chunks_are_short source_id text chunk_size_chars overlap_chars chunks e returned =
    short_of source_id _ _ _ chunks
      (chunk_text-Returns source_id text chunk_size_chars overlap_chars) e returned
