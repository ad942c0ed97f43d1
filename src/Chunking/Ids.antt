-- ===== src/Chunking/Ids.antt =====
-- The ids of chunks, as the windows look them up.
use native.Mathlib.Numerals.{add-one}
use trust_news.Prelude.{
  subst, ℕ, suc, ◌≤◌, String, ◌≡◌, refl, ap, ◌∙◌, none, some, List, [], ◌∷◌, arith, eq_iff, eq_refl,
  All,
}
use trust_news.Prelude.Int.{ℤ}
use trust_news.Prelude.Decimal.{decimal-injective, concat-injective}
use trust_news.Chunking.Windows.{Chunk, chunk_by_id}
use trust_news.Chunking.Cut.{chunk_id, make_chunk, chunk_text}
use trust_news.Chunking.Rounds.{AreNumbered}
use trust_news.Chunking.Chunks.{chunk_text_ends}

chunk_id-injective :
    (source_id : String) (n m : ℕ) → chunk_id source_id n ≡ chunk_id source_id m → n ≡ m
unfolding chunk_id
chunk_id-injective source_id n m e =
    decimal-injective n m (concat-injective "-chunk-" _ _ (concat-injective source_id _ _ e))

make_chunk-chunk_id :
    (source_id : String) (n : ℕ) (text : String)
    → (make_chunk source_id n text).chunk_id ≡ chunk_id source_id (suc n)
unfolding make_chunk
make_chunk-chunk_id source_id n text = ap (chunk_id source_id) (add-one n)

chunk_by_id_self :
    (c : Chunk) (rest : List Chunk)
    → chunk_by_id c.chunk_id rest ≡ none
    → chunk_by_id c.chunk_id (c ∷ rest) ≡ some c
unfolding chunk_by_id
chunk_by_id_self c rest absent = ground (arith, absent, eq_refl c.chunk_id)

module _ (source_id : String) where
  -- An id with a number up to `n` is not among chunks numbered from `n` on.
  chunk_by_id-none :
      (m n : ℕ) (chunks : List Chunk)
      → m ≤ n
      → AreNumbered source_id n chunks
      → chunk_by_id (chunk_id source_id m) chunks ≡ none
  unfolding chunk_by_id
  chunk_by_id-none m n [] h numbered = refl
  chunk_by_id-none m n (c ∷ rest) h (e, numbered) =
      let named : c.chunk_id ≡ chunk_id source_id (suc n) =
        ap (λ d. d.chunk_id) e ∙ make_chunk-chunk_id source_id n c.text in
      ground (
        arith,
        chunk_by_id-none m (suc n) rest (omega arith) numbered,
        named,
        eq_iff c.chunk_id (chunk_id source_id m),
        chunk_id-injective source_id (suc n) m,
      )

  chunk_by_id-later :
      (c d : Chunk) (chunks : List Chunk)
      → chunk_by_id d.chunk_id chunks ≡ some d
      → chunk_by_id d.chunk_id (c ∷ chunks) ≡ some d
  unfolding chunk_by_id
  chunk_by_id-later c d chunks e = rw e

  All-chunk_by_id :
      (c : Chunk) (chunks some_chunks : List Chunk)
      → All (λ d. chunk_by_id d.chunk_id chunks ≡ some d) some_chunks
      → All (λ d. chunk_by_id d.chunk_id (c ∷ chunks) ≡ some d) some_chunks
  All-chunk_by_id c chunks [] h = tt
  All-chunk_by_id c chunks (d ∷ rest) (e, h) =
      (chunk_by_id-later c d chunks e, All-chunk_by_id c chunks rest h)

  AreNumbered-chunk_by_id :
      (n : ℕ) (chunks : List Chunk)
      → AreNumbered source_id n chunks
      → All (λ c. chunk_by_id c.chunk_id chunks ≡ some c) chunks
  unfolding chunk_by_id
  AreNumbered-chunk_by_id n [] numbered = tt
  AreNumbered-chunk_by_id n (c ∷ rest) (e, numbered) =
      let named : c.chunk_id ≡ chunk_id source_id (suc n) =
        ap (λ d. d.chunk_id) e ∙ make_chunk-chunk_id source_id n c.text in
      let absent : chunk_by_id c.chunk_id rest ≡ none =
        ap (λ k. chunk_by_id k rest) named
        ∙ chunk_by_id-none (suc n) (suc n) rest (omega arith) numbered in
      (
        chunk_by_id_self c rest absent,
        All-chunk_by_id c rest rest (AreNumbered-chunk_by_id (suc n) rest numbered),
      )

-- Every chunk of a text is found by its id among all of them, so that no two have one id.
pub chunks_are_found_by_id :
    (source_id text : String) (chunk_size_chars overlap_chars : ℤ) (chunks : List Chunk)
    → chunk_text source_id text chunk_size_chars overlap_chars ≡ some chunks
    → All (λ c. chunk_by_id c.chunk_id chunks ≡ some c) chunks
chunks_are_found_by_id source_id text chunk_size_chars overlap_chars chunks returned =
    let (found, e, numbered) = chunk_text_ends source_id text chunk_size_chars overlap_chars in
    let same : found ≡ chunks = cc in
    AreNumbered-chunk_by_id source_id 0 chunks (subst (AreNumbered source_id 0) same numbered)
