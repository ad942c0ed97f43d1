-- ===== src/Chunking/Rounds.antt =====
-- The rounds of chunk_text's loop: that they end, and what they keep.
use mathlib.Core.Option
use trust_news.Prelude.{
  Bool, if◌then◌else◌, ◌⊎◌, ◌&&◌, ℕ, zero, suc, ◌+◌, ◌*◌, ◌≤◌, ◌<◌, String, ◌≡◌, refl, ap, true,
  false, Option, none, some, List, [], ◌∷◌, ◌++◌, arith, length, ltb, All, Bool-cases, inl, inr,
  strip, if-both, text_length, text_take, text_drop, length-text_drop, length-text_take,
  strip_shortens, collapse_spaces_shortens, and_then, ◌==◌,
}
use trust_news.Chunking.Windows.{Chunk}
use trust_news.Chunking.Sentences.{overlap_sentences}
use trust_news.Chunking.Cut.{
  make_chunk, Building, joined_sentences, push_chunk, close_chunk, is_long, slice_step, cut_slices,
  keep_remainder, cut_long, add_sentence, add_sentences, last_chunk, is_filled,
}

-- Numbered from a number on: the index, the id and the length of each chunk.
abbrev pub AreNumbered : String → ℕ → List Chunk → Type 0
AreNumbered source_id n [] = Unit
AreNumbered source_id n (c ∷ rest) =
    (c ≡ make_chunk source_id n c.text) × AreNumbered source_id (suc n) rest

All-push :
    (P : Chunk → Type 0) (chunks : List Chunk) (c : Chunk)
    → All P chunks
    → P c
    → All P (chunks ++ c ∷ [])
All-push P [] c h p = (p, tt)
All-push P (d ∷ rest) c (q, h) p = (q, All-push P rest c h p)

-- A run that returns, and what then holds of its value.
abbrev pub Returns {ℓ} : {A : Type ℓ} → (A → Type 0) → Option A → Type 0
Returns P none = ⊥
Returns P (some a) = P a

branch-Returns :
    {A : Type 0} (P : A → Type 0) (b : Bool) (o : Option A) (a : A)
    → Returns P o
    → (b ≡ false → P a)
    → Returns P (if b then o else some a)
branch-Returns P true o a h k = h
branch-Returns P false o a h k = k refl

and_then-Returns :
    {A B : Type 0} (P : A → Type 0) (Q : B → Type 0) (o : Option A) (f : A → Option B)
    → ((a : A) → P a → Returns Q (f a))
    → Returns P o
    → Returns Q (and_then o f)
and_then-Returns P Q none f keeps h = h
and_then-Returns P Q (some a) f keeps h = keeps a h

module _ (source_id : String) (chunk_size_chars overlap_chars : ℕ) where
  push_chunk-AreNumbered :
      (n m : ℕ) (text : String) (chunks : List Chunk)
      → m ≡ n + length chunks
      → AreNumbered source_id n chunks
      → AreNumbered source_id n (chunks ++ make_chunk source_id m text ∷ [])
  unfolding make_chunk
  push_chunk-AreNumbered n m text [] e h =
      (ap (λ k. make_chunk source_id k text) (omega (arith, e)), tt)
  push_chunk-AreNumbered n m text (c ∷ rest) e (h, hs) =
      (h, push_chunk-AreNumbered (suc n) m text rest (omega (arith, e)) hs)

  -- At most one and a half times the chunk size.
  abbrev IsShort : Chunk → Type 0
  IsShort c = 2 * c.char_length ≤ 3 * chunk_size_chars

  -- The chunks so far: numbered, and short if there is no overlap.
  pub record AreBuilt (chunks : List Chunk) : Type 0 where
    pub numbered : AreNumbered source_id 0 chunks
    pub short : overlap_chars ≡ 0 → All IsShort chunks

  unfoldable pub Fits : List String → Type 0
  Fits current =
      overlap_chars ≡ 0 → 2 * text_length (joined_sentences current) ≤ 3 * chunk_size_chars

  abbrev IsBuilt : Building → Type 0
  IsBuilt st = AreBuilt st.chunks × Fits st.current

  push_chunk-AreBuilt :
      (text : String) (chunks : List Chunk)
      → AreBuilt chunks
      → (overlap_chars ≡ 0 → 2 * text_length text ≤ 3 * chunk_size_chars)
      → AreBuilt (push_chunk source_id chunk_size_chars overlap_chars text chunks)
  unfolding push_chunk
  push_chunk-AreBuilt text chunks h fits = record {
    numbered = push_chunk-AreNumbered 0 (length chunks) text chunks (omega arith) h.numbered;
    short = λ e.
        All-push IsShort chunks (make_chunk source_id (length chunks) text) (h.short e)
          (unfold make_chunk in fits e);
  }

  cut_slices-AreBuilt :
      (fuel : ℕ) (rest : String) (chunks : List Chunk)
      → 0 < chunk_size_chars
      → text_length rest < fuel
      → AreBuilt chunks
      → Returns
          (λ r. AreBuilt r.0 × (2 * text_length r.1 ≤ 3 * chunk_size_chars))
          (cut_slices source_id chunk_size_chars overlap_chars fuel rest chunks)
  unfolding cut_slices
  cut_slices-AreBuilt zero rest chunks room enough h = elim enough [ ]
  cut_slices-AreBuilt (suc fuel) rest chunks room enough h =
      let slice = text_take chunk_size_chars rest in
      let step = slice_step source_id chunk_size_chars overlap_chars in
      let short : text_length (strip slice) ≤ chunk_size_chars =
        omega (arith, strip_shortens slice, length-text_take chunk_size_chars rest) in
      elim (Bool-cases (is_long source_id chunk_size_chars overlap_chars (text_length rest))) [
        | inl e ↦ rw e (
            cut_slices-AreBuilt fuel (text_drop step rest) _ room
              (ground (arith, length-text_drop step rest))
              (push_chunk-AreBuilt (strip slice) chunks h (λ z. omega (arith, short))))
        | inr e ↦ rw e (h, ground arith)
      ]

  keep_remainder-IsBuilt :
      (o : Option (List Chunk × String))
      → Returns (λ r. AreBuilt r.0 × (2 * text_length r.1 ≤ 3 * chunk_size_chars)) o
      → Returns IsBuilt (Option.map (keep_remainder source_id chunk_size_chars overlap_chars) o)
  unfolding keep_remainder joined_sentences Fits
  keep_remainder-IsBuilt none h = h
  keep_remainder-IsBuilt (some (chunks, rest)) (h, short) = (
    h,
    λ e.
        if-both (λ current. 2 * text_length (joined_sentences current) ≤ 3 * chunk_size_chars)
          (strip rest == "") (unfold joined_sentences in omega arith)
          (omega (arith, strip_shortens rest, collapse_spaces_shortens (strip rest))),
  )

  cut_long-IsBuilt :
      (chunks : List Chunk) (current : List String)
      → 0 < chunk_size_chars
      → AreBuilt chunks
      → (overlap_chars ≡ 0
          → (length current ≤ 1)
            ⊎ (2 * text_length (joined_sentences current) ≤ 3 * chunk_size_chars))
      → Returns IsBuilt (cut_long source_id chunk_size_chars overlap_chars chunks current)
  unfolding cut_long joined_sentences Fits
  cut_long-IsBuilt chunks [] room h fits = (h, λ e. omega arith)
  cut_long-IsBuilt chunks (s ∷ []) room h fits =
      branch-Returns IsBuilt (is_long source_id chunk_size_chars overlap_chars (text_length s)) _ _
        (keep_remainder-IsBuilt _
          (cut_slices-AreBuilt (suc (text_length s)) s chunks room (omega arith) h))
        (λ e. (h, λ z. ground (arith, collapse_spaces_shortens s)))
  cut_long-IsBuilt chunks (s ∷ t ∷ rest) room h fits = (h, λ e. ground (arith, fits e))

  close_chunk-AreBuilt :
      (st : Building) (sentence : String)
      → IsBuilt st
      → AreBuilt (close_chunk source_id chunk_size_chars overlap_chars st sentence).chunks
  unfolding close_chunk Fits
  close_chunk-AreBuilt st sentence (h, fits) =
      if-both (λ (now : Building). AreBuilt now.chunks)
        (is_filled st.current
          && ltb chunk_size_chars (text_length (joined_sentences (st.current ++ sentence ∷ []))))
        (push_chunk-AreBuilt (joined_sentences st.current) st.chunks h fits) h

  -- Without an overlap, the sentence stands alone after a closed chunk, or fits.
  close_chunk-current :
      (chunks : List Chunk) (current : List String) (sentence : String)
      → overlap_chars ≡ 0
      → let now =
          (close_chunk source_id chunk_size_chars overlap_chars
            (record { chunks = chunks; current = current })
            sentence).current
          ++ sentence ∷ [] in
        (length now ≤ 1) ⊎ (2 * text_length (joined_sentences now) ≤ 3 * chunk_size_chars)
  unfolding close_chunk overlap_sentences
  close_chunk-current chunks [] sentence e = inl (omega arith)
  close_chunk-current chunks (s ∷ rest) sentence e =
      elim (Bool-cases
        (ltb chunk_size_chars (text_length (joined_sentences (s ∷ rest ++ sentence ∷ []))))) [
          | inl long ↦ rw (long, e) (inl (omega arith))
          | inr short ↦ rw short (inr (ground arith))
        ]

  pub add_sentences-IsBuilt :
      (st : Building) (sentences : List String)
      → 0 < chunk_size_chars
      → IsBuilt st
      → Returns IsBuilt (add_sentences source_id chunk_size_chars overlap_chars st sentences)
  unfolding add_sentences add_sentence
  add_sentences-IsBuilt st [] room h = h
  add_sentences-IsBuilt st (s ∷ rest) room h =
      let closed = close_chunk source_id chunk_size_chars overlap_chars st s in
      and_then-Returns IsBuilt IsBuilt _
        (λ now. add_sentences source_id chunk_size_chars overlap_chars now rest)
        (λ now built. add_sentences-IsBuilt now rest room built)
        (cut_long-IsBuilt closed.chunks (closed.current ++ s ∷ []) room
          (close_chunk-AreBuilt st s h) (close_chunk-current st.chunks st.current s))

  last_chunk-AreBuilt :
      (st : Building)
      → IsBuilt st
      → AreBuilt (last_chunk source_id chunk_size_chars overlap_chars st)
  unfolding last_chunk Fits
  last_chunk-AreBuilt st (h, fits) =
      if-both AreBuilt (is_filled st.current)
        (push_chunk-AreBuilt (joined_sentences st.current) st.chunks h fits) h

  pub last_chunk-Returns :
      (o : Option Building)
      → Returns IsBuilt o
      → Returns AreBuilt (Option.map (last_chunk source_id chunk_size_chars overlap_chars) o)
  last_chunk-Returns none h = h
  last_chunk-Returns (some st) h = last_chunk-AreBuilt st h
