-- ===== src/Chunking/Sentences.antt =====
-- `split_sentences` and `_overlap_sentences` of chunker.py.
use Prim.Native.Char.{Char, code}
use mathlib.Core.List.{reverse, reverse_aux, reverse_aux-eq, reverse-reverse}
use trust_news.Prelude.{
  ℕ, ◌+◌, ◌≤◌, ◌<◌, String, ◌≡◌, refl, sym, ◌⊎◌, inl, inr, ◌||◌, List, [], ◌∷◌, ◌++◌, map, arith,
  ◌==◌, leb, leb→le, subst, eqb, if◌then◌else◌, Bool-cases, keep, not, is_space, strip,
  collapse_spaces, text_length,
}

-- Where a reading of a text stands: after a letter, right after one of `.!?`, or in the spaces that
-- follow one.
pub data Mode : Type 0 where
  inside after_end in_gap : Mode

mode_of : ℕ → Mode
mode_of c = if eqb c b'.' || eqb c b'!' || eqb c b'?' then after_end else inside

-- The first part, with a character before it.
abbrev prepend : Char → List String → List String
prepend c [] = String.◌∷◌ c "" ∷ []
prepend c (p ∷ ps) = String.◌∷◌ c p ∷ ps

-- `SENTENCE_BOUNDARY_RE.split(text)`: a boundary is the longest run of spaces after one of `.!?`.
boundary_split : Mode → String → List String
unfolding mode_of is_space
boundary_split mode String.[] = "" ∷ []
boundary_split inside (String.◌∷◌ c s) = prepend c (boundary_split (mode_of (code c)) s)
boundary_split after_end (String.◌∷◌ c s) =
    let gap = boundary_split in_gap s in
    let other = boundary_split (mode_of (code c)) s in
    if is_space (code c) then "" ∷ gap else prepend c other
boundary_split in_gap (String.◌∷◌ c s) =
    let gap = boundary_split in_gap s in
    let other = boundary_split (mode_of (code c)) s in
    if is_space (code c) then gap else prepend c other

-- `sentences or [normalized]`.
abbrev or_whole : String → List String → List String
or_whole normalized [] = normalized ∷ []
or_whole normalized (p ∷ ps) = p ∷ ps

unfoldable pub split_sentences : String → List String
unfolding boundary_split collapse_spaces strip
split_sentences text =
    let normalized = collapse_spaces text in
    if normalized == ""
    then []
    else or_whole normalized
        (keep (λ p. not (p == "")) (map strip (boundary_split inside normalized)))

-- The loop over the sentences in reverse; `kept` and `total` are its variables.
keep_back : ℕ → List String → ℕ → List String → List String
keep_back overlap_chars kept total [] = kept
keep_back overlap_chars kept total (s ∷ rest) =
    let now = s ∷ kept in
    let total' = total + (text_length s + 1) in
    let more = keep_back overlap_chars now total' rest in
    if leb overlap_chars total' then now else more

-- `_overlap_sentences`, where the number is not negative.
unfoldable pub overlap_sentences : List String → ℕ → List String
unfolding keep_back
overlap_sentences sentences overlap_chars =
    if eqb overlap_chars 0 then [] else keep_back overlap_chars [] 0 (reverse sentences)

-- The characters of some sentences, with one more for each.
abbrev pub size : List String → ℕ
size [] = 0
size (s ∷ rest) = size rest + (text_length s + 1)

abbrev pub rest_of : List String → List String
rest_of [] = []
rest_of (s ∷ rest) = rest

-- The last sentences of a list: all of it or of that size, and without the first one of them below it.
abbrev pub IsShortestEnd : ℕ → List String → List String → Type 0
IsShortestEnd overlap_chars sentences kept =
    (before : List String) × (before ++ kept ≡ sentences)
    × ((before ≡ []) ⊎ (overlap_chars ≤ size kept))
    × (size (rest_of kept) < overlap_chars)

size-rest_of : (kept : List String) → size (rest_of kept) ≤ size kept
size-rest_of [] = omega arith
size-rest_of (s ∷ rest) = omega arith

keep_back-IsShortestEnd :
    (overlap_chars : ℕ) (kept : List String) (total : ℕ) (reversed : List String)
    → total ≡ size kept
    → total < overlap_chars
    → IsShortestEnd overlap_chars
        (reverse_aux reversed kept)
        (keep_back overlap_chars kept total reversed)
unfolding keep_back
keep_back-IsShortestEnd overlap_chars kept total [] e h =
    ([], refl, inl refl, omega (arith, size-rest_of kept))
keep_back-IsShortestEnd overlap_chars kept total (s ∷ rest) e h =
    let total' = total + (text_length s + 1) in
    elim (Bool-cases (leb overlap_chars total')) [
      | inl full ↦ rw full (
        reverse rest,
        sym (reverse_aux-eq rest (s ∷ kept)),
        inr (omega (arith, leb→le overlap_chars total' full)),
        omega arith,
      )
      | inr more ↦ rw more (
          keep_back-IsShortestEnd overlap_chars (s ∷ kept) total' rest (omega arith) (ground arith))
    ]

-- The overlap of a chunk with a positive number of characters: the shortest run of last sentences
-- that, with a character after each, has that many characters, or all the sentences if they have not.
pub overlap-IsShortestEnd :
    (sentences : List String) (overlap_chars : ℕ)
    → 0 < overlap_chars
    → IsShortestEnd overlap_chars sentences (overlap_sentences sentences overlap_chars)
unfolding overlap_sentences
overlap-IsShortestEnd sentences overlap_chars h = elim (Bool-cases (eqb overlap_chars 0)) [
  | inl e ↦ absurd (ground arith)
  | inr e ↦ rw e (
      subst
        (λ all. IsShortestEnd overlap_chars all (keep_back overlap_chars [] 0 (reverse sentences)))
        (reverse-reverse sentences)
        (keep_back-IsShortestEnd overlap_chars [] 0 (reverse sentences) refl h))
]
