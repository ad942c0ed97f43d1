-- ===== src/Prelude/Spaces.antt =====
-- Text and its white space: `isspace`, `strip`, the collapsing of spaces, and what these do to the
-- length of a text.
use Prim.Native.Nat.{ℕ, zero, suc, ◌-◌, ◌≤◌}
use Prim.Native.Char.{code}
use Prim.Native.String.{String}
use mathlib.Core.Path.{◌≡◌}
use mathlib.Core.Bool.{Bool, true, false, ◌&&◌, ◌||◌}
use mathlib.Core.List.{List, [], ◌∷◌}
use native.Mathlib.Omega.{arith}
use trust_news.Prelude.Tests.{ltb, leb, eqb, if◌then◌else◌, if-both}
use trust_news.Prelude.Lists.{length}

-- The code points of a text.
abbrev pub codes : String → List ℕ
codes String.[] = []
codes (String.◌∷◌ c s) = code c ∷ codes s

abbrev is_empty_text : String → Bool
is_empty_text String.[] = true
is_empty_text (String.◌∷◌ c s) = false

-- The characters that `str.isspace` accepts: what `strip()` removes at both ends.
unfoldable pub is_space : ℕ → Bool
is_space c =
    leb 9 c && leb c 13
    || leb 28 c && leb c 32
    || eqb c 133
    || eqb c 160
    || eqb c 5760
    || leb 8192 c && leb c 8202
    || eqb c 8232
    || eqb c 8233
    || eqb c 8239
    || eqb c 8287
    || eqb c 12288

strip_left : String → String
unfolding is_space
strip_left String.[] = ""
strip_left (String.◌∷◌ c s) = if is_space (code c) then strip_left s else String.◌∷◌ c s

strip_right : String → String
unfolding is_space
strip_right String.[] = ""
strip_right (String.◌∷◌ c s) =
    let rest = strip_right s in
    if is_empty_text rest && is_space (code c) then "" else String.◌∷◌ c rest

unfoldable pub strip : String → String
unfolding strip_left strip_right
strip s = strip_right (strip_left s)

-- `s + t`.
unfoldable pub concat : String → String → String
concat String.[] t = t
concat (String.◌∷◌ c s) t = String.◌∷◌ c (concat s t)

ends_without : ℕ → String → String
ends_without c String.[] = ""
ends_without c (String.◌∷◌ d s) =
    let rest = ends_without c s in
    if is_empty_text rest && eqb (code d) c then "" else String.◌∷◌ d rest

-- `s.rstrip(c)`, for one character with the code `c`.
unfoldable pub rstrip : ℕ → String → String
unfolding ends_without
rstrip c s = ends_without c s

-- `s.decode("ascii", errors="ignore")[:n]`, for a text of single bytes.
unfoldable pub ascii_prefix : ℕ → String → String
ascii_prefix n String.[] = ""
ascii_prefix n (String.◌∷◌ c s) =
    let keep_one = String.◌∷◌ c (ascii_prefix (n - 1) s) in
    let skip = ascii_prefix n s in
    if eqb n 0 then "" else if ltb (code c) 128 then keep_one else skip

collapse : Bool → String → String
unfolding is_space concat
collapse after String.[] = ""
collapse after (String.◌∷◌ c s) =
    let space = collapse true s in
    let other = String.◌∷◌ c (collapse false s) in
    if is_space (code c) then if after then space else concat " " space else other

-- `re.sub(r"\s+", " ", s).strip()`.
unfoldable pub collapse_spaces : String → String
unfolding collapse strip
collapse_spaces s = strip (collapse false s)

-- `" ".join(texts)`.
unfoldable pub join_spaced : List String → String
unfolding concat
join_spaced [] = ""
join_spaced (s ∷ []) = s
join_spaced (s ∷ t ∷ rest) = concat s (concat " " (join_spaced (t ∷ rest)))

-- `len(s)`.
abbrev pub text_length : String → ℕ
text_length s = length (codes s)

-- `s[:n]`.
unfoldable pub text_take : ℕ → String → String
text_take zero s = ""
text_take (suc n) String.[] = ""
text_take (suc n) (String.◌∷◌ c s) = String.◌∷◌ c (text_take n s)

-- `s[n:]`.
unfoldable pub text_drop : ℕ → String → String
text_drop zero s = s
text_drop (suc n) String.[] = ""
text_drop (suc n) (String.◌∷◌ c s) = text_drop n s

strip_left_shortens : (s : String) → text_length (strip_left s) ≤ text_length s
unfolding strip_left
strip_left_shortens String.[] = omega arith
strip_left_shortens (String.◌∷◌ c s) =
    if-both (λ t. text_length t ≤ suc (text_length s)) (is_space (code c))
      (omega (arith, strip_left_shortens s)) (omega arith)

strip_right_shortens : (s : String) → text_length (strip_right s) ≤ text_length s
unfolding strip_right
strip_right_shortens String.[] = omega arith
strip_right_shortens (String.◌∷◌ c s) =
    if-both (λ t. text_length t ≤ suc (text_length s))
      (is_empty_text (strip_right s) && is_space (code c)) (omega arith)
      (omega (arith, strip_right_shortens s))

pub strip_shortens : (s : String) → text_length (strip s) ≤ text_length s
unfolding strip
strip_shortens s = omega (arith, strip_left_shortens s, strip_right_shortens (strip_left s))

collapse_shortens : (after : Bool) (s : String) → text_length (collapse after s) ≤ text_length s
unfolding collapse concat
collapse_shortens after String.[] = omega arith
collapse_shortens after (String.◌∷◌ c s) =
    let inner = collapse_shortens true s in
    if-both (λ t. text_length t ≤ suc (text_length s)) (is_space (code c))
      (if-both (λ t. text_length t ≤ suc (text_length s)) after (omega arith) (omega arith))
      (omega (arith, collapse_shortens false s))

pub collapse_spaces_shortens : (s : String) → text_length (collapse_spaces s) ≤ text_length s
unfolding collapse_spaces
collapse_spaces_shortens s =
    omega (arith, strip_shortens (collapse false s), collapse_shortens false s)

pub length-text_take : (n : ℕ) (s : String) → text_length (text_take n s) ≤ n
unfolding text_take
length-text_take zero s = omega arith
length-text_take (suc n) String.[] = omega arith
length-text_take (suc n) (String.◌∷◌ c s) = omega (arith, length-text_take n s)

pub length-text_drop : (n : ℕ) (s : String) → text_length (text_drop n s) ≡ text_length s - n
unfolding text_drop
length-text_drop zero s = omega arith
length-text_drop (suc n) String.[] = omega arith
length-text_drop (suc n) (String.◌∷◌ c s) = omega (arith, length-text_drop n s)
