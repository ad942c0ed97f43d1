-- ===== src/Prelude/Text.antt =====
-- Text: code points, the order of Python's strings, `upper` and `int` on a text.
use Prim.Native.Nat.{ℕ, ◌+◌, ◌-◌, ◌*◌}
use Prim.Native.String.{String}
use mathlib.Core.Path.{◌≡◌, refl, ap₂}
use mathlib.Core.Bool.{Bool, true, false, ◌&&◌}
use mathlib.Core.Option
use mathlib.Core.Option.{Option, none, some}
use mathlib.Core.List.{List, [], ◌∷◌, map}
use native.Mathlib.Omega.{arith}
use text.Mathlib.TextEquality.{Char-path}
use trust_news.Prelude.Tests.{ltb, leb, eqb, if◌then◌else◌}
use trust_news.Prelude.Int.{ℤ, pos, negsuc}
use trust_news.Prelude.Spaces.{codes, strip}

-- Python's `s <= t`: lexicographic by code point.
codes_leb : List ℕ → List ℕ → Bool
codes_leb [] t = true
codes_leb (a ∷ s) [] = false
codes_leb (a ∷ s) (b ∷ t) = if ltb a b then true else if eqb a b then codes_leb s t else false

unfoldable pub text_leb : String → String → Bool
unfolding codes_leb
text_leb s t = codes_leb (codes s) (codes t)

codes_leb-total : (s t : List ℕ) → codes_leb s t ≡ false → codes_leb t s ≡ true
unfolding codes_leb
codes_leb-total [] t h = ground arith
codes_leb-total (a ∷ s) [] h = refl
codes_leb-total (a ∷ s) (b ∷ t) h = ground (arith, codes_leb-total s t)

codes_leb_trans :
    (s t u : List ℕ) → codes_leb s t ≡ true → codes_leb t u ≡ true → codes_leb s u ≡ true
unfolding codes_leb
codes_leb_trans [] t u h k = refl
codes_leb_trans (a ∷ s) [] u h k = ground arith
codes_leb_trans (a ∷ s) (b ∷ t) [] h k = ground arith
codes_leb_trans (a ∷ s) (b ∷ t) (c ∷ u) h k = ground (arith, codes_leb_trans s t u)

codes_leb-antisym : (s t : List ℕ) → codes_leb s t ≡ true → codes_leb t s ≡ true → s ≡ t
unfolding codes_leb
codes_leb-antisym [] [] h k = refl
codes_leb-antisym [] (b ∷ t) h k = ground arith
codes_leb-antisym (a ∷ s) [] h k = ground arith
codes_leb-antisym (a ∷ s) (b ∷ t) h k = ground (arith, codes_leb-antisym s t)

pub codes-injective : (s t : String) → codes s ≡ codes t → s ≡ t
codes-injective String.[] String.[] e = refl
codes-injective String.[] (String.◌∷◌ c t) e = cc
codes-injective (String.◌∷◌ c s) String.[] e = cc
codes-injective (String.◌∷◌ c s) (String.◌∷◌ d t) e =
    ap₂ String.◌∷◌ (Char-path c d (cc)) (codes-injective s t (cc))

pub text_leb-total : (s t : String) → text_leb s t ≡ false → text_leb t s ≡ true
unfolding text_leb
text_leb-total s t = codes_leb-total (codes s) (codes t)

pub text_leb_trans :
    (s t u : String) → text_leb s t ≡ true → text_leb t u ≡ true → text_leb s u ≡ true
unfolding text_leb
text_leb_trans s t u = codes_leb_trans (codes s) (codes t) (codes u)

pub text_leb-antisym : (s t : String) → text_leb s t ≡ true → text_leb t s ≡ true → s ≡ t
unfolding text_leb
text_leb-antisym s t h k = codes-injective s t (codes_leb-antisym (codes s) (codes t) h k)

-- `s.upper()` on code points, as far as its result is ASCII: `ı` and `ſ` are the two letters
-- outside ASCII whose upper case is one ASCII letter.
unfoldable pub upper_code : ℕ → ℕ
upper_code c =
    if leb b'a' c && leb c b'z'
    then c - 32
    else if eqb c 305
    then b'I'
    else if eqb c 383
    then b'S'
    else c

codes_eqb : List ℕ → List ℕ → Bool
codes_eqb [] [] = true
codes_eqb (a ∷ s) (b ∷ t) = eqb a b && codes_eqb s t
codes_eqb _ _ = false

-- `s.upper() == t`, for an ASCII text `t`.
unfoldable pub upper_is : String → String → Bool
unfolding upper_code codes_eqb
upper_is s t = codes_eqb (map upper_code (codes s)) (codes t)

-- `s.lower()` on code points, as far as its result is ASCII: the Kelvin sign is the one other
-- letter whose lower case is one ASCII letter.
unfoldable pub lower_code : ℕ → ℕ
lower_code c = if leb b'A' c && leb c b'Z' then c + 32 else if eqb c 8490 then b'k' else c

-- `s.lower() == t`, for an ASCII text `t`.
unfoldable pub lower_is : String → String → Bool
unfolding lower_code codes_eqb
lower_is s t = codes_eqb (map lower_code (codes s)) (codes t)

-- `s.lower() == t.lower()`.
unfoldable pub same_lower : String → String → Bool
unfolding lower_code codes_eqb
same_lower s t = codes_eqb (map lower_code (codes s)) (map lower_code (codes t))

-- The digits of `int(text)`: one `_` may stand between two digits. `after` says whether a digit
-- has just been read.
int_digits : Bool → ℕ → List ℕ → Option ℕ
int_digits after n [] = if after then some n else none
int_digits after n (c ∷ s) =
    let digit = int_digits true (n * 10 + (c - 48)) s in
    let underscore = int_digits false n s in
    if leb 48 c && leb c 57 then digit else if eqb c b'_' && after then underscore else none

negate : ℕ → ℤ
negate n = if eqb n 0 then pos 0 else negsuc (n - 1)

signed_int : List ℕ → Option ℤ
unfolding int_digits negate
signed_int [] = none
signed_int (c ∷ s) =
    if eqb c b'-'
    then Option.map negate (int_digits false 0 s)
    else if eqb c b'+'
    then Option.map pos (int_digits false 0 s)
    else Option.map pos (int_digits false 0 (c ∷ s))

-- `int(text)`, for ASCII digits; `none` is its `ValueError`.
unfoldable pub int_of_text : String → Option ℤ
unfolding strip signed_int
int_of_text s = signed_int (codes (strip s))

int_of_text_examples :
    (int_of_text " -1_2" ≡ some (negsuc 11))
    × (int_of_text "+0" ≡ some (pos 0))
    × (int_of_text "3.5" ≡ none)
    × (int_of_text "" ≡ none)
unfolding int_of_text
int_of_text_examples = (refl, refl, refl, refl)

upper_is_examples : (upper_is "true" "TRUE" ≡ true) × (upper_is "untrue" "TRUE" ≡ false)
unfolding upper_is
upper_is_examples = (refl, refl)
