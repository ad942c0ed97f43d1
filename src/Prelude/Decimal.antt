-- ===== src/Prelude/Decimal.antt =====
-- Numbers printed in decimal, as `str(n)` and f-strings print them.
use Prim.Native.Nat.{ℕ, zero, suc, ◌+◌, ◌-◌, ◌*◌, ◌/◌, ◌%◌, ◌<◌}
use Prim.Native.Char.{Char, char, code}
use Prim.Native.String.{String}
use mathlib.Core.Path.{◌≡◌, refl, sym, ap, ◌∙◌}
use mathlib.Core.Logic.{inl, inr}
use native.Mathlib.Omega.{arith}
use trust_news.Prelude.Tests.{ltb, if◌then◌else◌, Bool-cases}
use trust_news.Prelude.Spaces.{concat}

-- The digit of a number below ten.
digit : ℕ → Char
digit zero = char 48 tt
digit (suc zero) = char 49 tt
digit (suc (suc zero)) = char 50 tt
digit (suc (suc (suc zero))) = char 51 tt
digit (suc (suc (suc (suc zero)))) = char 52 tt
digit (suc (suc (suc (suc (suc zero))))) = char 53 tt
digit (suc (suc (suc (suc (suc (suc zero)))))) = char 54 tt
digit (suc (suc (suc (suc (suc (suc (suc zero))))))) = char 55 tt
digit (suc (suc (suc (suc (suc (suc (suc (suc zero)))))))) = char 56 tt
digit (suc (suc (suc (suc (suc (suc (suc (suc (suc n))))))))) = char 57 tt

-- The digits of a number before a text, with fuel above the number.
digits : ℕ → ℕ → String → String
unfolding digit
digits zero n after = after
digits (suc fuel) n after =
    let more = digits fuel (n / 10) (String.◌∷◌ (digit (n % 10)) after) in
    if ltb n 10 then String.◌∷◌ (digit (n % 10)) after else more

-- `str(n)`.
unfoldable pub decimal : ℕ → String
unfolding digits
decimal n = digits (suc n) n ""

-- The number that digits after a number spell.
read : ℕ → String → ℕ
read n String.[] = n
read n (String.◌∷◌ c s) = read (n * 10 + (code c - 48)) s

code-digit : (d : ℕ) → d < 10 → code (digit d) - 48 ≡ d
unfolding digit
code-digit zero h = refl
code-digit (suc zero) h = refl
code-digit (suc (suc zero)) h = refl
code-digit (suc (suc (suc zero))) h = refl
code-digit (suc (suc (suc (suc zero)))) h = refl
code-digit (suc (suc (suc (suc (suc zero))))) h = refl
code-digit (suc (suc (suc (suc (suc (suc zero)))))) h = refl
code-digit (suc (suc (suc (suc (suc (suc (suc zero))))))) h = refl
code-digit (suc (suc (suc (suc (suc (suc (suc (suc zero)))))))) h = refl
code-digit (suc (suc (suc (suc (suc (suc (suc (suc (suc zero))))))))) h = refl
code-digit (suc (suc (suc (suc (suc (suc (suc (suc (suc (suc n)))))))))) h = absurd (omega arith)

read-digits : (fuel n : ℕ) (after : String) → n < fuel → read 0 (digits fuel n after) ≡ read n after
unfolding digits read
read-digits zero n after h = elim h [ ]
read-digits (suc fuel) n after h =
    let last : code (digit (n % 10)) - 48 ≡ n % 10 = code-digit (n % 10) (omega arith) in
    elim (Bool-cases (ltb n 10)) [
      | inl e ↦ rw e (ap (λ m. read m after) (ground (arith, last)))
      | inr e ↦ rw e (
          read-digits fuel (n / 10) (String.◌∷◌ (digit (n % 10)) after) (ground arith)
          ∙ ap (λ m. read m after) (omega (arith, last)))
    ]

-- Two numbers that are printed alike are equal.
pub decimal-injective : (n m : ℕ) → decimal n ≡ decimal m → n ≡ m
unfolding decimal read
decimal-injective n m e =
    sym (read-digits (suc n) n "" (omega arith))
    ∙ ap (read 0) e
    ∙ read-digits (suc m) m "" (omega arith)

pub concat-injective : (s t u : String) → concat s t ≡ concat s u → t ≡ u
unfolding concat
concat-injective String.[] t u e = e
concat-injective (String.◌∷◌ c s) t u e = concat-injective s t u (cc)

decimal_examples : (decimal 0 ≡ "0") × (decimal 10 ≡ "10") × (decimal 4093 ≡ "4093")
unfolding decimal
decimal_examples = (refl, refl, refl)
