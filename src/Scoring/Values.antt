-- ===== src/Scoring/Values.antt =====
-- The values that scoring reads from validation documents. Python's floats are a parameter: a type
-- with the operations that the program calls, and the laws of IEEE 754 arithmetic that it needs.
use trust_news.Prelude.{
  ℕ, String, ◌≡◌, Bool, true, false, not, Option, none, some, ◌==◌, eqb, int_of_text, if◌then◌else◌,
}
use trust_news.Prelude.Int.{ℤ, pos}

-- Python's `float` and `math`. `of_int` and `of_text` are `float(n)` and `float(s)`, where `none`
-- is an OverflowError or a ValueError; `truncate` is `int(x)`, with `none` for infinities and NaN;
-- `round12 x` is `round(x, 12)`.
pub record PyFloat : Type 1 where
  pub Float : Type 0
  pub zero : Float
  pub tenth : Float
  pub quarter : Float
  pub half : Float
  pub one : Float
  pub tie_epsilon : Float
  pub of_int : ℤ → Option Float
  pub of_text : String → Option Float
  pub truncate : Float → Option ℤ
  pub is_finite : Float → Bool
  pub eq : Float → Float → Bool
  pub lt : Float → Float → Bool
  pub le : Float → Float → Bool
  pub add : Float → Float → Float
  pub sub : Float → Float → Float
  pub mul : Float → Float → Float
  pub div : Float → Float → Float
  pub abs : Float → Float
  pub round12 : Float → Float

-- What IEEE 754 guarantees of these operations, NaN being one value.
pub record FloatLaws (P : PyFloat) : Type 0 where
  pub add_comm : (a b : P.Float) → P.add a b ≡ P.add b a
  pub abs-sub_comm : (a b : P.Float) → P.abs (P.sub a b) ≡ P.abs (P.sub b a)
  pub zero-finite : P.is_finite P.zero ≡ true
  pub zero-le-zero : P.le P.zero P.zero ≡ true
  pub eq_lt_trans : (a b c : P.Float) → P.eq a b ≡ true → P.lt b c ≡ true → P.lt a c ≡ true
  pub lt_asymm : (a b : P.Float) → P.lt a b ≡ true → P.lt b a ≡ false
  pub lt_eq_exclusive : (a b : P.Float) → P.lt a b ≡ true → P.eq b a ≡ false
  pub finite_total :
      (a b : P.Float)
      → P.is_finite a ≡ true
      → P.is_finite b ≡ true
      → P.lt a b ≡ false
      → P.eq a b ≡ false
      → P.lt b a ≡ true
  -- Equal finite numbers differ by zero, which is within 1e-9.
  pub eq_within_epsilon :
      (a b : P.Float)
      → P.is_finite a ≡ true
      → P.eq b a ≡ true
      → P.le (P.abs (P.sub a b)) P.tie_epsilon ≡ true

-- A value of a JSON or Mongo document, as far as scoring tells values apart. `member` is a member
-- of an IntEnum with its name and its number, `container` a list or dict with whether it is
-- non-empty.
pub data Raw (P : PyFloat) : Type 0 where
  null : Raw P
  bool : Bool → Raw P
  int : ℤ → Raw P
  float : P.Float → Raw P
  text : String → Raw P
  member : String → ℕ → Raw P
  container : Bool → Raw P

module _ (P : PyFloat) where
  open P use {zero, one, of_int, of_text, truncate, eq}

  -- `bool(value)`.
  unfoldable pub truthy : Raw P → Bool
  truthy null = false
  truthy (bool b) = b
  truthy (int (pos n)) = not (eqb n 0)
  truthy (int _) = true
  truthy (float x) = not (eq x zero)
  truthy (text s) = not (s == "")
  truthy (member name n) = not (eqb n 0)
  truthy (container filled) = filled

  -- Python's `a or b`.
  abbrev pub or_else : Raw P → Raw P → Raw P
  unfolding truthy
  or_else a b = if truthy a then a else b

  -- `float(value)`; `none` is a TypeError, ValueError or OverflowError.
  unfoldable pub to_float : Raw P → Option P.Float
  to_float null = none
  to_float (bool b) = some (if b then one else zero)
  to_float (int n) = of_int n
  to_float (float x) = some x
  to_float (text s) = of_text s
  to_float (member name n) = of_int (pos n)
  to_float (container filled) = none

  -- `int(value)`; `none` is any exception.
  unfoldable pub to_int : Raw P → Option ℤ
  unfolding int_of_text
  to_int null = none
  to_int (bool b) = some (pos (if b then 1 else 0))
  to_int (int n) = some n
  to_int (float x) = truncate x
  to_int (text s) = int_of_text s
  to_int (member name n) = some (pos n)
  to_int (container filled) = none
