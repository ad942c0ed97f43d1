-- ===== src/Scoring/Fixed.antt =====
-- A number system that meets the laws of `FloatLaws`: fixed point, in units of 10^-12.
use mathlib.Core.Option
use trust_news.Prelude.{ℕ, ◌+◌, ◌-◌, ◌*◌, ◌/◌, ◌≡◌, refl, true, ◌&&◌, some, arith, int_of_text}
use trust_news.Prelude.Int.{ℤ, pos, negsuc, ◌+ℤ◌, ◌-ℤ◌, leb_ℤ, ltb_ℤ, +ℤ_comm}
use trust_news.Scoring.Values.{PyFloat, FloatLaws}

abbrev pub scale : ℕ
scale = 1_000_000_000_000

abbrev pub scaled : ℤ → ℤ
scaled (pos n) = pos (n * scale)
scaled (negsuc n) = negsuc ((n + 1) * scale - 1)

abbrev pub whole : ℤ → ℤ
whole (pos n) = pos (n / scale)
whole (negsuc n) = pos 0 -ℤ pos ((n + 1) / scale)

-- Products and quotients of weights; of other numbers the example needs none.
abbrev pub times : ℤ → ℤ → ℤ
times (pos a) (pos b) = pos (a * b / scale)
times _ _ = pos 0

abbrev pub over : ℤ → ℤ → ℤ
over (pos a) (pos b) = pos (a * scale / b)
over _ _ = pos 0

abbrev pub magnitude : ℤ → ℤ
magnitude (pos n) = pos n
magnitude (negsuc n) = pos (n + 1)

abbrev pub fixed : PyFloat
fixed = record {
  Float = ℤ;
  zero = pos 0;
  tenth = pos 100_000_000_000;
  quarter = pos 250_000_000_000;
  half = pos 500_000_000_000;
  one = pos 1_000_000_000_000;
  tie_epsilon = pos 1_000;
  of_int = λ n. some (scaled n);
  of_text = λ s. Option.map scaled (int_of_text s);
  truncate = λ x. some (whole x);
  is_finite = λ x. true;
  eq = λ a b. leb_ℤ a b && leb_ℤ b a;
  lt = ltb_ℤ;
  le = leb_ℤ;
  add = ◌+ℤ◌;
  sub = ◌-ℤ◌;
  mul = times;
  div = over;
  abs = magnitude;
  round12 = λ x. x;
}

magnitude-sub_comm : (a b : ℤ) → magnitude (a -ℤ b) ≡ magnitude (b -ℤ a)
unfolding ◌-ℤ◌
magnitude-sub_comm a b = ground arith

pub fixed-laws : FloatLaws fixed
unfolding ◌-ℤ◌
fixed-laws = record {
  add_comm = +ℤ_comm;
  abs-sub_comm = magnitude-sub_comm;
  zero-finite = refl;
  zero-le-zero = refl;
  eq_lt_trans = λ a b c h k. ground arith;
  lt_asymm = λ a b h. ground arith;
  lt_eq_exclusive = λ a b h. ground arith;
  finite_total = λ a b fa fb h k. ground arith;
  eq_within_epsilon = λ a b f h. ground arith;
}
