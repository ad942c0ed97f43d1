-- ===== src/Prelude/Dict.antt =====
-- A dict from strings as an association list, and a set of strings as a list.
use Prim.Native.String.{String}
use mathlib.Core.Path.{◌≡◌, refl}
use mathlib.Core.Logic.{inl, inr}
use mathlib.Core.Bool.{Bool, true, false, not}
use mathlib.Core.Option.{Option, none, some}
use mathlib.Core.List.{List, [], ◌∷◌, map}
use native.Mathlib.Omega.{arith}
use text.Mathlib.Text.{◌==◌}
use text.Mathlib.TextEquality.{eq_iff}
use trust_news.Prelude.Tests.{if◌then◌else◌, Bool-cases}
use trust_news.Prelude.Lists.{keep}

module _ {ℓ} {V : Type ℓ} where
  unfoldable pub lookup : String → List (String × V) → Option V
  lookup k [] = none
  lookup k ((j, v) ∷ rest) = if j == k then some v else lookup k rest

  -- `dict[k] = v`: a key that is there keeps its place.
  unfoldable pub put : String → V → List (String × V) → List (String × V)
  put k v [] = (k, v) ∷ []
  put k v ((j, u) ∷ rest) =
      let rest' = put k v rest in if j == k then (k, v) ∷ rest else (j, u) ∷ rest'

  abbrev pub keys : List (String × V) → List String
  keys = map (λ x. x.0)

  pub lookup-put :
      (k j : String) (v : V) (d : List (String × V))
      → lookup j (put k v d) ≡ (if k == j then some v else lookup j d)
  unfolding lookup put
  lookup-put k j v [] = refl
  lookup-put k j v ((i, u) ∷ rest) =
      ground (arith, lookup-put k j v rest, eq_iff i k, eq_iff i j, eq_iff k j)

abbrev pub or_default {ℓ} : {A : Type ℓ} → Option A → A → A
or_default none a = a
or_default (some b) a = b

abbrev pub is_present {ℓ} : {A : Type ℓ} → Option A → Bool
is_present none = false
is_present (some a) = true

unfoldable pub is_member : String → List String → Bool
is_member k [] = false
is_member k (j ∷ rest) = if j == k then true else is_member k rest

-- `set(list)`, listed without repetition.
unfoldable pub distinct : List String → List String
unfolding is_member
distinct [] = []
distinct (k ∷ rest) = let rest' = distinct rest in if is_member k rest' then rest' else k ∷ rest'

-- `expected - done`.
unfoldable pub difference : List String → List String → List String
unfolding is_member
difference expected done = keep (λ k. not (is_member k done)) expected

pub is_member-keys {ℓ} :
    {V : Type ℓ} (k : String) (d : List (String × V))
    → is_member k (keys d) ≡ is_present (lookup k d)
unfolding is_member lookup
is_member-keys k [] = refl
is_member-keys k ((j, v) ∷ rest) = ground (arith, is_member-keys k rest)

pub is_member-distinct :
    (u : String) (xs : List String) → is_member u (distinct xs) ≡ is_member u xs
unfolding is_member distinct
is_member-distinct u [] = refl
is_member-distinct u (x ∷ xs) = ground (arith, is_member-distinct u xs, eq_iff x u)

module _ {ℓ} {V : Type ℓ} where
  -- No key stands twice.
  abbrev pub IsDict : List (String × V) → Type ℓ
  IsDict [] = Unit
  IsDict ((j, u) ∷ rest) = (lookup j rest ≡ none) × IsDict rest

  pub put-IsDict : (k : String) (v : V) (d : List (String × V)) → IsDict d → IsDict (put k v d)
  unfolding put lookup
  put-IsDict k v [] h = (refl, tt)
  put-IsDict k v ((j, u) ∷ rest) (absent, h) = elim (Bool-cases (j == k)) [
    | inl e ↦ rw e (ground (arith, absent, eq_iff j k), h)
    | inr e ↦ rw e (
      ground (arith, lookup-put k j v rest, absent, eq_iff k j, eq_iff j k),
      put-IsDict k v rest h,
    )
  ]
