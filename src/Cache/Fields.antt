-- ===== src/Cache/Fields.antt =====
-- Cached validators as dicts, and `merge_refreshed_validator` of news-handler/main.py. The order of
-- the keys of a dict is not kept.
use trust_news.Prelude.{
  ℕ, String, Bool, true, false, ◌&&◌, Option, none, some, List, [], ◌∷◌, ◌≡◌, refl, arith, ◌==◌,
  leb, if◌then◌else◌,
}
use trust_news.Prelude.Dict.{lookup, put, or_default, lookup-put}
use trust_news.Scoring.Values.{PyFloat, Raw, null, text, truthy}

-- A value of a validator's dict: a plain one, a dict of plain ones or a list of plain ones.
pub data Value (P : PyFloat) : Type 0 where
  plain : Raw P → Value P
  object : List (String × Raw P) → Value P
  array : List (Raw P) → Value P

abbrev pub ValidatorFields : PyFloat → Type 0
ValidatorFields P = List (String × Value P)

-- `{**a, **b}`.
unfoldable pub merge {ℓ} : {V : Type ℓ} → List (String × V) → List (String × V) → List (String × V)
unfolding put
merge a [] = a
merge a ((k, v) ∷ rest) = put k v (merge a rest)

-- The first of two values that is there.
abbrev pub first_of {ℓ} : {V : Type ℓ} → Option V → Option V → Option V
first_of none b = b
first_of (some v) b = some v

pub lookup-merge {ℓ} :
    {V : Type ℓ} (k : String) (a b : List (String × V))
    → lookup k (merge a b) ≡ first_of (lookup k b) (lookup k a)
unfolding lookup merge
lookup-merge k a [] = refl
lookup-merge k a ((j, v) ∷ rest) =
    ground (arith, lookup-put j k v (merge a rest), lookup-merge k a rest)

abbrev pub is_filled {ℓ} : {A : Type ℓ} → List A → Bool
is_filled [] = false
is_filled (x ∷ xs) = true

-- Whether the snapshot has no time, or one that is not after the event's.
unfoldable pub is_not_later : Option ℕ → Option ℕ → Bool
is_not_later none event = true
is_not_later (some refreshed) none = false
is_not_later (some refreshed) (some event) = leb refreshed event

module _ {P : PyFloat} where
  -- `bool(value)`.
  unfoldable pub is_true : Value P → Bool
  unfolding truthy
  is_true (plain r) = truthy P r
  is_true (object fields) = is_filled fields
  is_true (array items) = is_filled items

  -- Python's `a or b`.
  abbrev pub or_value : Value P → Value P → Value P
  or_value a b = if is_true a then a else b

  -- `d.get(k)`.
  abbrev pub get : String → ValidatorFields P → Value P
  get k d = or_default (lookup k d) (plain null)

  abbrev pub is_text : Value P → String → Bool
  is_text (plain (text s)) t = s == t
  is_text _ t = false

  -- `entry.get("_cache_origin") == "validator-event"`.
  abbrev pub comes_from_event : ValidatorFields P → Bool
  comes_from_event entry = is_text (get "_cache_origin" entry) "validator-event"

  module _ (from_iso : String → Option ℕ) where
    -- `parse_iso_datetime`, for values that JSON has. `from_iso` is `datetime.fromisoformat` with
    -- its time zone, as a number of microseconds; `none` is its ValueError.
    unfoldable pub parse_iso_datetime : Value P → Option ℕ
    parse_iso_datetime (plain (text s)) = if s == "" then none else from_iso s
    parse_iso_datetime _ = none

    unfoldable pub event_is_newer : ValidatorFields P → ValidatorFields P → Bool
    unfolding parse_iso_datetime is_not_later lookup
    event_is_newer previous refreshed =
        comes_from_event previous
        && is_not_later (parse_iso_datetime (get "updated_at" refreshed))
            (parse_iso_datetime (get "updated_at" previous))

    unfoldable pub merge_refreshed_validator :
        ValidatorFields P → ValidatorFields P → ValidatorFields P
    unfolding event_is_newer merge put lookup is_true
    merge_refreshed_validator previous refreshed =
        if event_is_newer previous refreshed
        then merge refreshed previous
        else put "metrics_reset_at"
            (or_value (get "metrics_reset_at" refreshed) (get "metrics_reset_at" previous))
            (merge previous refreshed)
