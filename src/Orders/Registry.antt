-- ===== src/Orders/Registry.antt =====
-- The validators that news-handler knows: common/utils/validator_registry.py, and the lookups and
-- health checks of news-handler/main.py.
use trust_news.Prelude.{
  String, Bool, true, false, not, ◌&&◌, ◌||◌, Option, none, some, List, [], ◌∷◌, ◌==◌, eqb, keep,
  any, lower_is, same_lower, rstrip, concat, if◌then◌else◌,
}
use trust_news.Prelude.Int.{ℤ, pos, negsuc}
use trust_news.Scoring.Values.{PyFloat, Raw, null, bool, int, float, text, member, to_int, or_else}
use trust_news.Scoring.Weights.{
  ValidatorType, llm_memory_validation, llm_search_validation, rag_evidence_validation, Config,
  parsed_number, stated_type,
}

-- A category of a validator: a dict with a numeric id, which is -1 where it is absent, or a value.
pub data Category (P : PyFloat) : Type 0 where
  entry : ℤ → Category P
  plain : Raw P → Category P

-- A cached validator. `scoring` is what scoring reads of it, and a text that is absent is empty;
-- the addresses in `own` are the validator's, those in `config` its configuration's.
pub record Addresses : Type 0 where
  pub healthcheck_url : String
  pub health_url : String
  pub service_url : String
  pub validator_service_url : String

pub record Cached (P : PyFloat) : Type 0 where
  pub validator : String
  pub scoring : Config P
  pub status : Raw P
  pub categories : List (Category P)
  pub own : Addresses
  pub config : Addresses

-- `validators_cache`, from the lower case of a validator to its entry.
abbrev pub Cache : PyFloat → Type 0
Cache P = List (String × Cached P)

abbrev text_or : String → String → String
text_or s t = if s == "" then t else s

abbrev equal_ℤ : ℤ → ℤ → Bool
equal_ℤ (pos m) (pos n) = eqb m n
equal_ℤ (negsuc m) (negsuc n) = eqb m n
equal_ℤ _ _ = false

abbrev is_number : Option ℤ → ℤ → Bool
is_number none n = false
is_number (some m) n = equal_ℤ m n

-- Membership in AUTOMATIC_VALIDATOR_TYPES; a type that is no ValidatorType counts.
abbrev is_automatic : Option ValidatorType → Bool
is_automatic none = true
is_automatic (some llm_memory_validation) = true
is_automatic (some llm_search_validation) = true
is_automatic (some rag_evidence_validation) = true
is_automatic (some _) = false

abbrev checked : (String → Bool) → Option String → Bool
checked is_healthy none = false
checked is_healthy (some url) = is_healthy url

unfoldable pub known_health : String → List (String × Bool) → Option Bool
unfolding same_lower
known_health validator [] = none
known_health validator ((k, b) ∷ rest) =
    if same_lower k validator then some b else known_health validator rest

module _ {P : PyFloat} where
  -- `status in (None, 1, "1", "Registered", "registered")`.
  abbrev is_registered : Raw P → Bool
  is_registered null = true
  is_registered (bool b) = b
  is_registered (int n) = equal_ℤ n (pos 1)
  is_registered (float x) = P.eq x P.one
  is_registered (text s) = s == "1" || s == "Registered" || s == "registered"
  is_registered (member name n) = eqb n 1
  is_registered _ = false

  unfoldable pub is_validator_active : Cached P → Bool
  is_validator_active v = is_registered v.status

  abbrev is_category : ℤ → Category P → Bool
  is_category n (entry m) = equal_ℤ m n
  is_category n (plain r) = is_number (to_int P r) n

  unfoldable pub validator_supports_category : Cached P → ℤ → Bool
  unfolding to_int
  validator_supports_category v category_id = any (is_category category_id) v.categories

  unfoldable pub is_automatic_validator_config : Cached P → Bool
  unfolding stated_type parsed_number to_int
  is_automatic_validator_config v =
      is_automatic
        (parsed_number P (to_int P (or_else P (stated_type P (some v.scoring)) (int (pos 1)))))

  unfoldable pub light_validators_for_category : List (Cached P) → ℤ → List (Cached P)
  unfolding is_validator_active is_automatic_validator_config validator_supports_category
  light_validators_for_category validators category_id =
      keep
        (λ v.
          not (v.validator == "")
          && is_validator_active v
          && is_automatic_validator_config v
          && validator_supports_category v category_id)
        validators

  unfoldable pub cached_entry : String → Cache P → Option (Cached P)
  unfolding lower_is
  cached_entry validator [] = none
  cached_entry validator ((k, v) ∷ rest) =
      if lower_is validator k then some v else cached_entry validator rest

  abbrev config_of_entry : Option (Cached P) → Option (Config P)
  config_of_entry none = none
  config_of_entry (some v) = some v.scoring

  unfoldable pub get_cached_validator_config : Cache P → String → Option (Config P)
  unfolding cached_entry
  get_cached_validator_config cache validator =
      if validator == "" then none else config_of_entry (cached_entry validator cache)

  unfoldable pub validator_healthcheck_url : Cached P → Option String
  unfolding rstrip concat
  validator_healthcheck_url v =
      let explicit_health_url =
        text_or v.own.healthcheck_url
          (text_or v.own.health_url (text_or v.config.healthcheck_url v.config.health_url)) in
      let service_url = text_or v.own.service_url (
        text_or v.own.validator_service_url
          (text_or v.config.service_url v.config.validator_service_url)) in
      if not (explicit_health_url == "")
      then some explicit_health_url
      else if service_url == ""
      then none
      else some (concat (rstrip b'/' service_url) "/health")

  -- The answer, and the health cache with it.
  unfoldable pub light_validator_is_healthy :
      (String → Bool) → Cached P → List (String × Bool) → Bool × List (String × Bool)
  unfolding known_health validator_healthcheck_url
  light_validator_is_healthy is_healthy v health_cache =
      elim (known_health v.validator health_cache) [
        | some b ↦ (b, health_cache)
        | none ↦
            let b = checked is_healthy (validator_healthcheck_url v) in
            (b, (v.validator, b) ∷ health_cache)
      ]
