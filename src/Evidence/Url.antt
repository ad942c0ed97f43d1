-- ===== src/Evidence/Url.antt =====
-- `is_http_url` and `sanitize_evidence_item` of evidence.py: only web links stay navigable.
use trust_news.Prelude.{
  ℕ, String, ◌≡◌, ◌⊎◌, inl, inr, Bool, true, false, not, ◌&&◌, ◌||◌, Option, none, some, arith, any,
  codes, is_space, strip, lower_is, ltb, eqb, ◌==◌, eq_iff, Bool-cases, if◌then◌else◌,
}

-- `urlparse(value)`: the scheme, and whether there is a non-empty hostname; `none` is a
-- ValueError. `accepts` is pydantic's `HttpUrl`, a third-party validator.
pub record UrlParser : Type 0 where
  pub scheme : String → Option String
  pub has_hostname : String → Bool
  pub accepts : String → Bool

-- A link of an evidence item: a missing key, a null, a text, or a value of another type.
pub data Link : Type 0 where
  missing : Link
  null : Link
  text : String → Link
  other : Link

pub record Links : Type 0 where
  pub url : Link
  pub url_text : Option String
  pub source_url : Link
  pub source_url_text : Option String

-- `char.isspace() or ord(char) < 32 or ord(char) == 127 or char == "\\"`.
unfoldable pub is_forbidden : ℕ → Bool
unfolding is_space
is_forbidden c = is_space c || ltb c 32 || eqb c 127 || eqb c 92

module _ (parser : UrlParser) where
  abbrev is_http_scheme : Option String → Bool
  is_http_scheme none = false
  is_http_scheme (some s) = lower_is s "http" || lower_is s "https"

  unfoldable pub is_http_text : String → Bool
  unfolding strip is_forbidden lower_is
  is_http_text value =
      let v = strip value in
      not (any is_forbidden (codes v))
      && (is_http_scheme (parser.scheme v) && parser.has_hostname v)
      && parser.accepts v

  unfoldable pub is_http_url : Link → Bool
  unfolding is_http_text
  is_http_url (text s) = is_http_text s
  is_http_url _ = false

  -- `key in item and item[key] not in (None, "") and not is_http_url(item[key])`.
  unfoldable pub must_go : Link → Bool
  unfolding is_http_url
  must_go missing = false
  must_go null = false
  must_go (text s) = not (s == "") && not (is_http_text s)
  must_go other = true

  abbrev kept_text : Link → Option String → Option String
  kept_text (text s) old = some s
  kept_text _ old = old

  unfoldable pub sanitize_evidence_item : Links → Links
  unfolding must_go
  sanitize_evidence_item item = record {
    url = if must_go item.url then missing else item.url;
    url_text = if must_go item.url then kept_text item.url item.url_text else item.url_text;
    source_url = if must_go item.source_url then missing else item.source_url;
    source_url_text =
        if must_go item.source_url
        then kept_text item.source_url item.source_url_text
        else item.source_url_text;
  }

  -- A link that a reader can follow is a web link, or there is nothing to follow.
  abbrev pub IsSafeLink : Link → Type 0
  IsSafeLink missing = Unit
  IsSafeLink null = Unit
  IsSafeLink (text s) = (s ≡ "") ⊎ (is_http_url (text s) ≡ true)
  IsSafeLink other = ⊥

  kept-IsSafeLink : (l : Link) → IsSafeLink (if must_go l then missing else l)
  unfolding must_go
  kept-IsSafeLink missing = tt
  kept-IsSafeLink null = tt
  kept-IsSafeLink other = tt
  kept-IsSafeLink (text s) = elim (Bool-cases (s == "")) [
    | inl e ↦ rw e (inl ((eq_iff s "").0 e))
    | inr e ↦ rw e (elim (Bool-cases (is_http_text s)) [ inl h ↦ rw h (inr h) | inr h ↦ rw h tt ])
  ]

  -- After cleaning, both links are safe, and cleaning again changes nothing.
  pub sanitize_is_safe :
      (item : Links)
      → let clean = sanitize_evidence_item item in
        IsSafeLink clean.url × IsSafeLink clean.source_url × (sanitize_evidence_item clean ≡ clean)
  unfolding sanitize_evidence_item
  sanitize_is_safe item = (kept-IsSafeLink item.url, kept-IsSafeLink item.source_url, ground arith)
