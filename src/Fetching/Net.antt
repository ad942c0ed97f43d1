-- ===== src/Fetching/Net.antt =====
-- `_validate_fetch_url` of document_fetcher.py, and what it takes from urllib, ipaddress and the
-- resolver.
use trust_news.Prelude.{
  ℕ, String, Bool, true, false, not, ◌||◌, Option, none, some, List, [], ◌∷◌, ◌==◌, any, eqb,
  rstrip, if◌then◌else◌,
}
use trust_news.Prelude.Dict.{is_present}
use trust_news.Scoring.Consensus.{is_empty}

-- What `urlparse` makes of a URL; `hostname` is empty where it is None.
pub record ParsedUrl : Type 0 where
  pub scheme : String
  pub hostname : String
  pub username : Option String
  pub password : Option String
  pub port : Option ℕ

-- Python's libraries and the network. `parse` is `urlparse` with the port read, and `none` a
-- ValueError; `lower` is `str.lower`; `address` is `ip_address(text)` where that is one; `resolve`
-- is the answer of `getaddrinfo` at a moment, and `none` an OSError or a ValueError; `join` is
-- `urljoin`.
pub record Net : Type 1 where
  pub Address : Type 0
  pub parse : String → Option ParsedUrl
  pub lower : String → String
  pub address : String → Option Address
  pub resolve : (moment : ℕ) → String → ℕ → Option (List Address)
  pub is_global : Address → Bool
  pub join : String → String → String

pub data Reason : Type 0 where
  redirect_invalid_url : Reason
  redirect_unsafe_target : Reason
  redirect_dns_failure : Reason
  redirect_loop : Reason
  redirect_missing_location : Reason
  redirect_limit_exceeded : Reason
  redirect_https_downgrade : Reason
  document_too_large : Reason

abbrev is_port : Option ℕ → ℕ → Bool
is_port none n = true
is_port (some m) n = eqb m n

abbrev port_or : Option ℕ → ℕ → ℕ
port_or none n = n
port_or (some m) n = if eqb m 0 then n else m

abbrev default_port : String → ℕ
default_port scheme = if scheme == "https" then 443 else 80

module _ (net : Net) where
  abbrev pub is_https : Option ParsedUrl → Bool
  is_https none = false
  is_https (some p) = p.scheme == "https"

  unfoldable pub is_unsafe_url : ParsedUrl → Bool
  is_unsafe_url p =
      not (p.scheme == "http" || p.scheme == "https")
      || p.hostname == ""
      || is_present p.username
      || is_present p.password
      || not (is_port p.port (default_port p.scheme))

  abbrev addresses : ℕ → ParsedUrl → String → Option net.Address → Option (List net.Address)
  addresses moment p hostname (some a) = some (a ∷ [])
  addresses moment p hostname none =
      net.resolve moment hostname (port_or p.port (default_port p.scheme))

  unfoldable pub check_addresses : Option (List net.Address) → Option Reason
  check_addresses none = some redirect_dns_failure
  check_addresses (some found) =
      if is_empty found || any (λ a. not (net.is_global a)) found
      then some redirect_unsafe_target
      else none

  unfoldable pub check_parsed : ℕ → Option ParsedUrl → Option Reason
  unfolding is_unsafe_url check_addresses rstrip
  check_parsed moment none = some redirect_invalid_url
  check_parsed moment (some p) =
      let hostname = net.lower (rstrip b'.' p.hostname) in
      if is_unsafe_url p
      then some redirect_unsafe_target
      else check_addresses (addresses moment p hostname (net.address hostname))

  unfoldable pub validate_fetch_url : ℕ → String → Option Reason
  unfolding check_parsed
  validate_fetch_url moment url = check_parsed moment (net.parse url)
