-- ===== src/Fetching/Safety.antt =====
-- Which URLs a fetch requests.
use trust_news.Prelude.{
  ℕ, zero, suc, ◌+◌, ◌≤◌, String, ◌≡◌, refl, Bool, true, false, not, Option, none, some, List, [],
  ◌∷◌, arith, length, All, Bool-cases, inl, inr, if-both,
}
use trust_news.Prelude.Dict.{is_member}
use trust_news.Fetching.Net.{Net, Reason, is_https, validate_fetch_url}
use trust_news.Fetching.Body.{Wire, Read, response, too_large, is_redirect, bounded_get}
use trust_news.Fetching.Redirects.{
  Attempt, Trace, Result, Step, done, go_on, stop, visit, redirected, max_redirects, last, resume,
  target_step, refuse_target, redirect_step, read_step, checked_step, round, follow,
  get_following_validated_redirects,
}

module _ (net : Net) (max_document_bytes : ℕ) (get : ℕ → String → Wire) where
  -- A requested URL: at some moment its check found nothing against it.
  pub record IsChecked (url : String) : Type 0 where
    pub moment : ℕ
    pub accepted : validate_fetch_url net moment url ≡ none

  abbrev pub is_https_url : String → Bool
  is_https_url url = is_https net (net.parse url)

  abbrev pub HasNoRepeats : List String → Type 0
  HasNoRepeats [] = Unit
  HasNoRepeats (u ∷ rest) = (is_member u rest ≡ false) × HasNoRepeats rest

  -- What is true of the URLs requested so far, `secure` saying that the first one is https.
  pub record IsSafe (secure : Bool) (visited : List String) : Type 0 where
    pub checked : All IsChecked visited
    pub distinct : HasNoRepeats visited
    pub encrypted : secure ≡ true → All (λ u. is_https_url u ≡ true) visited

  -- A step requests one URL more at most; it goes on only to a target that is https if the first
  -- URL is.
  abbrev IsSafeStep : Bool → ℕ → Step → Type 0
  IsSafeStep secure n (done r) = IsSafe secure r.1.visited × (length r.1.visited ≤ suc n)
  IsSafeStep secure n (go_on target t) =
      IsSafe secure t.visited
      × (length t.visited ≡ suc n)
      × (secure ≡ true → is_https_url target ≡ true)

  refuse_target-https :
      (m : ℕ) (current target : String)
      → refuse_target net max_document_bytes get m current target ≡ none
      → is_https_url current ≡ true
      → is_https_url target ≡ true
  unfolding refuse_target
  refuse_target-https m current target e h = ground arith

  target-IsSafeStep :
      (secure : Bool) (n m : ℕ) (current : String) (status : ℕ) (target : String) (t : Trace)
      (o : Option Reason)
      → IsSafe secure t.visited
      → length t.visited ≡ suc n
      → (secure ≡ true → is_https_url current ≡ true)
      → refuse_target net max_document_bytes get m current target ≡ o
      → IsSafeStep secure n (target_step current status target o t)
  unfolding target_step stop redirected
  target-IsSafeStep secure n m current status target t (some reason) safe size https e =
      (safe, omega (arith, size))
  target-IsSafeStep secure n m current status target t none safe size https e =
      (safe, size, λ h. refuse_target-https m current target e (https h))

  redirect-IsSafeStep :
      (secure may : Bool) (n m : ℕ) (current : String) (status : ℕ) (target : Option String)
      (t : Trace)
      → IsSafe secure t.visited
      → length t.visited ≡ suc n
      → (secure ≡ true → is_https_url current ≡ true)
      → IsSafeStep secure n (redirect_step net max_document_bytes get may m current status target t)
  unfolding redirect_step stop
  redirect-IsSafeStep secure may n m current status none t safe size https =
      (safe, omega (arith, size))
  redirect-IsSafeStep secure may n m current status (some target) t safe size https =
      if-both (IsSafeStep secure n) (not may) (safe, omega (arith, size))
        (target-IsSafeStep secure n m current status target t _ safe size https refl)

  read-IsSafeStep :
      (secure may : Bool) (n m : ℕ) (current : String) (read : Read) (t : Trace)
      → IsSafe secure t.visited
      → length t.visited ≡ suc n
      → (secure ≡ true → is_https_url current ≡ true)
      → IsSafeStep secure n (read_step net max_document_bytes get may m current read t)
  unfolding read_step stop
  read-IsSafeStep secure may n m current (too_large status) t safe size https =
      (safe, omega (arith, size))
  read-IsSafeStep secure may n m current (response r) t safe size https =
      if-both (IsSafeStep secure n) (not (is_redirect r.status_code)) (safe, omega (arith, size))
        (redirect-IsSafeStep secure may n (m + 1) current r.status_code _ t safe size https)

  checked-IsSafeStep :
      (secure may : Bool) (n m : ℕ) (current : String) (o : Option Reason) (t : Trace)
      → validate_fetch_url net m current ≡ o
      → IsSafe secure t.visited
      → length t.visited ≡ n
      → (secure ≡ true → is_https_url current ≡ true)
      → IsSafeStep secure n (checked_step net max_document_bytes get may m current o t)
  unfolding checked_step stop visit
  checked-IsSafeStep secure may n m current (some reason) t e safe size https =
      (safe, omega (arith, size))
  checked-IsSafeStep secure may n m current none t e safe size https =
      elim (Bool-cases (is_member current t.visited)) [
        | inl again ↦ rw again (safe, omega (arith, size))
        | inr new ↦ rw new (
            read-IsSafeStep secure may n m current (bounded_get max_document_bytes (get m current))
              (visit current t)
              (record {
                checked = (record { moment = m; accepted = e }, safe.checked);
                distinct = (new, safe.distinct);
                encrypted = λ h. (https h, safe.encrypted h);
              })
              (omega (arith, size)) https)
      ]

  last-IsSafe :
      (secure : Bool) (n : ℕ) (step : Step)
      → IsSafeStep secure n step
      → let t = (last net max_document_bytes get step).1 in
        IsSafe secure t.visited × (length t.visited ≤ suc n)
  last-IsSafe secure n (done r) h = h
  last-IsSafe secure n (go_on target t) h = (h.0, omega (arith, h.1))

  -- The final trace of a loop that has requested `n` URLs, with so many redirects left.
  abbrev IsSafeEnd : Bool → ℕ → ℕ → Result × Trace → Type 0
  IsSafeEnd secure left n r = IsSafe secure r.1.visited × (length r.1.visited ≤ suc n + left)

  resume-IsSafe :
      (secure : Bool) (left n : ℕ) (next : String → Trace → Result × Trace)
      → ((target : String) (t : Trace)
          → IsSafe secure t.visited
          → length t.visited ≡ suc n
          → (secure ≡ true → is_https_url target ≡ true)
          → IsSafeEnd secure left (suc n) (next target t))
      → (step : Step) → IsSafeStep secure n step
      → IsSafeEnd secure (suc left) n (resume next step)
  resume-IsSafe secure left n next ih (done r) h = (h.0, omega (arith, h.1))
  resume-IsSafe secure left n next ih (go_on target t) h =
      let (fine, few) = ih target t h.0 h.1 h.2 in (fine, omega (arith, few))

  follow-IsSafe :
      (secure : Bool) (left n m : ℕ) (current : String) (t : Trace)
      → IsSafe secure t.visited
      → length t.visited ≡ n
      → (secure ≡ true → is_https_url current ≡ true)
      → IsSafeEnd secure left n (follow net max_document_bytes get left m current t)
  unfolding follow round
  follow-IsSafe secure zero n m current t safe size https =
      let (fine, few) = last-IsSafe secure n (round net max_document_bytes get false m current t) (
        checked-IsSafeStep secure false n m current (validate_fetch_url net m current) t refl safe
          size https) in
      (fine, omega (arith, few))
  follow-IsSafe secure (suc left) n m current t safe size https =
      resume-IsSafe secure left n
        (λ target t'. follow net max_document_bytes get left (m + 2) target t')
        (λ target t' safe' size' https'.
          follow-IsSafe secure left (suc n) (m + 2) target t' safe' size' https')
        (round net max_document_bytes get true m current t)
        (checked-IsSafeStep secure true n m current (validate_fetch_url net m current) t refl safe
          size https)

  -- Every URL that a fetch requests was accepted by the check of URLs at some moment of the fetch;
  -- no URL is requested twice, and at most MAX_REDIRECTS + 1 are requested; and if the first URL is
  -- https, so are all.
  pub fetch_requests_checked_urls :
      (url : String) (attempted_urls : List String) (attempts : List Attempt)
      → let t =
          (get_following_validated_redirects net max_document_bytes get url attempted_urls
            attempts).1 in
        IsSafe (is_https_url url) t.visited × (length t.visited ≤ suc max_redirects)
  unfolding get_following_validated_redirects
  fetch_requests_checked_urls url attempted_urls attempts =
      follow-IsSafe (is_https_url url) max_redirects 0 0 url
        (record { visited = []; attempted_urls = attempted_urls; attempts = attempts })
        (record { checked = tt; distinct = tt; encrypted = λ h. tt }) refl (λ h. h)
