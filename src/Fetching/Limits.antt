-- ===== src/Fetching/Limits.antt =====
-- How much of a response is kept.
use mathlib.Core.List.{append_assoc, append-nil}
use trust_news.Prelude.{
  ℕ, ◌+◌, ◌≤◌, ◌≡◌, ◌⊎◌, refl, sym, ◌∙◌, ap, subst, Bool, true, false, not, ◌&&◌, ◌||◌, Option,
  none, some, List, [], ◌∷◌, ◌++◌, arith, length, length-append, leb, inl, inr, if◌then◌else◌,
}
use trust_news.Fetching.Body.{
  joined, whole_response, exceeds, with_body, part_limit, Bytes, Wire, Response, response,
  too_large, pdf_max_bytes, is_redirect, is_unknown_format, is_pdf_start, read_parts, byte_limit_of,
  bounded_get,
}

abbrev pub starts_pdf : List Bytes → Bool
starts_pdf [] = false
starts_pdf (part ∷ rest) = is_pdf_start part

part_limit-later : (u : Bool) (limit : ℕ) (part : Bytes) → part_limit u limit false part ≡ limit
part_limit-later true limit part = refl
part_limit-later false limit part = refl

-- A part that was kept fits the limit, and the loop goes on with it.
read_parts-part :
    (u first : Bool) (limit : ℕ) (b part : Bytes) (rest : List Bytes) (body : Bytes)
    → read_parts u limit first b (part ∷ rest) ≡ some body
    → let l = part_limit u limit first part in
      (length b + length part ≤ l) × (read_parts u l false (b ++ part) rest ≡ some body)
unfolding read_parts
read_parts-part u first limit b part rest body e = ground arith

-- After the first part: the body is all that was sent, within the limit.
read_parts-rest :
    (u : Bool) (limit : ℕ) (b : Bytes) (parts : List Bytes) (body : Bytes)
    → read_parts u limit false b parts ≡ some body
    → length b ≤ limit
    → (body ≡ b ++ joined parts) × (length body ≤ limit)
unfolding read_parts
read_parts-rest u limit b [] body e h =
    let same : b ≡ body = cc in
    (sym same ∙ sym (append-nil b), subst (λ x. length x ≤ limit) same h)
read_parts-rest u limit b (part ∷ rest) body e h =
    let (fits, next) = read_parts-part u false limit b part rest body e in
    let l = part_limit-later u limit part in
    let size = length-append b part in
    let (all, few) =
      read_parts-rest u limit (b ++ part) rest body
        (subst (λ n. read_parts u n false (b ++ part) rest ≡ some body) l next)
        (omega (arith, fits, l, size)) in
    (all ∙ append_assoc b part (joined rest), few)

abbrev pub limit_for : Bool → ℕ → List Bytes → ℕ
limit_for u limit parts = if u && starts_pdf parts then pdf_max_bytes else limit

limit-first :
    (u : Bool) (limit : ℕ) (part : Bytes) (rest : List Bytes)
    → part_limit u limit true part ≡ limit_for u limit (part ∷ rest)
limit-first true limit part rest = refl
limit-first false limit part rest = refl

read_parts-all :
    (u : Bool) (limit : ℕ) (parts : List Bytes) (body : Bytes)
    → read_parts u limit true [] parts ≡ some body
    → (body ≡ joined parts) × (length body ≤ limit_for u limit parts)
unfolding read_parts
read_parts-all u limit [] body e =
    let same : [] ≡ body = cc in
    (sym same, subst (λ x. length x ≤ limit_for u limit []) same (omega arith))
read_parts-all u limit (part ∷ rest) body e =
    let (fits, next) = read_parts-part u true limit [] part rest body e in
    let (all, few) =
      read_parts-rest u (part_limit u limit true part) part rest body next (omega (arith, fits)) in
    (all, subst (λ n. length body ≤ n) (limit-first u limit part rest) few)

-- What a response that a client without streaming got holds, all of the body, and what one that was
-- read in parts does: nothing after a redirect or an error status, and else all
-- that the server sent, within the limit of its type, which is that of a PDF for an untyped body
-- that starts as one.
pub data IsComplete (max_document_bytes : ℕ) (w : Wire) (body : Bytes) : Type 0 where
  unbounded : w.is_streamed ≡ false → body ≡ joined w.parts → IsComplete max_document_bytes w body
  skipped :
      w.is_streamed ≡ true
      → (is_redirect w.status_code || leb 400 w.status_code) ≡ true
      → body ≡ []
      → IsComplete max_document_bytes w body
  whole :
      w.is_streamed ≡ true
      → body ≡ joined w.parts
      → length body
        ≤ limit_for (is_unknown_format w.content_type) (byte_limit_of max_document_bytes w) w.parts
      → IsComplete max_document_bytes w body

with_body-some :
    (w : Wire) (o : Option Bytes) (r : Response)
    → with_body w o ≡ response r
    → (o ≡ some r.body) × (r.status_code ≡ w.status_code)
with_body-some w none r e = absurd cc
with_body-some w (some body) r e =
    let q : record { status_code = w.status_code; location = w.location; body = body } ≡ r = cc in
    (ap (λ x. some x.body) q, sym (ap (λ x. x.status_code) q))

-- The four ways through `bounded_get`.
by_case :
    (w : Wire) (r : Response) (a b c : Bool) (o : Option Bytes)
    → (if not a
        then response (whole_response w)
        else if b
        then with_body w (some [])
        else if c
        then too_large w.status_code
        else with_body w o)
      ≡ response r
    → ((a ≡ false) × (whole_response w ≡ r))
      ⊎ (((a ≡ true) × (b ≡ true) × (with_body w (some []) ≡ response r))
          ⊎ ((a ≡ true) × (with_body w o ≡ response r)))
by_case w r false b c o e = inl (refl, cc)
by_case w r true true c o e = inr (inl (refl, refl, e))
by_case w r true false true o e = absurd cc
by_case w r true false false o e = inr (inr (refl, e))

-- A response that is kept has the server's status, and a body that is complete: within its limit if
-- the client streams, and else however long it is.
pub body_is_complete :
    (max_document_bytes : ℕ) (w : Wire) (r : Response)
    → bounded_get max_document_bytes w ≡ response r
    → (r.status_code ≡ w.status_code) × IsComplete max_document_bytes w r.body
unfolding bounded_get
body_is_complete max_document_bytes w r e =
    let u = is_unknown_format w.content_type in
    let limit = byte_limit_of max_document_bytes w in
    let b = is_redirect w.status_code || leb 400 w.status_code in
    elim (by_case w r w.is_streamed b (not u && exceeds w.declared_length limit)
      (read_parts u limit true [] w.parts) e) [
        | inl (plain, kept) ↦
            (sym (ap (λ x. x.status_code) kept), unbounded plain (sym (ap (λ x. x.body) kept)))
        | inr (inl (streamed, s, kept)) ↦
            let (body, status) = with_body-some w (some []) r kept in
            let none_left : [] ≡ r.body = cc in (status, skipped streamed s (sym none_left))
        | inr (inr (streamed, kept)) ↦
            let (body, status) = with_body-some w (read_parts u limit true [] w.parts) r kept in
            let (all, few) = read_parts-all u limit w.parts r.body body in
            (status, whole streamed all few)
      ]
