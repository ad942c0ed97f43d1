-- ===== src/Fetching/Body.antt =====
-- `_bounded_get` of document_fetcher.py: a response read under a byte budget.
use trust_news.Prelude.{
  ℕ, ◌+◌, ◌*◌, String, Bool, true, false, not, ◌&&◌, ◌||◌, Option, none, some, List, [], ◌∷◌, ◌++◌,
  ◌==◌, length, ltb, leb, eqb, if◌then◌else◌,
}

abbrev pub Bytes : Type 0
Bytes = List ℕ

-- A streamed response: its content type, without parameters and in lower case, the decimal value of
-- its Content-Length if it has one, and the parts of its body after decoding.
pub record Wire : Type 0 where
  pub status_code : ℕ
  pub content_type : String
  pub declared_length : Option ℕ
  pub location : Option String
  pub parts : List Bytes
  pub is_streamed : Bool

pub record Response : Type 0 where
  pub status_code : ℕ
  pub location : Option String
  pub body : Bytes

pub data Read : Type 0 where
  response : Response → Read
  too_large : (status_code : ℕ) → Read

abbrev pub pdf_max_bytes : ℕ
pdf_max_bytes = 15 * 1024 * 1024

abbrev pub is_redirect : ℕ → Bool
is_redirect s = eqb s 301 || eqb s 302 || eqb s 303 || eqb s 307 || eqb s 308

abbrev pub is_pdf_type : String → Bool
is_pdf_type t = t == "application/pdf" || t == "application/x-pdf"

abbrev pub is_unknown_format : String → Bool
is_unknown_format t = t == "" || t == "application/octet-stream"

-- `bytes.isspace` for one byte.
abbrev is_byte_space : ℕ → Bool
is_byte_space b = eqb b 32 || leb 9 b && leb b 13

abbrev starts_with : Bytes → Bytes → Bool
starts_with [] bs = true
starts_with (p ∷ ps) [] = false
starts_with (p ∷ ps) (b ∷ bs) = eqb p b && starts_with ps bs

unfoldable pub lstrip : Bytes → Bytes
lstrip [] = []
lstrip (b ∷ bs) = if is_byte_space b then lstrip bs else b ∷ bs

-- `part.lstrip().startswith(b"%PDF-")`.
unfoldable pub is_pdf_start : Bytes → Bool
unfolding lstrip
is_pdf_start part = starts_with (37 ∷ 80 ∷ 68 ∷ 70 ∷ 45 ∷ []) (lstrip part)

-- The limit from a part on: an untyped body that starts as a PDF gets the budget of one.
abbrev pub part_limit : Bool → ℕ → Bool → Bytes → ℕ
part_limit unknown_format byte_limit first part =
    if unknown_format && first && is_pdf_start part then pdf_max_bytes else byte_limit

-- The loop over the parts, with the limit, the body so far and whether a part was kept; `none`
-- where the budget is exceeded.
unfoldable pub read_parts :
    (unknown_format : Bool) → (byte_limit : ℕ) → (first : Bool) → Bytes → List Bytes → Option Bytes
unfolding is_pdf_start
read_parts unknown_format byte_limit first body [] = some body
read_parts unknown_format byte_limit first body (part ∷ rest) =
    let limit = part_limit unknown_format byte_limit first part in
    let next = read_parts unknown_format limit false (body ++ part) rest in
    if ltb limit (length body + length part) then none else next

abbrev pub exceeds : Option ℕ → ℕ → Bool
exceeds none limit = false
exceeds (some n) limit = ltb limit n

abbrev pub with_body : Wire → Option Bytes → Read
with_body w none = too_large w.status_code
with_body w (some body) =
    response (record { status_code = w.status_code; location = w.location; body = body })

abbrev pub joined : List Bytes → Bytes
joined [] = []
joined (part ∷ rest) = part ++ joined rest

-- `client.get`: the whole body, however long.
abbrev pub whole_response : Wire → Response
whole_response w = record {
  status_code = w.status_code;
  location = w.location;
  body = joined w.parts;
}

module _ (max_document_bytes : ℕ) where
  abbrev pub byte_limit_of : Wire → ℕ
  byte_limit_of w = if is_pdf_type w.content_type then pdf_max_bytes else max_document_bytes

  unfoldable pub bounded_get : Wire → Read
  unfolding read_parts
  bounded_get w =
      if not w.is_streamed
      then response (whole_response w)
      else if is_redirect w.status_code || leb 400 w.status_code
      then with_body w (some [])
      else if not (is_unknown_format w.content_type) && exceeds w.declared_length (byte_limit_of w)
      then too_large w.status_code
      else with_body w
          (read_parts (is_unknown_format w.content_type) (byte_limit_of w) true [] w.parts)
