-- ===== src/Evidence/Contexts.antt =====
-- `_citation_contexts` of evidence.py: the index of the contexts that a verdict may cite.
use trust_news.Prelude.{
  String, Bool, true, false, not, ◌&&◌, Option, none, some, List, [], ◌∷◌, ◌==◌, any, strip,
  if◌then◌else◌,
}
use trust_news.Evidence.Url.{Link}

-- A retrieved context. A text that is absent counts as empty.
pub record Context : Type 0 where
  pub context_id : String
  pub text : String
  pub citation_eligible : Bool
  pub selected_chunk_id : String
  pub text_sha256 : String

-- A retrieved source; `contexts` holds `none` for an item that is no dict, and `document_provenance`
-- is `none` unless it is a dict.
pub record Source : Type 0 where
  pub source_id : String
  pub url : Link
  pub title : String
  pub relationship_to_origin : String
  pub document_provenance : Option String
  pub contexts : List (Option Context)

-- What the server retrieved; `none` is an item that is no dict.
abbrev pub Retrieved : Type 0
Retrieved = List (Option Source)

-- A dict from context ids.
abbrev pub Index : Type 0
Index = List (String × (Source × Context))

unfoldable pub find : String → Index → Option (Source × Context)
find k [] = none
find k ((j, x) ∷ rest) = if j == k then some x else find k rest

unfoldable pub remove : String → Index → Index
remove k [] = []
remove k ((j, x) ∷ rest) = let tail = remove k rest in if j == k then tail else (j, x) ∷ tail

abbrev pub member : String → List String → Bool
member k = any (λ j. j == k)

abbrev pub is_found : Option (Source × Context) → Bool
is_found none = false
is_found (some x) = true

-- The three collections that the loops fill.
pub record Contexts : Type 0 where
  pub indexed : Index
  pub ambiguous : List String
  pub uncitable : List String

abbrev pub empty : Contexts
empty = record { indexed = []; ambiguous = []; uncitable = [] }

unfoldable pub id_of : Context → String
unfolding strip
id_of c = strip c.context_id

-- `citation_eligible is True` and a text that is not blank.
unfoldable pub is_citable : Context → Bool
unfolding strip
is_citable c = c.citation_eligible && not (strip c.text == "")

-- The body of the inner loop.
unfoldable pub add_context : Contexts → Source → Context → Contexts
add_context st source c =
    let k = id_of c in
    if k == ""
    then st
    else if not (is_citable c)
    then record st { uncitable = k ∷ st.uncitable }
    else if is_found (find k st.indexed)
    then record st { ambiguous = k ∷ st.ambiguous; indexed = remove k st.indexed }
    else if member k st.ambiguous
    then st
    else record st { indexed = (k, (source, c)) ∷ st.indexed }

unfoldable pub add_contexts : Contexts → Source → List (Option Context) → Contexts
add_contexts st source [] = st
add_contexts st source (none ∷ rest) = add_contexts st source rest
add_contexts st source (some c ∷ rest) = add_contexts (add_context st source c) source rest

unfoldable pub add_sources : Contexts → Retrieved → Contexts
add_sources st [] = st
add_sources st (none ∷ rest) = add_sources st rest
add_sources st (some source ∷ rest) = add_sources (add_contexts st source source.contexts) rest

unfoldable pub citation_contexts : Retrieved → Contexts
citation_contexts retrieved = add_sources empty retrieved
