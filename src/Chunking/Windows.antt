-- ===== src/Chunking/Windows.antt =====
-- `build_context_windows` of chunker.py.
use trust_news.Prelude.{
  codes, collapse_spaces, join_spaced, ℕ, zero, suc, ◌+◌, ◌-◌, String, Bool, true, ◌&&◌, ◌||◌,
  Option, none, some, List, [], ◌∷◌, map, ◌==◌, length, any, min, ltb, leb, if◌then◌else◌,
}
use trust_news.Prelude.Dict.{lookup, put, is_member}

pub record Chunk : Type 0 where
  pub chunk_index : ℕ
  pub chunk_id : String
  pub text : String
  pub char_length : ℕ

-- A ranked chunk: its id, and its score as it is passed on.
pub record Ranked : Type 0 where
  pub chunk_id : String
  pub score : Option String

pub data SelectionDecision : Type 0 where
  chunk_not_found : SelectionDecision
  overlapping_context_window : SelectionDecision
  context_too_short : SelectionDecision
  selected_context : SelectionDecision
  context_limit_reached : SelectionDecision

-- A context; `number` is the last part of its id, "<source>-context-<number>".
pub record Window : Type 0 where
  pub number : ℕ
  pub selected_chunk_id : String
  pub included_chunk_ids : List String
  pub text : String
  pub score : Option String

abbrev pub Decisions : Type 0
Decisions = List (String × SelectionDecision)

-- The settings of a call, the two sides of a window after `max(0, ...)`.
pub record Settings : Type 0 where
  pub max_contexts : ℕ
  pub before : ℕ
  pub after : ℕ
  pub min_context_chars : ℕ

-- `set.issubset`.
unfoldable pub is_subset : List String → List String → Bool
unfolding is_member
is_subset [] ys = true
is_subset (x ∷ xs) ys = is_member x ys && is_subset xs ys

abbrev pub take : ℕ → List Chunk → List Chunk
take zero xs = []
take (suc n) [] = []
take (suc n) (x ∷ xs) = x ∷ take n xs

abbrev pub drop : ℕ → List Chunk → List Chunk
drop zero xs = xs
drop (suc n) [] = []
drop (suc n) (x ∷ xs) = drop n xs

-- `{chunk["chunk_id"]: chunk for chunk in chunks}`, where the last one with an id counts.
unfoldable pub chunk_by_id : String → List Chunk → Option Chunk
chunk_by_id k [] = none
chunk_by_id k (c ∷ rest) = elim (chunk_by_id k rest) [
  | some d ↦ some d
  | none ↦ if c.chunk_id == k then some c else none
]

abbrev pub ids : List Chunk → List String
ids = map (λ c. c.chunk_id)

-- `chunks[start:end]` for a selected chunk; an index of 0 would stand before the first chunk.
unfoldable pub window_chunks : Settings → List Chunk → Chunk → List Chunk
window_chunks s chunks selected =
    let idx = selected.chunk_index - 1 in
    let start = idx - s.before in
    let end = min (length chunks) (idx + s.after + 1) in take (end - start) (drop start chunks)

-- The loop's variables. Of `contexts` and `used_windows`, the last one stands first.
pub record State : Type 0 where
  pub contexts : List Window
  pub used_windows : List (List String)
  pub decisions : Decisions

-- `_normalize_text(" ".join(texts))`.
unfoldable pub joined_text : List Chunk → String
unfolding join_spaced collapse_spaces
joined_text window = collapse_spaces (join_spaced (map (λ c. c.text) window))

module _ (s : Settings) (chunks : List Chunk) where
  abbrev pub overlaps : List String → List (List String) → Bool
  overlaps included = any (λ previous. is_subset included previous || is_subset previous included)

  unfoldable pub decide_window : State → Ranked → Chunk → State
  unfolding window_chunks is_subset put joined_text
  decide_window st ranked selected =
      let window = window_chunks s chunks selected in
      let included = ids window in
      let text = joined_text window in
      if overlaps included st.used_windows
      then record st { decisions = put selected.chunk_id overlapping_context_window st.decisions }
      else if ltb (length (codes text)) s.min_context_chars && ltb (length window) (length chunks)
      then record st { decisions = put selected.chunk_id context_too_short st.decisions }
      else record {
        contexts =
            record {
              number = length st.contexts + 1;
              selected_chunk_id = selected.chunk_id;
              included_chunk_ids = included;
              text = text;
              score = ranked.score;
            }
            ∷ st.contexts;
        used_windows = included ∷ st.used_windows;
        decisions = put selected.chunk_id selected_context st.decisions;
      }

  unfoldable pub consider : State → Ranked → Option Chunk → State
  unfolding decide_window put
  consider st ranked none = record st {
    decisions = put ranked.chunk_id chunk_not_found st.decisions;
  }
  consider st ranked (some selected) = decide_window st ranked selected

  -- Whether a round has added a context and reached the limit, at which the loop stops.
  abbrev pub is_full : State → State → Bool
  is_full before now =
      ltb (length before.contexts) (length now.contexts) && leb s.max_contexts (length now.contexts)

  unfoldable pub select_windows : State → List Ranked → State
  unfolding consider chunk_by_id
  select_windows st [] = st
  select_windows st (r ∷ rest) =
      let now = consider st r (chunk_by_id r.chunk_id chunks) in
      let after = select_windows now rest in if is_full st now then now else after

  abbrev limit_reached : List Ranked → Decisions → Decisions
  limit_reached [] d = d
  limit_reached (r ∷ rest) d = elim (lookup r.chunk_id d) [
    | some found ↦ limit_reached rest d
    | none ↦ limit_reached rest (put r.chunk_id context_limit_reached d)
  ]

  -- The contexts, the last one first, and the decisions.
  unfoldable pub build_context_windows : List Ranked → Decisions → List Window × Decisions
  unfolding select_windows lookup put
  build_context_windows ranked_chunks selection_decisions =
      let st =
        select_windows
          (record { contexts = []; used_windows = []; decisions = selection_decisions })
          ranked_chunks in
      (st.contexts, limit_reached ranked_chunks st.decisions)
