-- ===== src/Chunking/Cover.antt =====
-- Which windows are chosen.
use trust_news.Prelude.{
  codes, subst, ℕ, zero, suc, ◌≤◌, max, String, ◌≡◌, refl, sym, ap, false, ◌&&◌, ◌||◌, Option, none,
  some, List, [], ◌∷◌, map, arith, length, any, ltb, All, if-both, Bool-cases, inl, inr,
}
use trust_news.Chunking.Windows.{
  Chunk, Ranked, Window, Settings, State, Decisions, is_subset, ids, chunk_by_id, window_chunks,
  joined_text, overlaps, decide_window, consider, is_full, select_windows, build_context_windows,
}

-- The numbers from `n` down to 1.
abbrev pub countdown : ℕ → List ℕ
countdown zero = []
countdown (suc n) = suc n ∷ countdown n

-- No list of ids contains another one.
abbrev pub AreApart : List (List String) → Type 0
AreApart [] = Unit
AreApart (w ∷ ws) = All (λ v. (is_subset w v ≡ false) × (is_subset v w ≡ false)) ws × AreApart ws

apart-any :
    (w : List String) (ws : List (List String))
    → any (λ v. is_subset w v || is_subset v w) ws ≡ false
    → All (λ v. (is_subset w v ≡ false) × (is_subset v w ≡ false)) ws
apart-any w [] h = tt
apart-any w (v ∷ ws) h = ((ground arith, ground arith), apart-any w ws (ground arith))

abbrev pub included : List Window → List (List String)
included = map (λ w. w.included_chunk_ids)

-- The loop's variables agree with one another.
record IsSelection (st : State) : Type 0 where
  same : included st.contexts ≡ st.used_windows
  apart : AreApart st.used_windows
  numbered : map (λ w. w.number) st.contexts ≡ countdown (length st.contexts)

module _ (s : Settings) (chunks : List Chunk) where
  -- A round keeps the agreement and adds one context at most.
  abbrev IsRound : State → State → Type 0
  IsRound st now = IsSelection now × (length now.contexts ≤ suc (length st.contexts))

  decide_window-IsRound :
      (st : State) (r : Ranked) (c : Chunk)
      → IsSelection st
      → IsRound st (decide_window s chunks st r c)
  unfolding decide_window
  decide_window-IsRound st r c h =
      let w = window_chunks s chunks c in
      elim (Bool-cases (overlaps s chunks (ids w) st.used_windows)) [
        | inl e ↦
            rw e (record { same = h.same; apart = h.apart; numbered = h.numbered }, omega arith)
        | inr e ↦ rw e (
            if-both (IsRound st)
              (ltb (length (codes (joined_text w))) s.min_context_chars
                && ltb (length w) (length chunks))
              (record { same = h.same; apart = h.apart; numbered = h.numbered }, omega arith)
              (
                record {
                  same = ap (λ l. ids w ∷ l) h.same;
                  apart = (apart-any (ids w) st.used_windows e, h.apart);
                  numbered = ground (arith, h.numbered);
                },
                omega arith,
              ))
      ]

  consider-IsRound :
      (st : State) (r : Ranked) (o : Option Chunk)
      → IsSelection st
      → IsRound st (consider s chunks st r o)
  unfolding consider
  consider-IsRound st r none h =
      (record { same = h.same; apart = h.apart; numbered = h.numbered }, omega arith)
  consider-IsRound st r (some c) h = decide_window-IsRound st r c h

  -- At most the limit of contexts, or one.
  abbrev IsWithin : State → Type 0
  IsWithin st = length st.contexts ≤ max 1 s.max_contexts

  -- Below the limit, or empty: the loop has not stopped.
  abbrev IsOpen : State → Type 0
  IsOpen st = suc (length st.contexts) ≤ max 1 s.max_contexts

  next-IsOpen :
      (st now : State)
      → length now.contexts ≤ suc (length st.contexts)
      → IsOpen st
      → is_full s chunks st now ≡ false
      → IsOpen now
  next-IsOpen st now few open_before e = ground arith

  select_windows-IsSelection :
      (st : State) (rs : List Ranked)
      → IsSelection st
      → IsOpen st
      → let last = select_windows s chunks st rs in IsSelection last × IsWithin last
  unfolding select_windows
  select_windows-IsSelection st [] h more = (h, omega arith)
  select_windows-IsSelection st (r ∷ rest) h more =
      let now = consider s chunks st r (chunk_by_id r.chunk_id chunks) in
      let (agrees, few) = consider-IsRound st r (chunk_by_id r.chunk_id chunks) h in
      elim (Bool-cases (is_full s chunks st now)) [
        | inl e ↦ rw e (agrees, omega arith)
        | inr e ↦ rw e (select_windows-IsSelection now rest agrees (next-IsOpen st now few more e))
      ]

  -- The contexts of a call, the last one first: they are numbered from 1 on; the chunk ids of none
  -- contain those of another; and there are at most as many as the limit says, or one if it is zero.
  pub windows_do_not_nest :
      (ranked_chunks : List Ranked) (selection_decisions : Decisions)
      → let contexts = (build_context_windows s chunks ranked_chunks selection_decisions).0 in
        (map (λ w. w.number) contexts ≡ countdown (length contexts))
        × AreApart (included contexts)
        × (length contexts ≤ max 1 s.max_contexts)
  unfolding build_context_windows
  windows_do_not_nest ranked_chunks selection_decisions =
      let start : State = record {
        contexts = [];
        used_windows = [];
        decisions = selection_decisions;
      } in
      let (agrees, few) =
        select_windows-IsSelection start ranked_chunks
          (record { same = refl; apart = tt; numbered = refl }) (omega arith) in
      (agrees.numbered, subst AreApart (sym agrees.same) agrees.apart, few)
