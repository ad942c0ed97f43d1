-- ===== src/Evidence/Citable.antt =====
-- The index of citable contexts against its meaning: an id stands for a context if it is the id of
-- exactly one citable context.
use mathlib.Core.List.{append_assoc, append-nil}
use trust_news.Prelude.{
  String, ◌≡◌, refl, sym, ◌∙◌, ap, Bool, true, false, not, ◌&&◌, ◌||◌, Option, none, some, List, [],
  ◌∷◌, ◌++◌, arith, ◌==◌, eq_iff, keep, any, length, ltb, if◌then◌else◌,
}
use trust_news.Evidence.Contexts.{
  Context, Source, Retrieved, Index, find, remove, member, Contexts, empty, id_of, is_citable,
  add_context, add_contexts, add_sources, citation_contexts,
}

abbrev pub Entry : Type 0
Entry = Source × Context

-- Every context that was retrieved, with its source, in the order of the loops.
abbrev of_source : Source → List (Option Context) → List Entry
of_source s [] = []
of_source s (none ∷ rest) = of_source s rest
of_source s (some c ∷ rest) = (s, c) ∷ of_source s rest

abbrev pub entries : Retrieved → List Entry
entries [] = []
entries (none ∷ rest) = entries rest
entries (some s ∷ rest) = of_source s s.contexts ++ entries rest

-- The context has the id, and may be cited.
abbrev pub has_id : String → Entry → Bool
has_id k x = id_of x.1 == k

abbrev pub cites : String → Entry → Bool
cites k x = has_id k x && is_citable x.1

abbrev pub blocks : String → Entry → Bool
blocks k x = has_id k x && not (is_citable x.1)

-- The only element of a list.
abbrev pub only {ℓ} : {A : Type ℓ} → List A → Option A
only [] = none
only (x ∷ []) = some x
only (x ∷ y ∷ rest) = none

module _ {ℓ} {A : Type ℓ} (p : A → Bool) where
  keep-append : (xs ys : List A) → keep p (xs ++ ys) ≡ keep p xs ++ keep p ys
  keep-append [] ys = refl
  keep-append (x ∷ xs) ys = ground (arith, keep-append xs ys)

  any-append : (xs ys : List A) → any p (xs ++ ys) ≡ (any p xs || any p ys)
  any-append [] ys = refl
  any-append (x ∷ xs) ys = ground (arith, any-append xs ys)

find-remove : (k j : String) (m : Index) → find j (remove k m) ≡ (if k == j then none else find j m)
unfolding find remove
find-remove k j [] = ground arith
find-remove k j ((i, x) ∷ m) = ground (arith, find-remove k j m, eq_iff i k, eq_iff i j, eq_iff k j)

-- The state describes what has been read, for the id `k`: the contexts that it cites, and whether
-- one blocks it.
record Describes (k : String) (st : Contexts) (cited : List Entry) (blocked : Bool) : Type 0 where
  found : find k st.indexed ≡ only cited
  ambiguous : member k st.ambiguous ≡ ltb 1 (length cited)
  uncitable : member k st.uncitable ≡ blocked

abbrev one_more : Bool → Entry → List Entry
one_more b x = if b then x ∷ [] else []

module _ (k : String) (st : Contexts) (s : Source) (c : Context) (named : (k == "") ≡ false) where
  add_context-Describes :
      (cited : List Entry) (blocked : Bool)
      → Describes k st cited blocked
      → Describes k
          (add_context st s c)
          (cited ++ one_more (cites k (s, c)) (s, c))
          (blocked || blocks k (s, c))
  unfolding add_context find
  add_context-Describes [] blocked d = ground (
    arith,
    eq_iff (id_of c) k,
    eq_iff k "",
    eq_iff (id_of c) "",
    find-remove (id_of c) k st.indexed,
  )
  add_context-Describes (x ∷ []) blocked d = ground (
    arith,
    eq_iff (id_of c) k,
    eq_iff k "",
    eq_iff (id_of c) "",
    find-remove (id_of c) k st.indexed,
  )
  add_context-Describes (x ∷ y ∷ rest) blocked d = ground (
    arith,
    eq_iff (id_of c) k,
    eq_iff k "",
    eq_iff (id_of c) "",
    find-remove (id_of c) k st.indexed,
  )

one_more-append :
    (b : Bool) (x : Entry) (m r : List Entry)
    → (m ++ one_more b x) ++ r ≡ m ++ (if b then x ∷ r else r)
one_more-append true x m r = append_assoc m (x ∷ []) r
one_more-append false x m r = ap (λ l. l ++ r) (append-nil m)

Describes-cast :
    (k : String) {st : Contexts} {cited cited' : List Entry} {b b' : Bool}
    → cited ≡ cited'
    → b ≡ b'
    → Describes k st cited b
    → Describes k st cited' b'
Describes-cast k e h d = record {
  found = d.found ∙ ap only e;
  ambiguous = d.ambiguous ∙ ap (λ l. ltb 1 (length l)) e;
  uncitable = d.uncitable ∙ h;
}

or_assoc : (a b c : Bool) → ((a || b) || c) ≡ (a || (b || c))
or_assoc a b c = ground arith

or-false : (a : Bool) → (a || false) ≡ a
or-false a = ground arith

module _ (k : String) (named : (k == "") ≡ false) where
  -- What the loops add to a state that describes what came before.
  abbrev After : Contexts → List Entry → Bool → List Entry → Type 0
  After st cited blocked new =
      Describes k st (cited ++ keep (cites k) new) (blocked || any (blocks k) new)

  add_contexts-Describes :
      (st : Contexts) (s : Source) (cs : List (Option Context)) (cited : List Entry)
      (blocked : Bool)
      → Describes k st cited blocked
      → After (add_contexts st s cs) cited blocked (of_source s cs)
  unfolding add_contexts
  add_contexts-Describes st s [] cited blocked d =
      Describes-cast k (sym (append-nil cited)) (sym (or-false blocked)) d
  add_contexts-Describes st s (none ∷ rest) cited blocked d =
      add_contexts-Describes st s rest cited blocked d
  add_contexts-Describes st s (some c ∷ rest) cited blocked d =
      Describes-cast k
        (one_more-append (cites k (s, c)) (s, c) cited (keep (cites k) (of_source s rest)))
        (or_assoc blocked (blocks k (s, c)) (any (blocks k) (of_source s rest)))
        (add_contexts-Describes (add_context st s c) s rest
          (cited ++ one_more (cites k (s, c)) (s, c)) (blocked || blocks k (s, c))
          (add_context-Describes k st s c named cited blocked d))

  add_sources-Describes :
      (st : Contexts) (sources : Retrieved) (cited : List Entry) (blocked : Bool)
      → Describes k st cited blocked
      → After (add_sources st sources) cited blocked (entries sources)
  unfolding add_sources
  add_sources-Describes st [] cited blocked d =
      Describes-cast k (sym (append-nil cited)) (sym (or-false blocked)) d
  add_sources-Describes st (none ∷ rest) cited blocked d =
      add_sources-Describes st rest cited blocked d
  add_sources-Describes st (some s ∷ rest) cited blocked d =
      let here = of_source s s.contexts in
      let more = entries rest in
      Describes-cast k
        (append_assoc cited (keep (cites k) here) (keep (cites k) more)
          ∙ ap (λ l. cited ++ l) (sym (keep-append (cites k) here more)))
        (or_assoc blocked (any (blocks k) here) (any (blocks k) more)
          ∙ ap (λ b. blocked || b) (sym (any-append (blocks k) here more)))
        (add_sources-Describes (add_contexts st s s.contexts) rest (cited ++ keep (cites k) here)
          (blocked || any (blocks k) here) (add_contexts-Describes st s s.contexts cited blocked d))

-- For every non-empty id: the index finds a context exactly when that is the only citable one with
-- the id among all that was retrieved; the id is ambiguous exactly when two or more have it; and it
-- is uncitable exactly when a context that may not be cited has it.
pub citation_contexts_exact :
    (k : String) (retrieved : Retrieved)
    → (k == "") ≡ false
    → let st = citation_contexts retrieved in
      (find k st.indexed ≡ only (keep (cites k) (entries retrieved)))
      × (member k st.ambiguous ≡ ltb 1 (length (keep (cites k) (entries retrieved))))
      × (member k st.uncitable ≡ any (blocks k) (entries retrieved))
unfolding citation_contexts find
citation_contexts_exact k retrieved named =
    let d =
      add_sources-Describes k named empty retrieved [] false
        (record { found = refl; ambiguous = refl; uncitable = refl }) in
    (d.found, d.ambiguous, d.uncitable)
