-- ===== src/Orders/Keeps.antt =====
-- A response that was recorded stays, whatever responses come later.
use trust_news.Prelude.{
  String, ◌≡◌, refl, ◌∙◌, ap, subst, Bool, true, false, Option, none, some, List, arith, ◌==◌,
  eq_iff, if◌then◌else◌,
}
use trust_news.Prelude.Dict.{lookup, lookup-put}
use trust_news.Scoring.Values.{PyFloat}
use trust_news.Orders.Model.{Stored, Validations, Order}
use trust_news.Orders.World.{
  World, LoggedValidation, get_order_doc, changed, update_order, log_event, log_validation,
}
use trust_news.Orders.Counting.{of_assertion}
use trust_news.Orders.Publication.{}

module _ {P : PyFloat} where
  -- The response of a validator on an assertion.
  abbrev pub entry : Validations P → String → String → Option (Stored P)
  entry vs a v = lookup v (of_assertion a vs)

  abbrev pub entry_of : Option (Order P) → String → String → Option (Stored P)
  entry_of none a v = none
  entry_of (some o) a v = entry o.validations a v

  abbrev pub recorded : World P → String → String → String → Option (Stored P)
  recorded w k a v = entry_of (get_order_doc w k) a v

  -- What was recorded before is recorded after.
  pub record Keeps (w w' : World P) : Type 0 where
    pub kept :
        (k a v : String) (s : Stored P) → recorded w k a v ≡ some s → recorded w' k a v ≡ some s

  pub Keeps-refl : (w : World P) → Keeps w w
  Keeps-refl w = record { kept = λ k a v s h. h }

  pub Keeps-trans : {u w x : World P} → Keeps u w → Keeps w x → Keeps u x
  Keeps-trans g h = record { kept = λ k a v s e. h.kept k a v s (g.kept k a v s e) }

  pub Keeps-if : (b : Bool) {u w x : World P} → Keeps u w → Keeps u x → Keeps u (if b then w else x)
  Keeps-if true g h = g
  Keeps-if false g h = h

  -- A world with the same orders.
  pub Keeps-same : {w w' : World P} → w.orders ≡ w'.orders → Keeps w w'
  unfolding get_order_doc
  Keeps-same {w} {w'} e = record {
    kept = λ k a v s h. subst (λ os. entry_of (lookup k os) a v ≡ some s) e h;
  }

  abbrev pub mapped : (Order P → Order P) → Option (Order P) → Option (Order P)
  mapped f none = none
  mapped f (some o) = some (f o)

  lookup-changed :
      (k j : String) (f : Order P → Order P) (orders : List (String × Order P))
      (o : Option (Order P))
      → lookup k orders ≡ o
      → lookup j (changed k f o orders)
        ≡ (if k == j then mapped f (lookup j orders) else lookup j orders)
  lookup-changed k j f orders none e = ground (arith, eq_iff k j)
  lookup-changed k j f orders (some o) e = ground (arith, eq_iff k j, lookup-put k j (f o) orders)

  pub get-update :
      (k j : String) (f : Order P → Order P) (w : World P)
      → get_order_doc (update_order k f w) j
        ≡ (if k == j then mapped f (get_order_doc w j) else get_order_doc w j)
  unfolding get_order_doc update_order
  get-update k j f w = lookup-changed k j f w.orders (lookup k w.orders) refl

  entry-update :
      (k j : String) (f : Order P → Order P) (w : World P) (a v : String) (s : Stored P)
      → ((o : Order P) (a v : String) (s : Stored P)
          → get_order_doc w k ≡ some o
          → entry o.validations a v ≡ some s
          → entry (f o).validations a v ≡ some s)
      → recorded w j a v ≡ some s
      → (o : Option (Order P)) → get_order_doc w j ≡ o
      → get_order_doc (update_order k f w) j
        ≡ (if k == j then mapped f (get_order_doc w j) else get_order_doc w j)
      → recorded (update_order k f w) j a v ≡ some s
  entry-update k j f w a v s h e none eo eu = ground arith
  entry-update k j f w a v s h e (some o) eo eu = ground (arith, eq_iff k j, h o a v s)

  -- An update that keeps the responses of the order that is there.
  pub Keeps-update :
      (k : String) (f : Order P → Order P) (w : World P)
      → ((o : Order P) (a v : String) (s : Stored P)
          → get_order_doc w k ≡ some o
          → entry o.validations a v ≡ some s
          → entry (f o).validations a v ≡ some s)
      → Keeps w (update_order k f w)
  Keeps-update k f w h = record {
    kept =
        λ j a v s e. entry-update k j f w a v s h e (get_order_doc w j) refl (get-update k j f w);
  }

  -- An update of other fields.
  pub Keeps-fields :
      (k : String) (f : Order P → Order P) (w : World P)
      → ((o : Order P) → (f o).validations ≡ o.validations)
      → Keeps w (update_order k f w)
  Keeps-fields k f w h = Keeps-update k f w (λ o a v s found e. ap (λ vs. entry vs a v) (h o) ∙ e)

  pub orders-log_event :
      (k action : String) (w : World P) → w.orders ≡ (log_event k action w).orders
  unfolding log_event
  orders-log_event k action w = ground arith

  pub orders-log_validation :
      (v : LoggedValidation P) (w : World P) → w.orders ≡ (log_validation v w).orders
  unfolding log_validation
  orders-log_validation v w = ground arith

  pub Keeps-log_event : (k action : String) (w : World P) → Keeps w (log_event k action w)
  Keeps-log_event k action w = Keeps-same (orders-log_event k action w)

  pub Keeps-log_validation : (v : LoggedValidation P) (w : World P) → Keeps w (log_validation v w)
  Keeps-log_validation v w = Keeps-same (orders-log_validation v w)
