-- ===== src/Orders/Accounting.antt =====
-- What an accepted response changes in its order.
use trust_news.Prelude.{
  ◌+◌, String, ◌≡◌, ◌≢◌, refl, sym, ◌∙◌, ap, false, ◌&&◌, Option, some, List, arith, ◌==◌, eq_iff,
  count_if, eqb, Bool-cases, inl, inr, if◌then◌else◌,
}
use trust_news.Prelude.Dict.{lookup, put, lookup-put}
use trust_news.Scoring.Values.{PyFloat}
use trust_news.Scoring.Weights.{Verdict}
use trust_news.Orders.Model.{
  validated, validated_with_errors, Stored, Validations, ValidatorInfo, Order, Response, light,
}
use trust_news.Orders.World.{
  Env, World, LoggedValidation, get_order_doc, update_order, log_validation,
}
use trust_news.Orders.Responses.{
  finish, accept, charge_validation, stored_light, stored_blockchain, blockchain_read,
  blockchain_on_order, light_read, light_on_order, validation_completed, light_validation_completed,
}
use trust_news.Orders.Counting.{
  of_assertion, total_pending, terminal_status, has_errors, is_done, record_validation,
  approval_value, normalize_validation_mode, is_incomplete,
}
use trust_news.Orders.Keeps.{entry, mapped, get-update, orders-log_validation}
use trust_news.Orders.Kept.{orders-charge_validation}
use trust_news.Orders.Pending.{waits, total_pending-record}

module _ {P : PyFloat} where
  -- The order after a response was accepted, against the order before.
  pub record IsAccounted (a u : String) (s : Stored P) (before : Order P) (found : Option (Order P))
      : Type 0 where
    pub after : Order P
    pub same : found ≡ some after
    pub stored : entry after.validations a u ≡ some s
    pub others :
        (b v : String)
        → ((a == b && u == v) ≡ false)
        → entry after.validations b v ≡ entry before.validations b v
    pub fewer :
        after.validators_pending + count_if (waits a u) before.validators
        ≡ total_pending before.validators before.validations
    pub exact : after.validators_pending ≡ total_pending before.validators after.validations
    pub ended :
        after.validators_pending ≡ 0
        → after.status ≡ (if has_errors after.validations then validated_with_errors else validated)
    pub goes_on : (after.validators_pending ≢ 0) → after.status ≡ before.status

  abbrev pub accounted : String → String → Stored P → Order P → Order P
  accounted a u s o =
      let vs = record_validation a u s o.validations in
      let left = total_pending o.validators vs in
      record o {
        validations = vs;
        validators_pending = left;
        status = if eqb left 0 then terminal_status vs else o.status;
      }

  get-log_validation :
      (v : LoggedValidation P) (w : World P) (k : String)
      → get_order_doc (log_validation v w) k ≡ get_order_doc w k
  unfolding get_order_doc
  get-log_validation v w k = ap (lookup k) (sym (orders-log_validation v w))

  pub get-charge :
      (env : Env P) (client k : String) (w : World P)
      → get_order_doc (charge_validation env client w) k ≡ get_order_doc w k
  unfolding get_order_doc
  get-charge env client k w = ap (lookup k) (sym (orders-charge_validation env client w))

  pub get-own-update :
      (k : String) (f : Order P → Order P) (w : World P) (o : Option (Order P))
      → get_order_doc w k ≡ o
      → get_order_doc (update_order k f w) k ≡ mapped f o
  get-own-update k f w o e = ground (arith, get-update k k f w, eq_iff k k)

  get-finish :
      (k : String) (infos : List ValidatorInfo) (vs : Validations P) (w : World P) (o : Order P)
      → get_order_doc w k ≡ some o
      → get_order_doc (finish k infos vs w) k
        ≡ some (record o {
          validators_pending = total_pending infos vs;
          status = if eqb (total_pending infos vs) 0 then terminal_status vs else o.status;
        })
  unfolding finish
  get-finish k infos vs w o e =
      let counted =
        get-own-update k (λ x. record x { validators_pending = total_pending infos vs }) w (some o)
          e in
      elim (Bool-cases (eqb (total_pending infos vs) 0)) [
        | inl z ↦ rw z (
            get-own-update k _ _ (some (record o { validators_pending = total_pending infos vs }))
              counted)
        | inr z ↦ rw z counted
      ]

  pub get-accept :
      (k : String) (r : Response) (s : Stored P) (v : LoggedValidation P) (doc : Order P)
      (w : World P)
      → get_order_doc w k ≡ some doc
      → get_order_doc (accept k r s v doc w) k ≡ some (accounted r.id_assertion r.validator s doc)
  unfolding accept
  get-accept k r s v doc w e =
      let vs = record_validation r.id_assertion r.validator s doc.validations in
      let written = get-own-update k (λ x. record x { validations = vs }) w (some doc) e in
      get-finish k doc.validators vs _ (record doc { validations = vs })
        (get-log_validation v _ k ∙ written)

  pub entry-own :
      (a u : String) (s : Stored P) (vs : Validations P)
      → entry (record_validation a u s vs) a u ≡ some s
  unfolding record_validation
  entry-own a u s vs = ground (
    arith,
    eq_iff a a,
    eq_iff u u,
    lookup-put a a (put u s (of_assertion a vs)) vs,
    lookup-put u u s (of_assertion a vs),
  )

  entry-other :
      (a u : String) (s : Stored P) (vs : Validations P) (b v : String)
      → (a == b && u == v) ≡ false
      → entry (record_validation a u s vs) b v ≡ entry vs b v
  unfolding record_validation
  entry-other a u s vs b v h = ground (
    arith,
    eq_iff a b,
    eq_iff u v,
    lookup-put a b (put u s (of_assertion a vs)) vs,
    lookup-put u v s (of_assertion a vs),
  )

  accounted-IsAccounted :
      (a u : String) (s : Stored P) (doc : Order P) (found : Option (Order P))
      → is_done a u doc.validations ≡ false
      → found ≡ some (accounted a u s doc)
      → IsAccounted a u s doc found
  unfolding terminal_status
  accounted-IsAccounted a u s doc found fresh e = record {
    after = accounted a u s doc;
    same = e;
    stored = entry-own a u s doc.validations;
    others = entry-other a u s doc.validations;
    fewer = total_pending-record a u s doc.validations fresh doc.validators;
    exact = refl;
    ended = λ z. ground arith;
    goes_on = λ z. ground arith;
  }

  module _ (env : Env P) (k : String) (r : Response) (approval : Option Verdict) (w : World P)
      (doc : Order P) (found : get_order_doc w k ≡ some doc)
      (fresh : is_done r.id_assertion r.validator doc.validations ≡ false)
      (read : approval_value r.execution_status r.approval ≡ some approval)
      (complete : is_incomplete r ≡ false) where
    -- A response that names an assertion and a validator without a recorded response, and has an
    -- approval unless it is an error, is recorded in the order that it is for; the other responses
    -- stay. The pending count is exact, and lower by the number of entries that wait for this
    -- validator on this assertion. At zero the order becomes VALIDATED, or VALIDATED_WITH_ERRORS if
    -- a recorded response is an error; above zero its status stays.
    pub validation_completed_accounts :
        IsAccounted r.id_assertion r.validator
          (stored_blockchain env k r approval w)
          doc
          (get_order_doc (validation_completed env k r w) k)
    unfolding validation_completed blockchain_read blockchain_on_order
    validation_completed_accounts =
        rw (read, complete, found, fresh)
          (accounted-IsAccounted r.id_assertion r.validator _ doc _ fresh (
            get-accept k r _ _ doc (charge_validation env doc.client_id w)
              (get-charge env doc.client_id k w ∙ found)))

    -- The same of a response in the LIGHT flow, for an order in LIGHT mode.
    pub light_validation_completed_accounts :
        normalize_validation_mode doc.validation_mode ≡ some light
        → IsAccounted r.id_assertion r.validator
            (stored_light env k r approval w)
            doc
            (get_order_doc (light_validation_completed env k r w) k)
    unfolding light_validation_completed light_read light_on_order
    light_validation_completed_accounts mode =
        rw (read, complete, found, mode, fresh)
          (accounted-IsAccounted r.id_assertion r.validator _ doc _ fresh
            (get-accept k r _ _ doc w found))
