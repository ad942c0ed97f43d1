-- ===== src/Orders/Quota.antt =====
-- What the quota check of `assertions_generated` lets through.
use trust_news.Prelude.{
  ◌+◌, ◌≤◌, String, ◌≡◌, ◌≢◌, ◌⊎◌, refl, ◌∙◌, ap, false, not, Option, none, some, [], ◌∷◌, ◌++◌,
  arith, ◌==◌, length, if-both, Bool-cases, inl, inr,
}
use trust_news.Scoring.Values.{PyFloat}
use trust_news.Orders.Model.{ipfs_pending, Document}
use trust_news.Orders.World.{
  Quotas, upload_ipfs, Env, World, update_order, log_event, send, update_client_consumed,
}
use trust_news.Orders.Counting.{consume}
use trust_news.Orders.Dispatches.{is_exceeded}
use trust_news.Orders.Generation.{
  start_blockchain_flow, within_quota, request_upload, document_stored,
}

-- What the check lets pass: before this publication is counted, the client is not over its limit of
-- news, and its validations and those of the document are within their limit.
pub record MayPublish (q : Quotas) (document : Document) : Type 0 where
  pub news : q.news_consumed ≤ q.news_limit
  pub validations : q.validations_consumed + length document.assertions ≤ q.validations_limit

module _ {P : PyFloat} where
  module _ (env : Env P) (order_id client_id : String) (document : Document) (w : World P) where
    abbrev uploaded : World P → World P
    uploaded u = request_upload env order_id document u

    -- Against a world before: nothing was after_charge, and at most the upload was asked for.
    abbrev Sends : World P → World P → Type 0
    Sends u x =
        (x.consumed ≡ u.consumed)
        × ((x.sent ≡ u.sent) ⊎ (x.sent ≡ u.sent ++ upload_ipfs order_id document ∷ []))

    request_upload-sent : (u : World P) → Sends u (uploaded u)
    unfolding request_upload update_order log_event send
    request_upload-sent u =
        let stored = update_order order_id (document_stored document) u in
        let m = upload_ipfs order_id document in
        if-both (Sends u) document.names_order_id (refl, inl refl)
          (if-both (Sends u) (not (env.send_accepted m)) (refl, inl refl)
            (if-both
              (λ x. Sends u (update_order order_id (λ o. record o { status = ipfs_pending }) x))
              (order_id == "") {x = send m stored} (refl, inr refl) (refl, inr refl)))

    abbrev after_charge : Quotas → World P
    after_charge q =
        update_client_consumed (consume client_id "news_generation" (q.news_consumed + 1)) w

    not_exceeded :
        (q : Quotas) → is_exceeded q (length document.assertions) ≡ false → MayPublish q document
    unfolding is_exceeded
    not_exceeded q e = record { news = ground arith; validations = ground arith }

    within_quota-publishes :
        (o : Option Quotas)
        → (within_quota env order_id client_id document o w).sent ≢ w.sent
        → (q : Quotas) × (o ≡ some q)
          × MayPublish q document
          × (within_quota env order_id client_id document o w ≡ uploaded (after_charge q))
    unfolding update_order
    within_quota-publishes none h = absurd (h refl)
    within_quota-publishes (some q) h =
        elim (Bool-cases (is_exceeded q (length document.assertions))) [
          | inl e ↦ absurd (h (rw e refl))
          | inr e ↦
              elim (Bool-cases
                (env.update_accepted (consume client_id "news_generation" (q.news_consumed + 1)))) [
                  | inl ok ↦ (q, refl, not_exceeded q e, rw (e, ok) refl)
                  | inr refused ↦ absurd (h (rw (e, refused) refl))
                ]
        ]

    -- The BLOCKCHAIN flow of a client sends a message only if the admin service answers quotas in
    -- which the news consumed so far are at most their limit, and the validations with those of the
    -- document at most theirs. It has then counted one more publication, which may be the one after
    -- the last that the limit allows, and the message asks for the upload of the document.
    pub publication_is_checked_and_counted :
        (client_id == "") ≡ false
        → (start_blockchain_flow env order_id client_id document w).sent ≢ w.sent
        → (q : Quotas) × (env.fetch_client_quotas client_id ≡ some q)
          × MayPublish q document
          × ((start_blockchain_flow env order_id client_id document w).consumed
              ≡ w.consumed ++ consume client_id "news_generation" (q.news_consumed + 1) ∷ [])
          × ((start_blockchain_flow env order_id client_id document w).sent
              ≡ w.sent ++ upload_ipfs order_id document ∷ [])
    unfolding start_blockchain_flow update_client_consumed
    publication_is_checked_and_counted named h =
        let flow = start_blockchain_flow env order_id client_id document w in
        let e : flow
            ≡ within_quota env order_id client_id document (env.fetch_client_quotas client_id) w =
          rw named refl in
        let (q, asked, may, same) =
          within_quota-publishes (env.fetch_client_quotas client_id)
            (λ s. h (ap (λ x. x.sent) e ∙ s)) in
        let (counted, sent) = request_upload-sent (after_charge q) in
        let all = e ∙ same in
        (
          q,
          asked,
          may,
          ap (λ x. x.consumed) all ∙ counted,
          elim sent [
            | inl s ↦ absurd (h (ap (λ x. x.sent) all ∙ s))
            | inr s ↦ ap (λ x. x.sent) all ∙ s
          ],
        )
