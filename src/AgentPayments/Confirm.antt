-- ===== src/AgentPayments/Confirm.antt =====
-- `confirmRequest` does not leave a request in progress.
use farm_backend.Prelude.{
  ℕ, ◌≡◌, refl, sym, ap, ◌∙◌, Bool, true, false, Option, none, some, arith, leb, some_inj,
}
use farm_backend.Prelude.Text.{Text}
use farm_backend.Prelude.Table.{Table, find, modify, find-modify}
use farm_backend.Store.{Db, AgentRequest, Error, update_in, write_in, claim_in, pure}
use farm_backend.Store.Rules.{
  Post, returns, raises, Any, Post-mono, Post-bind, Post-then, Post-gets, Post-or_raise, Post-pure,
  Post-raise, Post-branch, Post-check, Post-nothing, Post-recover, Post-guard, forget,
}
use farm_backend.Store.Side.{On, On-claim_in}
use farm_backend.Store.Apart.{missed_claim}
use farm_backend.Escrow.Env.{Env}
use farm_backend.AgentPayments.Tables.{ensure, agent_rows}
use farm_backend.AgentPayments.Pay.{Channel, pay_intent}
use farm_backend.AgentPayments.Mandates.{Calendar, check_caps}
use farm_backend.AgentPayments.Agents.{
  is_in_progress, is_confirmed, is_last_error, fail, confirm, pay_request_of, fail_request,
  lapse_request, claim_request, confirm_open, confirm_request,
}

-- The request, if it is there, is not in progress.
pub record IsDecidable (id : ℕ) (t : Table AgentRequest) : Type 0 where
  pub free : (r : AgentRequest) → find id t ≡ some r → is_in_progress r.status ≡ false

abbrev pub Free : ℕ → Db → Type 0
Free id = On agent_rows (IsDecidable id)

-- How a confirmation ends: with a confirmed request.
abbrev pub Confirmed : ℕ → AgentRequest → Db → Type 0
Confirmed id r d = (is_confirmed r.status ≡ true) × Free id d

IsDecidable-modify :
    (id : ℕ) (f : AgentRequest → AgentRequest) (t : Table AgentRequest) {x : AgentRequest}
    → find id t ≡ some x
    → is_in_progress (f x).status ≡ false
    → IsDecidable id (modify id f t)
IsDecidable-modify id f t {x} at out = record {
  free = λ r e.
      let same : f x ≡ r = some_inj (sym modified ∙ e) in
      sym (ap (λ (r : AgentRequest). is_in_progress r.status) same) ∙ out;
}
  where
    modified : find id (modify id f t) ≡ some (f x)
    modified = rw (find-modify id id f t, at) (ground arith)

-- An update to a status that is decided frees the request, or there is no such request.
freed :
    (id : ℕ) (f : AgentRequest → AgentRequest) (db : Db)
    → ((x : AgentRequest) → is_in_progress (f x).status ≡ false)
    → Post
        (Free id)
        (λ v d. ((x : AgentRequest) × (v ≡ f x)) × Free id d)
        (update_in agent_rows id f db)
unfolding update_in write_in
freed id f db out = go (find id db.agent_requests) refl
  where
    go :
        (o : Option AgentRequest)
        → find id db.agent_requests ≡ o
        → Post
            (Free id)
            (λ v d. ((x : AgentRequest) × (v ≡ f x)) × Free id d)
            (write_in agent_rows id f o db)
    go none at = raises (record { free = λ r e. absurd (let c = sym at ∙ e in cc) })
    go (some v) at = returns ((v, refl), IsDecidable-modify id f db.agent_requests at (out v))

fail_frees : (b : Bool) (now : ℕ) (x : AgentRequest) → is_in_progress (fail b now x).status ≡ false
unfolding is_in_progress
fail_frees true now x = refl
fail_frees false now x = refl

module _ (env : Env) (cal : Calendar) (ch : Channel) (user_id id : ℕ) where
  pay_request_of-Confirmed :
      (pin : Option Text) (r : AgentRequest) (db : Db)
      → Post Any (Confirmed id) (pay_request_of env cal ch user_id id pin r db)
  unfolding pay_request_of is_in_progress
  pay_request_of-Confirmed pin r db = Post-gets _ _ db (
      Post-or_raise _ _ _ db tt λ m _.
        Post-then (check_caps env.now cal r.authorization_id m r.amount (some id)) _ db
          (Post-nothing _)
          λ _ d _.
            Post-bind (pay_intent env ch user_id r.intent_id pin) _ d (Post-nothing _) λ paid d' _.
              Post-mono (update_in agent_rows id (confirm env.now paid.transaction_reference) d')
                (forget _ (freed id (confirm env.now paid.transaction_reference) d' (λ x. refl)))
                λ v d₁ ((x, e), free). (ap (λ (r : AgentRequest). is_confirmed r.status) e, free))

  fail_request-Free :
      (e : Error) (db : Db)
      → Post (Free id) (Confirmed id) (fail_request env cal ch user_id id e db)
  unfolding fail_request
  fail_request-Free e db =
      Post-then (update_in agent_rows id (fail (is_last_error e) env.now)) _ db
        (freed id (fail (is_last_error e) env.now) db (fail_frees (is_last_error e) env.now))
        λ v d (_, free). Post-raise e d free

  lapse_request-Free :
      (db : Db)
      → Free id db
      → Post (Free id) (Confirmed id) (lapse_request env cal ch user_id id db)
  unfolding lapse_request is_in_progress
  lapse_request-Free db free =
      Post-then (claim_in agent_rows id _ _) _ db
        (On-claim_in agent_rows (IsDecidable id) id _ _ db
          (λ x at _. IsDecidable-modify id _ db.agent_requests at refl) free)
        λ _ d h. Post-raise _ d h

  claim_request-Free :
      (pin : Option Text) (r : AgentRequest) (db : Db)
      → Free id db
      → Post (Free id) (Confirmed id) (claim_request env cal ch user_id id pin r db)
  unfolding claim_request
  claim_request-Free pin r db free =
      Post-bind (claim_in agent_rows id _ _) _ db
        (missed_claim agent_rows {Q = Free id} id _ _ db free)
        λ claimed d missed. Post-guard _ _ _ d missed λ _.
          Post-recover (pay_request_of env cal ch user_id id pin r) _ d
            (pay_request_of-Confirmed pin r d) λ e d' _. fail_request-Free e d'

  confirm_open-Free :
      (pin : Option Text) (r : AgentRequest) (db : Db)
      → Free id db
      → Post (Free id) (Confirmed id) (confirm_open env cal ch user_id id pin r db)
  unfolding confirm_open
  confirm_open-Free pin r db free = Post-check _ _ _ db free λ _.
      Post-branch (leb r.expires_at env.now) (lapse_request env cal ch user_id id) _ db
        (λ _. lapse_request-Free db free) λ _. claim_request-Free pin r db free

  -- Take a request that is not in progress, if it is there at all. `confirmRequest` either returns
  -- a confirmed request or raises, and in both cases, whichever step of the payment failed, leaves
  -- the request not in progress, so that it can be tried again or is decided.
  pub confirm_request-Free :
      (pin : Option Text) (db : Db)
      → Free id db
      → Post (Free id) (Confirmed id) (confirm_request env cal ch user_id id pin db)
  unfolding confirm_request ensure
  confirm_request-Free pin db free = Post-check _ _ _ db free λ _. Post-gets _ _ db (
      Post-or_raise _ _ _ db free λ r _. Post-check _ _ _ db free λ _.
        Post-branch (is_confirmed r.status) (pure r) _ db (λ done. Post-pure r db (done, free))
          λ _. confirm_open-Free pin r db free)
