-- ===== src/Alerts/Backed.antt =====
-- core/dispatch_health.py: an alert says what the database holds.
use ctrlrelay.Base.{
  ℕ, ◌≡◌, ◌≤◌, refl, Bool, true, false, ◌&&◌, String, Option, none, some, arith, is_none, num_is,
  ltb, subst, sym, if◌then◌else◌, eq_refl,
}
use ctrlrelay.Base.Keyed.{holds}
use ctrlrelay.State.Sessions.{undo_if}
use ctrlrelay.Sqlite.{
  throw, Error, M, handled, ◌>>=◌, Outcome, raised, on_error, and_then, pure, ◌>>◌, Conn, ok, write,
  commit, rollback, begin_immediate,
}
use ctrlrelay.State.Sweep.{is_same}
use ctrlrelay.State.Rows.{Db, Health}
use ctrlrelay.State.Health.{
  own_transaction, transaction_unless, dispatch_failure_count, record_dispatch_failure,
  claim_dispatch_alert, insert_health, update_health, failure_body, claim_after, may_claim_alert,
}
use ctrlrelay.Alerts.Dispatch.{
  failure_alert, DispatchAlert, DispatchHealth, record_failure, record_sweep,
}

-- The row carries this claim, taken at this time, and no alert was delivered.
abbrev pub claims_alert : ℕ → Option String → Health → Bool
claims_alert now token h =
    is_same h.alert_claim_token token && num_is h.alerted_at now && is_none h.alert_delivered_at

-- What the body of the transaction leaves, where it grants a claim.
body_backed :
    (threshold lease_seconds now : ℕ) (token claimed : String) (n : ℕ) (c : Conn Db)
    → (failure_body threshold lease_seconds now token c).0 ≡ ok (n, some claimed)
    → let d = (failure_body threshold lease_seconds now token c).1.current in
      (holds (claims_alert now (some claimed)) d.dispatch_health ≡ true)
      × (dispatch_failure_count d ≡ n)
      × (threshold ≤ n)
unfolding failure_body claim_after dispatch_failure_count insert_health update_health
    may_claim_alert write
body_backed threshold lease_seconds now token claimed n c h = ground (arith, eq_refl token)

-- A body that ran in the method's transaction, or in its caller's, and was not undone.
module _ {A : Type 0} (body : M Db A) (a : A) where
  at_body :
      (r : Outcome A × Conn Db)
      → (handled (and_then r (λ b. commit >> pure b)) (undo_if true)).0 ≡ ok a
      → (r.0 ≡ ok a)
        × ((handled (and_then r (λ b. commit >> pure b)) (undo_if true)).1.current ≡ r.1.current)
  unfolding commit rollback
  at_body (ok b, c) h = (ground arith, ground arith)
  at_body (raised e, c) h = absurd (ground arith)

  abbrev Ran : Outcome A × Conn Db → Type 0
  Ran r = (c₁ : Conn Db) × ((body c₁).0 ≡ ok a) × (r.1.current ≡ (body c₁).1.current)

  at_begin :
      (r : Outcome (Unit {0}) × Conn Db)
      → (and_then r (λ _. on_error (do b ← body; commit; pure b) (undo_if true))).0 ≡ ok a
      → Ran (and_then r (λ _. on_error (do b ← body; commit; pure b) (undo_if true)))
  at_begin (raised e, c) h = cc
  at_begin (ok u, c) h = let (e, same) = at_body (body c) h in (c, e, same)

  own_transaction-Ran :
      (c : Conn Db) → (own_transaction body c).0 ≡ ok a → Ran (own_transaction body c)
  own_transaction-Ran c = at c.in_transaction
    where
      at :
          (joined : Bool)
          → (transaction_unless joined body c).0 ≡ ok a
          → Ran (transaction_unless joined body c)
      at true h = (c, h, refl)
      at false h = at_begin (begin_immediate c) h

abbrev IsBacked : ℕ → ℕ → Db → Option String → ℕ → Type 0
IsBacked threshold now d claimed n =
    (holds (claims_alert now claimed) d.dispatch_health ≡ true)
    × (dispatch_failure_count d ≡ n)
    × (threshold ≤ n)

-- An alert on a run of failures is true of the database: where `record_failure` returns one, the row
-- that the connection sees carries its token, claimed now with nothing delivered, the run is as long
-- as the alert says, and at least the threshold.
pub failure_alert_backed :
    (health : DispatchHealth) (now : ℕ) (token : String) (c : Conn Db) (a : DispatchAlert)
    → (record_failure health now token c).0 ≡ ok (some a)
    → let d = (record_failure health now token c).1.current in
      (holds (claims_alert now a.claim_token) d.dispatch_health ≡ true)
      × (dispatch_failure_count d ≡ a.consecutive)
      × (health.threshold ≤ a.consecutive)
unfolding record_failure record_dispatch_failure
failure_alert_backed health now token c a = at_threshold (ltb health.threshold 1)
  where
    body : M Db (ℕ × Option String)
    body = failure_body health.threshold health.lease_seconds now token

    at_result :
        (m : Outcome (ℕ × Option String) × Conn Db)
        → ((n : ℕ) (claimed : String)
            → m.0 ≡ ok (n, some claimed)
            → IsBacked health.threshold now m.1.current (some claimed) n)
        → (and_then m (λ r. pure (failure_alert health r))).0 ≡ ok (some a)
        → IsBacked health.threshold now
            (and_then m (λ r. pure (failure_alert health r))).1.current
            a.claim_token
            a.consecutive
    at_result (raised e, c) k h = cc
    at_result (ok (n, none), c) k h = cc
    at_result (ok (n, some claimed), c) k h = ground (arith, k n claimed refl)

    ran :
        (n : ℕ) (claimed : String)
        → (own_transaction body c).0 ≡ ok (n, some claimed)
        → IsBacked health.threshold now (own_transaction body c).1.current (some claimed) n
    ran n claimed h =
        let (c₁, e, same) = own_transaction-Ran body (n, some claimed) c h in
        subst (λ d. IsBacked health.threshold now d (some claimed) n) (sym same)
          (body_backed health.threshold health.lease_seconds now token claimed n c₁ e)

    at_threshold :
        (bad : Bool)
        → (and_then
            ((if bad then throw Error.value_error else own_transaction body) c)
            (λ r. pure (failure_alert health r))).0
          ≡ ok (some a)
        → IsBacked health.threshold now
            (and_then
              ((if bad then throw Error.value_error else own_transaction body) c)
              (λ r. pure (failure_alert health r))).1.current
            a.claim_token
            a.consecutive
    at_threshold true h = cc
    at_threshold false h = at_result (own_transaction body c) ran h

-- An alert on a sweep is true of the sweep and of the database: where `record_sweep` returns one, at
-- least one repository was in the sweep and all of them failed, and the row that the connection sees
-- carries its token, claimed now with nothing delivered.
pub sweep_alert_backed :
    (health : DispatchHealth) (now : ℕ) (token : String) (total failed : ℕ) (c : Conn Db)
    (a : DispatchAlert)
    → (record_sweep health now token total failed c).0 ≡ ok (some a)
    → let d = (record_sweep health now token total failed c).1.current in
      (1 ≤ total)
      × (failed ≡ total)
      × (holds (claims_alert now a.claim_token) d.dispatch_health ≡ true)
      × (dispatch_failure_count d ≡ a.consecutive)
unfolding record_sweep claim_dispatch_alert dispatch_failure_count insert_health update_health
    may_claim_alert write commit rollback begin_immediate
sweep_alert_backed health now token total failed c a h = ground (arith, eq_refl token)
