-- ===== src/State/Health/Count.antt =====
-- core/state.py: when the run of failed dispatches trips the alert.
use native.Mathlib.Numerals.{add-one}
use ctrlrelay.Base.{
  inr, inl, Bool-cases, subst, if◌then◌else◌, [], ℕ, suc, zero, ◌+◌, ◌<◌, ◌≡◌, true, false, ◌&&◌,
  none, some, arith, String, is_none, ◌==◌,
}
use ctrlrelay.Base.Keyed.{holds}
use ctrlrelay.Sqlite.{ok, Conn, write, commit, begin_immediate}
use ctrlrelay.State.Rows.{Db}
use ctrlrelay.State.Health.{
  insert_health, update_health, record_dispatch_failure, reset_dispatch_failures, may_claim_alert,
}

-- An unlocked database with no transaction open, `k` failures in a row, and nothing announced.
pub record IsRunOf (k : ℕ) (c : Conn Db) : Type 0 where
  pub idle : c.busy ≡ []
  pub closed : c.in_transaction ≡ false
  pub row :
      holds
        (λ h.
          h.consecutive_failures == k
          && is_none h.alert_delivered_at
          && is_none h.alert_claim_token)
        c.current.dispatch_health
      ≡ true

-- A success ends the run, whatever was announced.
reset-IsRunOf :
    (now : ℕ) (c : Conn Db)
    → c.busy ≡ []
    → c.in_transaction ≡ false
    → IsRunOf 0 (reset_dispatch_failures now c).1
unfolding reset_dispatch_failures write commit begin_immediate insert_health update_health
reset-IsRunOf now c idle closed = record {
  idle = ground arith;
  closed = ground arith;
  row = ground arith;
}

-- One failure more, under the threshold.
failure-IsRunOf :
    (k threshold lease now : ℕ) (token : String) (c : Conn Db)
    → IsRunOf k c
    → k + 1 < threshold
    → ((record_dispatch_failure threshold lease now token c).0 ≡ ok (k + 1, none))
      × IsRunOf (k + 1) (record_dispatch_failure threshold lease now token c).1
unfolding record_dispatch_failure write commit begin_immediate insert_health update_health
failure-IsRunOf k threshold lease now token c r h = ground arith

-- The failure that reaches it.
trip :
    (k threshold lease now : ℕ) (token : String) (c : Conn Db)
    → IsRunOf k c
    → threshold ≡ k + 1
    → (record_dispatch_failure threshold lease now token c).0 ≡ ok (k + 1, some token)
unfolding record_dispatch_failure write commit begin_immediate insert_health update_health
    may_claim_alert
trip k threshold lease now token c r h = ground arith

-- `k` failures, each at its time and with its token.
pub failures : (threshold lease : ℕ) → (ℕ → ℕ) → (ℕ → String) → ℕ → Conn Db → Conn Db
failures threshold lease now token zero c = c
failures threshold lease now token (suc k) c =
    (record_dispatch_failure threshold lease (now k) (token k)
      (failures threshold lease now token k c)).1

failures-IsRunOf :
    (threshold lease : ℕ) (now : ℕ → ℕ) (token : ℕ → String) (k : ℕ) (c : Conn Db)
    → IsRunOf 0 c
    → k < threshold
    → IsRunOf k (failures threshold lease now token k c)
unfolding failures
failures-IsRunOf threshold lease now token zero c r h = r
failures-IsRunOf threshold lease now token (suc k) c r h =
    let before = failures-IsRunOf threshold lease now token k c r (omega arith) in
    subst (λ n. IsRunOf n (failures threshold lease now token (suc k) c)) (add-one k)
      (failure-IsRunOf k threshold lease (now k) (token k) _ before (omega arith)).1

-- The alert re-arms and counts right. On an unlocked database with no transaction open, after a
-- success at any time the failures, each at any time, are counted from 1, whatever was claimed or
-- delivered before; none under the threshold is given an alert, and the one that reaches it is, under
-- its own token.
pub alert_at_threshold :
    (threshold lease recovered_at : ℕ) (now : ℕ → ℕ) (token : ℕ → String) (k : ℕ) (c : Conn Db)
    → c.busy ≡ []
    → c.in_transaction ≡ false
    → k < threshold
    → (record_dispatch_failure threshold lease
        (now k)
        (token k)
        (failures threshold lease now token k (reset_dispatch_failures recovered_at c).1)).0
      ≡ ok (k + 1, if k + 1 == threshold then some (token k) else none)
alert_at_threshold threshold lease recovered_at now token k c idle closed h =
    let r =
      failures-IsRunOf threshold lease now token k _ (reset-IsRunOf recovered_at c idle closed) h in
    let last = failures threshold lease now token k (reset_dispatch_failures recovered_at c).1 in
    elim (Bool-cases (k + 1 == threshold)) [
      | inl e ↦ rw e (trip k threshold lease (now k) (token k) last r (ground arith))
      | inr ne ↦ rw ne (failure-IsRunOf k threshold lease (now k) (token k) last r (ground arith)).0
    ]
