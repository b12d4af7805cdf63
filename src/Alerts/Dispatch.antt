-- ===== src/Alerts/Dispatch.antt =====
-- core/dispatch_health.py: `DispatchHealth`, over the alert latch of the state database. The text of
-- an alert is left out.
use ctrlrelay.Base.{ℕ, not, ◌||◌, String, Option, none, some, ltb, ◌==◌, if◌then◌else◌}
use ctrlrelay.Sqlite.{M, ◌>>=◌, ◌>>◌, pure, query}
use ctrlrelay.State.Rows.{Db}
use ctrlrelay.State.Health.{
  dispatch_failure_count, record_dispatch_failure, reset_dispatch_failures, claim_dispatch_alert,
}

pub data Reason : Type 0 where
  consecutive_failures : Reason
  sweep_all_failed : Reason

pub record DispatchAlert : Type 0 where
  pub reason : Reason
  pub consecutive : ℕ
  pub threshold : ℕ
  pub claim_token : Option String

pub record DispatchHealth : Type 0 where
  pub threshold : ℕ
  pub lease_seconds : ℕ

-- `DispatchHealth(…)`, or `ValueError`.
unfoldable pub new_dispatch_health : ℕ → ℕ → Option DispatchHealth
new_dispatch_health threshold lease_seconds =
    if ltb threshold 1 || ltb lease_seconds 1
    then none
    else some (record { threshold = threshold; lease_seconds = lease_seconds })

unfoldable pub record_success : ℕ → M Db (Unit {0})
record_success now = do reset_dispatch_failures now; pure tt

abbrev pub failure_alert : DispatchHealth → ℕ × Option String → Option DispatchAlert
failure_alert health (consecutive, none) = none
failure_alert health (consecutive, some token) = some (record {
  reason = consecutive_failures;
  consecutive = consecutive;
  threshold = health.threshold;
  claim_token = some token;
})

-- `record_failure`; `token` is the one that the claim draws.
unfoldable pub record_failure : DispatchHealth → ℕ → String → M Db (Option DispatchAlert)
record_failure health now token = do
  r ← record_dispatch_failure health.threshold health.lease_seconds now token
  pure (failure_alert health r)

abbrev pub sweep_alert : DispatchHealth → Option String → M Db (Option DispatchAlert)
sweep_alert health none = pure none
sweep_alert health (some token) = do
  consecutive ← query dispatch_failure_count
  pure (
      some (record {
        reason = sweep_all_failed;
        consecutive = consecutive;
        threshold = health.threshold;
        claim_token = some token;
      }))

unfoldable pub record_sweep : DispatchHealth → ℕ → String → ℕ → ℕ → M Db (Option DispatchAlert)
record_sweep health now token total failed =
    if ltb total 1 || not (failed == total) then pure none else (do
      claimed ← claim_dispatch_alert health.lease_seconds now token
      sweep_alert health claimed)
