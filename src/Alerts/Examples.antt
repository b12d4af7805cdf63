-- ===== src/Alerts/Examples.antt =====
-- core/dispatch_health.py: the theorems at concrete tables.
use ctrlrelay.Base.{ℕ, ◌≡◌, ◌≤◌, refl, true, false, none, some, [], ◌∷◌, All}
use ctrlrelay.Base.Keyed.{holds}
use ctrlrelay.Sqlite.{Conn, write, commit, begin_immediate}
use ctrlrelay.State.Rows.{Db, Health}
use ctrlrelay.State.Health.{
  dispatch_failure_count, mark_dispatch_alert_delivered, record_dispatch_failure,
  claim_dispatch_alert, insert_health, update_health, may_claim_alert,
}
use ctrlrelay.Alerts.Dispatch.{Reason, DispatchHealth, record_failure, record_sweep}
use ctrlrelay.Alerts.Backed.{claims_alert, failure_alert_backed, sweep_alert_backed}
use ctrlrelay.Alerts.Silent.{failing, sweeping, alerts_of, one_message_per_outage}

abbrev alert_settings : DispatchHealth
alert_settings = record { threshold = 3; lease_seconds = 60 }

-- Two failures in a row, and nothing claimed.
abbrev two_failures : Health
two_failures = record {
  consecutive_failures = 2;
  alerted_at = none;
  alert_claim_token = none;
  alert_delivered_at = none;
  last_failure_at = some 100;
  last_success_at = none;
}

abbrev conn_with : Health → Conn Db
conn_with h =
    let d : Db = record {
      sessions = [];
      repo_locks = [];
      pending_resumes = [];
      dispatch_health = some h;
      issue_finishes = [];
      pr_watches = [];
    } in
    record { saved = d; current = d; in_transaction = false; busy = [] }

failure_alert_backed_example :
    let d = (record_failure alert_settings 200 "t1" (conn_with two_failures)).1.current in
    (holds (claims_alert 200 (some "t1")) d.dispatch_health ≡ true)
    × (dispatch_failure_count d ≡ 3)
    × (3 ≤ 3)
unfolding record_failure record_dispatch_failure insert_health update_health may_claim_alert write
    commit begin_immediate
failure_alert_backed_example =
    failure_alert_backed alert_settings 200 "t1" (conn_with two_failures)
      (record {
        reason = Reason.consecutive_failures;
        consecutive = 3;
        threshold = 3;
        claim_token = some "t1";
      })
      refl

sweep_alert_backed_example :
    let d = (record_sweep alert_settings 200 "t1" 5 5 (conn_with two_failures)).1.current in
    (1 ≤ 5)
    × (◌≡◌ {A = ℕ} 5 5)
    × (holds (claims_alert 200 (some "t1")) d.dispatch_health ≡ true)
    × (dispatch_failure_count d ≡ 2)
unfolding record_sweep claim_dispatch_alert dispatch_failure_count insert_health update_health
    may_claim_alert write commit begin_immediate
sweep_alert_backed_example =
    sweep_alert_backed alert_settings 200 "t1" 5 5 (conn_with two_failures)
      (record {
        reason = Reason.sweep_all_failed;
        consecutive = 2;
        threshold = 3;
        claim_token = some "t1";
      })
      refl

abbrev claimed_health : Health
claimed_health = record two_failures {
  consecutive_failures = 3;
  alerted_at = some 200;
  alert_claim_token = some "t1";
}

one_message_per_outage_example :
    All
      (λ a. a ≡ none)
      (alerts_of alert_settings
        (failing 900 "t2" ∷ sweeping 950 "t3" 4 4 ∷ [])
        (mark_dispatch_alert_delivered 205 (some "t1") (conn_with claimed_health)).1)
unfolding mark_dispatch_alert_delivered update_health write commit
one_message_per_outage_example =
    one_message_per_outage alert_settings 205 "t1" (conn_with claimed_health)
      (failing 900 "t2" ∷ sweeping 950 "t3" 4 4 ∷ []) refl refl
