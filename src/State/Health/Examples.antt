-- ===== src/State/Health/Examples.antt =====
-- core/state.py: the theorems on the alert latch at concrete tables.
use ctrlrelay.Base.{
  ◌*◌, ◌+◌, ◌≡◌, refl, Bool, true, false, none, some, List, [], ◌∷◌, ℕ, String, arith, All,
  if◌then◌else◌, ◌==◌,
}
use ctrlrelay.Sqlite.{Conn, ok, write, commit}
use ctrlrelay.State.Rows.{Db, Health}
use ctrlrelay.State.Health.{
  mark_dispatch_alert_delivered, record_dispatch_failure, reset_dispatch_failures, update_health,
}
use ctrlrelay.State.Health.Latch.{failed, swept, alerts, lease_excludes, delivery_silences}
use ctrlrelay.State.Health.Count.{failures, alert_at_threshold}

-- Three failures, and the right to one alert taken at 100.
abbrev claimed_health : Health
claimed_health = record {
  consecutive_failures = 3;
  alerted_at = some 100;
  alert_claim_token = some "t1";
  alert_delivered_at = none;
  last_failure_at = some 100;
  last_success_at = none;
}

abbrev claimed_db : Db
claimed_db = record {
  sessions = [];
  repo_locks = [];
  pending_resumes = [];
  dispatch_health = some claimed_health;
  issue_finishes = [];
  pr_watches = [];
}

abbrev conn_of : List Bool → Conn Db
conn_of busy = record {
  saved = claimed_db;
  current = claimed_db;
  in_transaction = false;
  busy = busy;
}

lease_excludes_example :
    All
      (λ alert. alert ≡ none)
      (alerts (failed 3 60 110 "t2" ∷ swept 60 159 "t3" ∷ []) (conn_of (false ∷ true ∷ [])))
lease_excludes_example =
    lease_excludes 100 (failed 3 60 110 "t2" ∷ swept 60 159 "t3" ∷ []) (conn_of (false ∷ true ∷ []))
      (record { saved = refl; current = refl }) (omega arith, (omega arith, tt))

delivery_silences_example :
    All
      (λ alert. alert ≡ none)
      (alerts
        (failed 3 60 900 "t2" ∷ swept 60 950 "t3" ∷ [])
        (mark_dispatch_alert_delivered 105 (some "t1") (conn_of [])).1)
unfolding mark_dispatch_alert_delivered write commit update_health
delivery_silences_example =
    delivery_silences 105 "t1" (conn_of []) (failed 3 60 900 "t2" ∷ swept 60 950 "t3" ∷ []) refl
      refl

abbrev numbered : ℕ → String
numbered n = if n == 2 then "third" else "early"

-- Two hours between one failure and the next.
abbrev every_two_hours : ℕ → ℕ
every_two_hours k = 1000 + k * 7200

alert_at_threshold_example :
    (record_dispatch_failure 3 60
      (every_two_hours 2)
      (numbered 2)
      (failures 3 60 every_two_hours numbered 2 (reset_dispatch_failures 7 (conn_of [])).1)).0
    ≡ ok (3, some "third")
alert_at_threshold_example =
    alert_at_threshold 3 60 7 every_two_hours numbered 2 (conn_of []) refl refl (omega arith)
