-- ===== src/Alerts/Silent.antt =====
-- core/dispatch_health.py: one message for one outage.
use ctrlrelay.Base.{
  ℕ, ◌≡◌, refl, true, false, String, Option, none, some, List, [], ◌∷◌, All, Bool-cases, inl, inr,
  ltb, ◌==◌, ◌||◌, not,
}
use ctrlrelay.Sqlite.{Conn, Outcome, ok, raised, and_then, pure}
use ctrlrelay.State.Rows.{Db}
use ctrlrelay.State.Rules.{Both}
use ctrlrelay.State.Health.{
  record_dispatch_failure, claim_dispatch_alert, mark_dispatch_alert_delivered,
}
use ctrlrelay.State.Health.Rights.{HealthFact}
use ctrlrelay.State.Health.Latch.{
  failed, swept, delivered, granted, step_health, is_delivered, step-delivered, delivery-Both,
}
use ctrlrelay.Alerts.Dispatch.{
  DispatchAlert, DispatchHealth, failure_alert, sweep_alert, record_failure, record_sweep,
}

-- A failed dispatch, a sweep, the report that an alert was delivered.
pub data AlertOp : Type 0 where
  failing : (now : ℕ) (token : String) → AlertOp
  sweeping : (now : ℕ) (token : String) (total failures : ℕ) → AlertOp
  sent : (now : ℕ) (token : Option String) → AlertOp

abbrev pub alert_in : Outcome (Option DispatchAlert) → Option DispatchAlert
alert_in (ok a) = a
alert_in (raised e) = none

unfoldable pub step_alerts : DispatchHealth → AlertOp → Conn Db → Option DispatchAlert × Conn Db
step_alerts health (failing now token) c =
    let (o, c') = record_failure health now token c in (alert_in o, c')
step_alerts health (sweeping now token total failures) c =
    let (o, c') = record_sweep health now token total failures c in (alert_in o, c')
step_alerts health (sent now token) c =
    let (_, c') = mark_dispatch_alert_delivered now token c in (none, c')

-- The alerts that the calls return.
unfoldable pub alerts_of : DispatchHealth → List AlertOp → Conn Db → List (Option DispatchAlert)
alerts_of health [] c = []
alerts_of health (op ∷ ops) c = let (a, c') = step_alerts health op c in a ∷ alerts_of health ops c'

abbrev IsSilent : Option DispatchAlert × Conn Db → Type 0
IsSilent r = (r.0 ≡ none) × Both (HealthFact is_delivered) r.1

failure-IsSilent :
    (health : DispatchHealth) (m : Outcome (ℕ × Option String) × Conn Db)
    → granted (λ x. x.1) m.0 ≡ none
    → Both (HealthFact is_delivered) m.1
    → IsSilent (
      alert_in (and_then m (λ r. pure (failure_alert health r))).0,
      (and_then m (λ r. pure (failure_alert health r))).1,
    )
failure-IsSilent health (ok (n, none), c) g b = (refl, b)
failure-IsSilent health (ok (n, some t), c) g b = cc
failure-IsSilent health (raised e, c) g b = (refl, b)

sweep-IsSilent :
    (health : DispatchHealth) (m : Outcome (Option String) × Conn Db)
    → granted (λ x. x) m.0 ≡ none
    → Both (HealthFact is_delivered) m.1
    → IsSilent (alert_in (and_then m (sweep_alert health)).0, (and_then m (sweep_alert health)).1)
sweep-IsSilent health (ok none, c) g b = (refl, b)
sweep-IsSilent health (ok (some t), c) g b = cc
sweep-IsSilent health (raised e, c) g b = (refl, b)

step-IsSilent :
    (health : DispatchHealth) (op : AlertOp) (c : Conn Db)
    → Both (HealthFact is_delivered) c
    → IsSilent (step_alerts health op c)
unfolding step_alerts record_failure record_sweep step_health
step-IsSilent health (failing now token) c b =
    let (g, b') = step-delivered (failed health.threshold health.lease_seconds now token) c b in
    failure-IsSilent health
      (record_dispatch_failure health.threshold health.lease_seconds now token c) g b'
step-IsSilent health (sweeping now token total failures) c b =
    let (g, b') = step-delivered (swept health.lease_seconds now token) c b in
    elim (Bool-cases (ltb total 1 || not (failures == total))) [
      | inl partial ↦ rw partial (refl, b)
      | inr all_failed ↦
          rw all_failed
            (sweep-IsSilent health (claim_dispatch_alert health.lease_seconds now token c) g b')
    ]
step-IsSilent health (sent now token) c b = (refl, (step-delivered (delivered now token) c b).1)

silent-All :
    (health : DispatchHealth) (ops : List AlertOp) (c : Conn Db)
    → Both (HealthFact is_delivered) c
    → All (λ a. a ≡ none) (alerts_of health ops c)
unfolding alerts_of
silent-All health [] c b = tt
silent-All health (op ∷ ops) c b =
    let (quiet, b') = step-IsSilent health op c b in
    (quiet, silent-All health ops (step_alerts health op c).1 b')

-- The operator is told once. After the delivery of an alert was recorded, with no transaction open,
-- no failed dispatch and no failed sweep returns another alert, in any order and whatever the locked
-- database refuses, as long as no success is recorded.
pub one_message_per_outage :
    (health : DispatchHealth) (now : ℕ) (token : String) (c : Conn Db) (ops : List AlertOp)
    → c.in_transaction ≡ false
    → (mark_dispatch_alert_delivered now (some token) c).0 ≡ ok true
    → All
        (λ a. a ≡ none)
        (alerts_of health ops (mark_dispatch_alert_delivered now (some token) c).1)
one_message_per_outage health now token c ops closed h =
    silent-All health ops _ (delivery-Both now token c closed h)
