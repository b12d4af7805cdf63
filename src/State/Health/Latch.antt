-- ===== src/State/Health/Latch.antt =====
-- core/state.py: one alert for one outage. What an alert that was delivered, or is being delivered,
-- leaves to the others.
use ctrlrelay.Base.{
  [], ◌∷◌, List, All, num_is, ◌+◌, ◌&&◌, ◌∷◌, ◌<◌, is_some, List, ℕ, ◌≡◌, refl, Bool, true, false,
  Option, none, some, arith, String,
}
use ctrlrelay.Sqlite.{raised, ok, Conn, Outcome, commit, write}
use ctrlrelay.State.Rows.{Db, Health}
use ctrlrelay.State.Rules.{Both}
use ctrlrelay.State.Triples.{Returns}
use ctrlrelay.State.Health.{
  claim_dispatch_alert, record_dispatch_failure, mark_dispatch_alert_delivered, may_claim_alert,
  update_health,
}
use ctrlrelay.State.Health.Rights.{HealthFact, failure-Triple, sweep-Triple, deliver-Triple}

-- What the relay does about its own health: a failed dispatch, a sweep that failed everywhere, and
-- the report that an alert reached the operator. Each claims the right to one alert, or does not.
pub data HealthOp : Type 0 where
  failed : (threshold lease now : ℕ) (token : String) → HealthOp
  swept : (lease now : ℕ) (token : String) → HealthOp
  delivered : (now : ℕ) (token : Option String) → HealthOp

abbrev pub granted : {A : Type 0} → (A → Option String) → Outcome A → Option String
granted f (ok a) = f a
granted f (raised e) = none

unfoldable pub step_health : HealthOp → Conn Db → Option String × Conn Db
step_health (failed threshold lease now token) c =
    let r = record_dispatch_failure threshold lease now token c in (granted (λ x. x.1) r.0, r.1)
step_health (swept lease now token) c =
    let r = claim_dispatch_alert lease now token c in (granted (λ x. x) r.0, r.1)
step_health (delivered now token) c =
    let r = mark_dispatch_alert_delivered now token c in (none, r.1)

-- The alerts that the calls were given the right to send.
pub alerts : List HealthOp → Conn Db → List (Option String)
alerts [] c = []
alerts (op ∷ ops) c = let (alert, c') = step_health op c in alert ∷ alerts ops c'

granted-none :
    {A : Type 0} (f : A → Option String) (o : Outcome A)
    → Returns (λ a. f a ≡ none) o
    → granted f o ≡ none
granted-none f (ok a) h = h
granted-none f (raised e) h = refl

-- An alert of this outage reached the operator.
abbrev pub is_delivered : Health → Bool
is_delivered h = is_some h.alert_delivered_at

-- The right to send one was taken at this time.
abbrev pub is_claimed_at : ℕ → Health → Bool
is_claimed_at t h = is_some h.alert_claim_token && num_is h.alerted_at t

pub step-delivered :
    (op : HealthOp) (c : Conn Db)
    → Both (HealthFact is_delivered) c
    → ((step_health op c).0 ≡ none) × Both (HealthFact is_delivered) (step_health op c).1
unfolding step_health may_claim_alert
step-delivered (failed threshold lease now token) c b =
    let (b', r) =
      failure-Triple is_delivered lease now token (λ x h. ground arith) threshold (λ x h. h) c b in
    (granted-none (λ x. x.1) _ r, b')
step-delivered (swept lease now token) c b =
    let (b', r) = sweep-Triple is_delivered lease now token (λ x h. ground arith) c b in
    (granted-none (λ x. x) _ r, b')
step-delivered (delivered now token) c b =
    (refl, (deliver-Triple is_delivered now token (λ x h. refl) c b).0)

-- A call before the claim's lease is over.
abbrev pub Within : ℕ → HealthOp → Type 0
Within t (failed threshold lease now token) = now < t + lease
Within t (swept lease now token) = now < t + lease
Within t (delivered now token) = Unit

step-claimed :
    (t : ℕ) (op : HealthOp) (c : Conn Db)
    → Within t op
    → Both (HealthFact (is_claimed_at t)) c
    → ((step_health op c).0 ≡ none) × Both (HealthFact (is_claimed_at t)) (step_health op c).1
unfolding step_health may_claim_alert
step-claimed t (failed threshold lease now token) c w b =
    let (b', r) =
      failure-Triple (is_claimed_at t) lease now token (λ x h. ground arith) threshold (λ x h. h) c
        b in
    (granted-none (λ x. x.1) _ r, b')
step-claimed t (swept lease now token) c w b =
    let (b', r) = sweep-Triple (is_claimed_at t) lease now token (λ x h. ground arith) c b in
    (granted-none (λ x. x) _ r, b')
step-claimed t (delivered now token) c w b =
    (refl, (deliver-Triple (is_claimed_at t) now token (λ x h. h) c b).0)

-- A claim is a lease: while it runs, no call of any process that shares the database is given the
-- right to send an alert, in any order and whatever the locked database refuses.
pub lease_excludes :
    (t : ℕ) (ops : List HealthOp) (c : Conn Db)
    → Both (HealthFact (is_claimed_at t)) c
    → All (Within t) ops
    → All (λ alert. alert ≡ none) (alerts ops c)
unfolding alerts
lease_excludes t [] c b h = tt
lease_excludes t (op ∷ ops) c b (h, hs) =
    let (silent, b') = step-claimed t op c h b in
    (silent, lease_excludes t ops (step_health op c).1 b' hs)

delivered_silences :
    (ops : List HealthOp) (c : Conn Db)
    → Both (HealthFact is_delivered) c
    → All (λ alert. alert ≡ none) (alerts ops c)
unfolding alerts
delivered_silences [] c b = tt
delivered_silences (op ∷ ops) c b =
    let (silent, b') = step-delivered op c b in
    (silent, delivered_silences ops (step_health op c).1 b')

pub delivery-Both :
    (now : ℕ) (token : String) (c : Conn Db)
    → c.in_transaction ≡ false
    → (mark_dispatch_alert_delivered now (some token) c).0 ≡ ok true
    → Both (HealthFact is_delivered) (mark_dispatch_alert_delivered now (some token) c).1
unfolding mark_dispatch_alert_delivered write commit update_health
delivery-Both now token c closed h = record { saved = ground arith; current = ground arith }

-- One message for one outage. Once a delivery was recorded, called with no transaction open, no
-- later failure and no later sweep is given the right to send another alert, in any order and
-- whatever the locked database refuses, until a success resets the row.
pub delivery_silences :
    (now : ℕ) (token : String) (c : Conn Db) (ops : List HealthOp)
    → c.in_transaction ≡ false
    → (mark_dispatch_alert_delivered now (some token) c).0 ≡ ok true
    → All (λ alert. alert ≡ none) (alerts ops (mark_dispatch_alert_delivered now (some token) c).1)
delivery_silences now token c ops closed h =
    delivered_silences ops _ (delivery-Both now token c closed h)
