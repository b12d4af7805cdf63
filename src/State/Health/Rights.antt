-- ===== src/State/Health/Rights.antt =====
-- core/state.py: where the right to send an alert is not there, no call takes it, and each call keeps
-- the reason.
use ctrlrelay.Base.{
  if◌then◌else◌, ltb, not, ltb, not, inr, inl, Bool-cases, ℕ, ◌≡◌, refl, Bool, true, false, Option,
  none, some, arith, String,
}
use ctrlrelay.Base.Keyed.{holds}
use ctrlrelay.Sqlite.{Error, throw, commit, query, write}
use ctrlrelay.State.Rows.{Db, Health}
use ctrlrelay.State.Rules.{Keeps}
use ctrlrelay.State.Triples.{
  commit-Triple, query-Triple, own_transaction-Triple, when-Triple, Triple, Any, bind-Triple,
  write-Triple, pure-Triple,
}
use ctrlrelay.State.Health.{
  claim_after, own_transaction, failure_body, one_more_failure, fresh_health, claim_dispatch_alert,
  record_dispatch_failure, read_health, mark_dispatch_alert_delivered, may_claim_alert,
  insert_health, update_health, always, claim_if,
}

-- The row is there and passes the test.
abbrev pub HealthFact : (Health → Bool) → Db → Type 0
HealthFact q d = holds q d.dispatch_health ≡ true

module _ (q : Health → Bool) where
  insert-Keeps : Keeps (HealthFact q) insert_health
  unfolding insert_health
  insert-Keeps d h = at d d.dispatch_health refl h
    where
      at :
          (d : Db) (o : Option Health)
          → d.dispatch_health ≡ o
          → HealthFact q d
          → (n : ℕ) × (d' : Db) × (insert_health d ≡ some (n, d')) × HealthFact q d'
      at d none e h = absurd (ground (arith, e))
      at d (some x) e h = (0, d, ground (arith, e), h)

  update-Keeps :
      (g : Health → Bool) (f : Health → Health)
      → ((x : Health) → q x ≡ true → g x ≡ true → q (f x) ≡ true)
      → Keeps (HealthFact q) (update_health g f)
  unfolding update_health
  update-Keeps g f keep d h = at d.dispatch_health refl
    where
      at :
          (o : Option Health)
          → d.dispatch_health ≡ o
          → (n : ℕ) × (d' : Db) × (update_health g f d ≡ some (n, d')) × HealthFact q d'
      at none e = absurd (ground (arith, e))
      at (some x) e = elim (Bool-cases (g x)) [
        | inl hit ↦ (
          1,
          record d { dispatch_health = some (f x) },
          ground (arith, e, hit),
          keep x (ground (arith, e)) hit,
        )
        | inr miss ↦ (0, d, ground (arith, e, miss), h)
      ]

  -- Where the right to an alert is not there, none is claimed.
  claim_if-none :
      (b : Bool) (now : ℕ) (token : String)
      → b ≡ false
      → Triple (HealthFact q) (claim_if b now token) (λ o. o ≡ none)
  unfolding claim_if
  claim_if-none false now token e = pure-Triple (HealthFact q) none (λ o. o ≡ none) refl
  claim_if-none true now token e = cc

  read-Triple : Triple (HealthFact q) (query read_health) (λ h. q h ≡ true)
  read-Triple =
      query-Triple (HealthFact q) read_health (λ h. q h ≡ true) (λ d h. at d.dispatch_health h)
    where
      at :
          (o : Option Health)
          → holds q o ≡ true
          → q (elim o [ none ↦ fresh_health | some h ↦ h ]) ≡ true
      at none h = cc
      at (some x) h = h

  insert-Triple : Triple (HealthFact q) (write insert_health) Any
  insert-Triple = write-Triple (HealthFact q) insert_health insert-Keeps

  module _ (lease now : ℕ) (token : String)
      (blocked : (x : Health) → q x ≡ true → may_claim_alert now lease x ≡ false) where
    pub failure-Triple :
        (threshold : ℕ)
        → ((x : Health) → q x ≡ true → q (one_more_failure now x) ≡ true)
        → Triple
            (HealthFact q)
            (record_dispatch_failure threshold lease now token)
            (λ r. r.1 ≡ none)
    unfolding record_dispatch_failure claim_after failure_body
    failure-Triple threshold counts = guarded_by (ltb threshold 1)
      where
        rest :
            (h : Health)
            → q h ≡ true
            → Triple (HealthFact q) (claim_after threshold lease now token h) (λ r. r.1 ≡ none)
        rest h good =
            bind-Triple (HealthFact q) {B = ℕ × Option String} _ _ (λ o. o ≡ none) (λ r. r.1 ≡ none)
              (claim_if-none _ now token (ground (arith, blocked h good))) (λ claimed e c b. (b, e))

        body : Triple (HealthFact q) (failure_body threshold lease now token) (λ r. r.1 ≡ none)
        body =
            bind-Triple (HealthFact q) (write insert_health) _ Any (λ r. r.1 ≡ none) insert-Triple
              λ _ _.
                bind-Triple (HealthFact q) (write (update_health always (one_more_failure now))) _
                  Any (λ r. r.1 ≡ none)
                  (write-Triple (HealthFact q) _ (update-Keeps always _ (λ x h _. counts x h)))
                  λ _ _.
                    bind-Triple (HealthFact q) (query read_health) _ (λ h. q h ≡ true)
                      (λ r. r.1 ≡ none) read-Triple rest

        guarded_by :
            (b : Bool)
            → Triple
                (HealthFact q)
                (if b
                  then throw Error.value_error
                  else own_transaction (failure_body threshold lease now token))
                (λ r. r.1 ≡ none)
        guarded_by true c h = (h, tt)
        guarded_by false c h = own_transaction-Triple (HealthFact q) _ (λ r. r.1 ≡ none) body c h

    pub sweep-Triple : Triple (HealthFact q) (claim_dispatch_alert lease now token) (λ o. o ≡ none)
    unfolding claim_dispatch_alert
    sweep-Triple =
        own_transaction-Triple (HealthFact q) _ (λ o. o ≡ none)
          (bind-Triple (HealthFact q) (write insert_health) _ Any (λ o. o ≡ none) insert-Triple
            λ _ _.
              bind-Triple (HealthFact q) (query read_health) _ (λ h. q h ≡ true) (λ o. o ≡ none)
                read-Triple (λ h good. claim_if-none _ now token (blocked h good)))

  pub deliver-Triple :
      (now : ℕ) (token : Option String)
      → ((x : Health) → q x ≡ true → q (record x { alert_delivered_at = some now }) ≡ true)
      → Triple (HealthFact q) (mark_dispatch_alert_delivered now token) Any
  unfolding mark_dispatch_alert_delivered
  deliver-Triple now none keep c h = (h, tt)
  deliver-Triple now (some token) keep c h =
      bind-Triple (HealthFact q) {A = ℕ} {B = Bool} _ _ Any Any
        (write-Triple (HealthFact q) _ (update-Keeps _ _ (λ x h _. keep x h)))
        (λ n _.
          bind-Triple (HealthFact q) {A = Unit {0}} {B = Bool} _ _ Any Any
            (when-Triple (HealthFact q) (not c.in_transaction) commit
              (commit-Triple (HealthFact q)))
            (λ _ _. pure-Triple (HealthFact q) (ltb 0 n) Any tt))
        c h
