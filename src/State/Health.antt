-- ===== src/State/Health.antt =====
-- core/state.py: whether the relay can run a worker at all, as one row (`dispatch_health`). A token
-- that the code draws at random (`uuid4`) is an argument.
pub mod Rights
pub mod Latch
pub mod Count
mod Examples
use ctrlrelay.Base.{
  not, ℕ, ◌+◌, Bool, true, false, Option, none, some, String, if◌then◌else◌, leb, ltb, text_is,
  is_some,
}
use ctrlrelay.Sqlite.{
  Error, M, ◌>>=◌, ◌>>◌, pure, query, write, commit, begin_immediate, throw, on_error, and_then,
  when,
}
use ctrlrelay.State.Rows.{Health, Db}
use ctrlrelay.State.Sessions.{undo_if}

abbrev fresh_health : Health
fresh_health = record {
  consecutive_failures = 0;
  alerted_at = none;
  alert_claim_token = none;
  alert_delivered_at = none;
  last_failure_at = none;
  last_success_at = none;
}

-- INSERT OR IGNORE INTO dispatch_health.
unfoldable pub insert_health : Db → Option (ℕ × Db)
insert_health d = elim d.dispatch_health [
  | none ↦ some (1, record d { dispatch_health = some fresh_health })
  | some h ↦ some (0, d)
]

-- UPDATE dispatch_health SET … WHERE id = 1 AND guard.
unfoldable pub update_health : (Health → Bool) → (Health → Health) → Db → Option (ℕ × Db)
update_health guard f d = elim d.dispatch_health [
  | none ↦ some (0, d)
  | some h ↦ if guard h then some (1, record d { dispatch_health = some (f h) }) else some (0, d)
]

abbrev pub always : Health → Bool
always h = true

-- `_begin_immediate`, the commit and the rollback that the writers put round their statements: a
-- transaction that is already open is joined and left to its owner.
abbrev pub transaction_unless : {A : Type 0} → Bool → M Db A → M Db A
transaction_unless true body c = body c
transaction_unless false body c =
    and_then (begin_immediate c) (λ _. on_error (do a ← body; commit; pure a) (undo_if true))

abbrev pub own_transaction : {A : Type 0} → M Db A → M Db A
own_transaction body c = transaction_unless c.in_transaction body c

unfoldable pub dispatch_failure_count : Db → ℕ
dispatch_failure_count d = elim d.dispatch_health [ none ↦ 0 | some h ↦ h.consecutive_failures ]

-- `_may_claim_alert`: nothing was delivered for this outage, and no claim is live.
unfoldable pub may_claim_alert : ℕ → ℕ → Health → Bool
may_claim_alert now lease_seconds h =
    if is_some h.alert_delivered_at
    then false
    else if is_some h.alert_claim_token
    then elim h.alerted_at [ none ↦ true | some held_since ↦ leb (held_since + lease_seconds) now ]
    else true

abbrev pub one_more_failure : ℕ → Health → Health
one_more_failure now h = record h {
  consecutive_failures = h.consecutive_failures + 1;
  last_failure_at = some now;
}

abbrev pub claimed_by : ℕ → String → Health → Health
claimed_by now token h = record h { alerted_at = some now; alert_claim_token = some token }

abbrev pub recovered : ℕ → Health → Health
recovered now h = record h {
  consecutive_failures = 0;
  alerted_at = none;
  alert_claim_token = none;
  alert_delivered_at = none;
  last_success_at = some now;
}

-- The row, which the insertion has made sure of.
abbrev pub read_health : Db → Health
read_health d = elim d.dispatch_health [ none ↦ fresh_health | some h ↦ h ]

-- The claim, where the right to it is there.
claim_if : Bool → ℕ → String → M Db (Option String)
claim_if false now token = pure none
claim_if true now token = do write (update_health always (claimed_by now token)); pure (some token)

-- The comparison and the claim, on the row as the increment left it.
unfoldable pub claim_after : ℕ → ℕ → ℕ → String → Health → M Db (ℕ × Option String)
unfolding claim_if
claim_after threshold lease_seconds now token h = do
  claimed ←
      claim_if
        (if leb threshold h.consecutive_failures
          then may_claim_alert now lease_seconds h
          else false)
        now token
  pure (h.consecutive_failures, claimed)

unfoldable pub failure_body : ℕ → ℕ → ℕ → String → M Db (ℕ × Option String)
unfolding claim_after
failure_body threshold lease_seconds now token = do
  write insert_health
  write (update_health always (one_more_failure now))
  h ← query read_health
  claim_after threshold lease_seconds now token h

unfoldable pub record_dispatch_failure : ℕ → ℕ → ℕ → String → M Db (ℕ × Option String)
unfolding failure_body
record_dispatch_failure threshold lease_seconds now token =
    if ltb threshold 1
    then throw Error.value_error
    else own_transaction (failure_body threshold lease_seconds now token)

reset_body : ℕ → M Db ℕ
reset_body now = do
  write insert_health
  h ← query read_health
  write (update_health always (recovered now))
  pure h.consecutive_failures

unfoldable pub reset_dispatch_failures : ℕ → M Db ℕ
unfolding reset_body
reset_dispatch_failures now = own_transaction (reset_body now)

claim_body : ℕ → ℕ → String → M Db (Option String)
unfolding claim_if
claim_body lease_seconds now token = do
  write insert_health
  h ← query read_health
  claim_if (may_claim_alert now lease_seconds h) now token

unfoldable pub claim_dispatch_alert : ℕ → ℕ → String → M Db (Option String)
unfolding claim_body
claim_dispatch_alert lease_seconds now token = own_transaction (claim_body lease_seconds now token)

delivered_with : ℕ → String → M Db Bool
delivered_with now token c =
    (do
      n ← write (
          update_health (λ h. text_is h.alert_claim_token token)
            (λ h. record h { alert_delivered_at = some now }))
      when (not c.in_transaction) commit
      pure (ltb 0 n))
      c

unfoldable pub mark_dispatch_alert_delivered : ℕ → Option String → M Db Bool
unfolding delivered_with
mark_dispatch_alert_delivered now none = pure false
mark_dispatch_alert_delivered now (some token) = delivered_with now token
