-- ===== src/State/Lifecycle/Stable.antt =====
-- core/state.py: a fact about the row of one session, through every call that writes
-- `pending_resumes`, given what the call asks of the fact.
use ctrlrelay.State.Lifecycle.Steps.{Preserved, run-Both}
use ctrlrelay.Base.{
  ◌≡◌, ◌≢◌, refl, Bool, true, false, ◌&&◌, none, some, List, [], ◌∷◌, String, is_none, All,
}
use ctrlrelay.Sqlite.{Conn}
use ctrlrelay.State.Rows.{Db, Pending}
use ctrlrelay.State.Rules.{Keeps, Both}
use ctrlrelay.State.Facts.{
  Fact, update_row-Keeps, update_sessions-Keeps, upsert_row-Keeps, prune_rows-Keeps,
}
use ctrlrelay.State.Pending.{update_row, is_open, answered, taken, expired}
use ctrlrelay.State.Sweep.{is_prunable, may_resume, resumed, noted, asked_on_issue}
use ctrlrelay.State.Lifecycle.{
  Op, ask, park, answer, take, expire, resume, prune, note_issue, note_answer, unnote_answer, run,
}

-- What a call asks of a fact about the row of `sid`: a new question of that session ends it, and a
-- change of the row has to keep it.
abbrev pub Stable : (Pending → Bool) → String → Op → Type 0
Stable q sid (ask _ k _ _ _ _ _) = k ≢ sid
Stable q sid (park _ k _ _ _) = k ≢ sid
Stable q sid (answer now k text source by ref) =
    (x : Pending)
    → k ≡ sid
    → q x ≡ true
    → is_open x ≡ true
    → q (answered now text source by ref x) ≡ true
Stable q sid (take now k text) =
    (x : Pending)
    → k ≡ sid
    → q x ≡ true
    → (is_open x && is_none x.resumed_at) ≡ true
    → q (taken now text x) ≡ true
Stable q sid (expire now k reason) =
    (x : Pending) → k ≡ sid → q x ≡ true → is_open x ≡ true → q (expired now reason x) ≡ true
Stable q sid (resume now k at given) =
    (x : Pending) → k ≡ sid → q x ≡ true → may_resume at given x ≡ true → q (resumed now x) ≡ true
Stable q sid (prune ts) = (x : Pending) → q x ≡ true → is_prunable ts x ≡ false
Stable q sid (note_issue k n comment at) =
    (x : Pending) → q x ≡ true → q (asked_on_issue n comment at x) ≡ true
Stable q sid (note_answer now k at) = (x : Pending) → q x ≡ true → q (noted (some now) x) ≡ true
Stable q sid (unnote_answer k at) = (x : Pending) → q x ≡ true → q (noted none x) ≡ true

module _ (q : Pending → Bool) (sid : String) where
  update-Keeps :
      (k : String) (g : Pending → Bool) (f : Pending → Pending)
      → ((x : Pending) → (f x).session_id ≡ x.session_id)
      → ((x : Pending) → k ≡ sid → q x ≡ true → g x ≡ true → q (f x) ≡ true)
      → Keeps (Fact q sid) (update_row k g f)
  update-Keeps k g f same keep = update_row-Keeps q sid k g f same (λ x _. keep x)

  Stable-Preserved : (op : Op) → Stable q sid op → Preserved (Fact q sid) op
  Stable-Preserved (ask now k pipeline repo question held posted) ne = upsert_row-Keeps q sid _ ne
  Stable-Preserved (park now k pipeline repo question) ne =
      (update_sessions-Keeps q sid _ _, upsert_row-Keeps q sid _ ne)
  Stable-Preserved (answer now k _ source by ref) keep = update-Keeps k _ _ (λ x. refl) keep
  Stable-Preserved (take now k _) keep =
      (update-Keeps k _ _ (λ x. refl) keep, update_sessions-Keeps q sid _ _)
  Stable-Preserved (expire now k _) keep = update-Keeps k _ _ (λ x. refl) keep
  Stable-Preserved (resume now k at given) keep = update-Keeps k _ _ (λ x. refl) keep
  Stable-Preserved (prune ts) keep = prune_rows-Keeps q sid ts keep
  Stable-Preserved (note_issue k _ _ _) keep = update-Keeps k _ _ (λ x. refl) (λ x _ h _. keep x h)
  Stable-Preserved (note_answer now k _) keep = update-Keeps k _ _ (λ x. refl) (λ x _ h _. keep x h)
  Stable-Preserved (unnote_answer k _) keep = update-Keeps k _ _ (λ x. refl) (λ x _ h _. keep x h)

  pub run-Fact :
      (ops : List Op)
      → All (Stable q sid) ops
      → (c : Conn Db) → Both (Fact q sid) c
      → Both (Fact q sid) (run ops c)
  run-Fact ops h = run-Both (Fact q sid) ops (each ops h)
    where
      each : (ops : List Op) → All (Stable q sid) ops → All (Preserved (Fact q sid)) ops
      each [] h = tt
      each (op ∷ ops) (h, hs) = (Stable-Preserved op h, each ops hs)
