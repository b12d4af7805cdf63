-- ===== src/Questions/Hold.antt =====
-- core/question_expiry.py: `find_question_hold`, the back-off of a question that nobody answered.
use ctrlrelay.Base.{
  ℕ, ◌+◌, ◌-◌, ◌*◌, Bool, true, false, String, Option, none, some, text_is, ltb, leb, count,
  if◌then◌else◌,
}
use ctrlrelay.State.Rows.{Pending, Db}
use ctrlrelay.Questions.History.{Texts, unanswered_asks, latest_created}

abbrev pub schedule_slack_seconds : ℕ
schedule_slack_seconds = 21600

abbrev pub day : ℕ
day = 86400

-- `BACKOFF_DAYS[min(misses, len(BACKOFF_DAYS)) - 1]`, for one miss or more.
abbrev pub backoff_days : ℕ → ℕ
backoff_days misses =
    if leb misses 1 then 1 else if leb misses 2 then 2 else if leb misses 3 then 4 else 7

pub record QuestionHold : Type 0 where
  pub missed_posts : ℕ
  pub last_posted_at : ℕ
  pub next_post_at : ℕ

-- `_is_miss`; `created_at > now - slack` with the slack on the other side.
unfoldable pub is_miss : ℕ → Pending → Bool
is_miss now r =
    if ltb now (r.created_at + schedule_slack_seconds)
    then false
    else elim r.expired_at [ none ↦ true | some t ↦ text_is r.expired_reason "ttl" ]

abbrev pub hold_until : ℕ → ℕ → ℕ → Option QuestionHold
hold_until now misses last_posted =
    let next_post_at = last_posted + backoff_days misses * day - schedule_slack_seconds in
    if leb next_post_at now
    then none
    else some (record {
      missed_posts = misses;
      last_posted_at = last_posted;
      next_post_at = next_post_at;
    })

abbrev pub hold_of : ℕ → ℕ → ℕ → Option QuestionHold
hold_of now misses last_posted = if leb misses 0 then none else hold_until now misses last_posted

unfoldable pub find_question_hold :
    Texts → String → String → Option String → ℕ → Db → Option QuestionHold
find_question_hold texts repo question exclude now d =
    let posted = unanswered_asks texts repo question exclude d in
    hold_of now (count (is_miss now) posted) (latest_created posted)
