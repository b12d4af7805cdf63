-- ===== src/Questions/Examples.antt =====
-- core/question_expiry.py: the theorems at concrete tables.
use mathlib.Core.List.{Memᴰ}
use ctrlrelay.Base.{
  distinct, true, ◌+◌, ◌*◌, ◌≡◌, ◌≤◌, ◌<◌, refl, none, some, List, [], ◌∷◌, arith, any, select,
  sort_by, insert_by, count,
}
use ctrlrelay.Base.Members.{All-mem}
use ctrlrelay.State.Rows.{Pending, Db}
use ctrlrelay.State.Pending.{new_row}
use ctrlrelay.State.Sweep.{list_pending_resumes_for_repo}
use ctrlrelay.Questions.History.{
  Texts, same_substance, find_repeat_history, matching, unanswered_asks, latest_created,
  last_answer,
}
use ctrlrelay.Questions.Hold.{find_question_hold, is_miss, day, schedule_slack_seconds}
use ctrlrelay.Questions.Silence.{IsPost, hold_is_bounded}
use ctrlrelay.Questions.Answered.{answer_resets}

-- Each text cites the pull request 60, and is its own lower case.
abbrev texts : Texts
texts = record { referenced = λ t. "60" ∷ []; normalised = λ t. t }

abbrev asked : Pending
asked = new_row 100000 "s1" "secops" "org/app" "Merge PR #60?" none none

abbrev answered_before : Pending
answered_before = record asked { last_answered_at = some 100500 }

abbrev db_of : List Pending → Db
db_of rows = record {
  sessions = [];
  repo_locks = [];
  pending_resumes = rows;
  dispatch_health = none;
  issue_finishes = [];
  pr_watches = [];
}

hold_is_bounded_example :
    ((r : Pending) × Memᴰ r (asked ∷ [])
      × IsPost texts "org/app" "Is #60 ready?" (some "s2") r
      × (r.created_at ≡ 100000))
    × (130000 < 164800)
    × (164800 + schedule_slack_seconds ≤ 100000 + 7 * day)
    × (100000 + day ≤ 164800 + schedule_slack_seconds)
unfolding find_question_hold unanswered_asks matching list_pending_resumes_for_repo select sort_by
    insert_by same_substance any last_answer count is_miss latest_created
hold_is_bounded_example =
    hold_is_bounded texts "org/app" "Is #60 ready?" (some "s2") 130000 (db_of (asked ∷ []))
      (record { missed_posts = 1; last_posted_at = 100000; next_post_at = 164800 }) refl

-- A newer question of another repository.
abbrev elsewhere : Pending
elsewhere = new_row 120000 "s3" "secops" "org/site" "Merge PR #60?" none none

answer_resets_example :
    (find_question_hold texts "org/app" "Is #60 ready?"
        (some "s1")
        130000
        (db_of (answered_before ∷ elsewhere ∷ []))
      ≡ none)
    × (find_repeat_history texts "org/app" "Is #60 ready?"
          (some "s1")
          (db_of (answered_before ∷ elsewhere ∷ []))
        ≡ none)
unfolding same_substance any
answer_resets_example =
    answer_resets texts "org/app" "Is #60 ready?" (some "s1") 130000
      (db_of (answered_before ∷ elsewhere ∷ [])) answered_before 100500 (Memᴰ.head refl) refl refl
      refl
      (λ x m.
        All-mem
          (λ x.
            x.repo ≡ "org/app"
            → same_substance texts "Is #60 ready?" x.question ≡ true
            → x.created_at ≤ 100500)
          (answered_before ∷ elsewhere ∷ [])
          ((λ _ _. omega arith), ((λ e _. absurd (distinct refl e)), tt)) {x = x} m)
