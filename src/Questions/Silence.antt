-- ===== src/Questions/Silence.antt =====
-- core/question_expiry.py: how long a question is held back, and from what.
use mathlib.Core.List.{Memᴰ}
use ctrlrelay.Base.{
  ℕ, ◌+◌, ◌*◌, ◌≡◌, ◌≢◌, ◌≤◌, ◌<◌, refl, sym, ◌∙◌, Bool, true, String, Option, none, some, List, [],
  ◌∷◌, arith, str_eq, leb, count, Bool-cases, inl, inr, eq_iff,
}
use ctrlrelay.Base.Members.{mem-select_inv, mem-sort_by_inv}
use ctrlrelay.State.Rows.{Pending, Db}
use ctrlrelay.State.Sweep.{list_pending_resumes_for_repo}
use ctrlrelay.Questions.History.{
  Texts, same_substance, is_posted, is_other, matching, unanswered_asks, latest_created,
}
use ctrlrelay.Questions.Hold.{
  schedule_slack_seconds, day, is_miss, QuestionHold, hold_of, find_question_hold,
}

count-none : {A : Type 0} (p : A → Bool) (xs : List A) → xs ≡ [] → count p xs ≡ 0
unfolding count
count-none p xs e = rw e refl

-- The latest time is that of one of the rows.
latest-mem :
    (xs : List Pending) → xs ≢ [] → (r : Pending) × Memᴰ r xs × (r.created_at ≡ latest_created xs)
unfolding latest_created
latest-mem [] ne = absurd (ne refl)
latest-mem (r ∷ []) ne = (r, Memᴰ.head refl, omega arith)
latest-mem (r ∷ s ∷ rs) ne =
    let (x, m, e) = latest-mem (s ∷ rs) (λ h. cc) in
    elim (Bool-cases (leb (latest_created (s ∷ rs)) r.created_at)) [
      | inl le ↦ (r, Memᴰ.head refl, ground arith)
      | inr gt ↦ (x, Memᴰ.tail m, ground (arith, e))
    ]

hold_of-bounds :
    (now misses last : ℕ) (h : QuestionHold)
    → hold_of now misses last ≡ some h
    → (misses ≢ 0)
      × (h.last_posted_at ≡ last)
      × (now < h.next_post_at)
      × (h.next_post_at + schedule_slack_seconds ≤ last + 7 * day)
      × (last + day ≤ h.next_post_at + schedule_slack_seconds)
hold_of-bounds now misses last h e = ground arith

-- A post of the question in the repository that the operator saw, by another session.
abbrev pub IsPost : Texts → String → String → Option String → Pending → Type 0
IsPost texts repo question exclude r =
    (r.repo ≡ repo)
    × (same_substance texts question r.question ≡ true)
    × (is_other exclude r ≡ true)
    × (r.held_until ≡ none)
    × (is_posted r ≡ true)

mem-asks :
    (texts : Texts) (repo question : String) (exclude : Option String) (d : Db) {r : Pending}
    → Memᴰ r (unanswered_asks texts repo question exclude d)
    → Memᴰ r d.pending_resumes × IsPost texts repo question exclude r
unfolding unanswered_asks matching list_pending_resumes_for_repo
mem-asks texts repo question exclude d {r} m =
    let (m₁, asked) = mem-select_inv _ _ {x = r} m in
    let (m₂, same) =
      mem-select_inv (λ (x : Pending). same_substance texts question x.question) _ {x = r} m₁ in
    let (m₃, here) =
      mem-select_inv (λ (x : Pending). str_eq x.repo repo) d.pending_resumes {x = r}
        (mem-sort_by_inv _ _ {x = r} m₂) in
    (
      m₃,
      (
        (eq_iff r.repo repo).0 here,
        same,
        ground (arith, asked),
        ground (arith, asked),
        ground (arith, asked),
      ),
    )

-- A hold is counted from a post and ends. Where a question is held back, the time it is counted from
-- is that of a post of the same question in the repository, by another session, that was not held
-- back and did not fail to reach the operator; the hold is not over, and it ends between one day and
-- seven days after that post, less the slack of six hours. So no question is silenced for good: seven
-- days, less the slack, after its last post that reached the operator it is not held back.
pub hold_is_bounded :
    (texts : Texts) (repo question : String) (exclude : Option String) (now : ℕ) (d : Db)
    (h : QuestionHold)
    → find_question_hold texts repo question exclude now d ≡ some h
    → ((r : Pending) × Memᴰ r d.pending_resumes
        × IsPost texts repo question exclude r
        × (r.created_at ≡ h.last_posted_at))
      × (now < h.next_post_at)
      × (h.next_post_at + schedule_slack_seconds ≤ h.last_posted_at + 7 * day)
      × (h.last_posted_at + day ≤ h.next_post_at + schedule_slack_seconds)
unfolding find_question_hold
hold_is_bounded texts repo question exclude now d h e =
    let asks = unanswered_asks texts repo question exclude d in
    let (some_miss, last, running, most, least) =
      hold_of-bounds now (count (is_miss now) asks) (latest_created asks) h e in
    let (r, m, latest) =
      latest-mem asks (λ none_asked. some_miss (count-none (is_miss now) asks none_asked)) in
    let (m', post) = mem-asks texts repo question exclude d {r = r} m in
    ((r, m', post, latest ∙ sym last), running, rw last most, rw last least)
