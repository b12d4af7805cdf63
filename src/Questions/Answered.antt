-- ===== src/Questions/Answered.antt =====
-- core/question_expiry.py: an answer ends the back-off of a question.
use mathlib.Core.List.{Memᴰ}
use ctrlrelay.Base.{
  ℕ, ◌≡◌, ◌≤◌, refl, Bool, true, false, String, Option, none, some, List, [], ◌∷◌, arith, str_eq,
  count, select, max, eq_iff,
}
use ctrlrelay.Base.Members.{mem-select, mem-select_inv, mem-sort_by, mem-sort_by_inv}
use ctrlrelay.State.Rows.{Pending, Db}
use ctrlrelay.State.Sweep.{list_pending_resumes_for_repo}
use ctrlrelay.Questions.History.{
  Texts, same_substance, later_of, row_answered_at, last_answer, is_ask, matching, unanswered_asks,
  find_repeat_history,
}
use ctrlrelay.Questions.Hold.{find_question_hold}

last_answer-ge :
    (xs : List Pending) (r : Pending) (t : ℕ)
    → Memᴰ r xs
    → row_answered_at r ≡ some t
    → (a : ℕ) × (last_answer xs ≡ some a) × (t ≤ a)
unfolding last_answer
last_answer-ge [] r t m e = elim m [ ]
last_answer-ge (x ∷ xs) r t (Memᴰ.head same) e =
    at_rest (row_answered_at x) (last_answer xs) (rw (← same) e)
  where
    at_rest : (o rest : Option ℕ) → o ≡ some t → (a : ℕ) × (later_of o rest ≡ some a) × (t ≤ a)
    at_rest none rest h = cc
    at_rest (some b) none h = (b, refl, ground arith)
    at_rest (some b) (some c) h = (max b c, refl, ground arith)
last_answer-ge (x ∷ xs) r t (Memᴰ.tail m) e =
    let (a, h, le) = last_answer-ge xs r t m e in at_row (row_answered_at x) a h le
  where
    at_row :
        (o : Option ℕ) (a : ℕ)
        → last_answer xs ≡ some a
        → t ≤ a
        → (b : ℕ) × (later_of o (last_answer xs) ≡ some b) × (t ≤ b)
    at_row none a h le = (a, h, le)
    at_row (some c) a h le = (max c a, rw h refl, ground arith)

select-none :
    {A : Type 0} (p : A → Bool) (xs : List A)
    → ((x : A) → Memᴰ x xs → p x ≡ false)
    → select p xs ≡ []
unfolding select
select-none p [] h = refl
select-none p (x ∷ xs) h =
    ground (arith, h x (Memᴰ.head refl), select-none p xs (λ y m. h y (Memᴰ.tail m)))

-- An answer resets both counts. Where a row of the same question in the repository was answered, the
-- asking session's own or one that a later block rewrote included, and no row of that question in that
-- repository was written after that answer, the question is neither held back nor called a repeat.
pub answer_resets :
    (texts : Texts) (repo question : String) (exclude : Option String) (now : ℕ) (d : Db)
    (r : Pending) (t : ℕ)
    → Memᴰ r d.pending_resumes
    → r.repo ≡ repo
    → same_substance texts question r.question ≡ true
    → row_answered_at r ≡ some t
    → ((x : Pending)
        → Memᴰ x d.pending_resumes
        → x.repo ≡ repo
        → same_substance texts question x.question ≡ true
        → x.created_at ≤ t)
    → (find_question_hold texts repo question exclude now d ≡ none)
      × (find_repeat_history texts repo question exclude d ≡ none)
unfolding find_question_hold find_repeat_history unanswered_asks matching
    list_pending_resumes_for_repo count
answer_resets texts repo question exclude now d r t m here same answered early =
    let (a, last, le) = last_answer-ge matches r t in_matches answered in
    let nothing = select-none (is_ask exclude (last_answer matches)) matches (λ x mx.
      let (there, of_it, alike) = from_matches x mx in
      let young = early x there of_it alike in rw last (ground (arith, young, le))) in
    (rw nothing refl, rw nothing refl)
  where
    of_repo : List Pending
    of_repo = list_pending_resumes_for_repo repo d

    matches : List Pending
    matches = select (λ x. same_substance texts question x.question) of_repo

    in_matches : Memᴰ r matches
    in_matches =
        mem-select (λ (x : Pending). same_substance texts question x.question) of_repo
          (mem-sort_by (λ (x : Pending). x.created_at) _
            (mem-select (λ (x : Pending). str_eq x.repo repo) d.pending_resumes m
              ((eq_iff r.repo repo).1 here)))
          same

    from_matches :
        (x : Pending)
        → Memᴰ x matches
        → Memᴰ x d.pending_resumes
          × (x.repo ≡ repo)
          × (same_substance texts question x.question ≡ true)
    from_matches x mx =
        let (m₁, alike) =
          mem-select_inv (λ (y : Pending). same_substance texts question y.question) of_repo {x = x}
            mx in
        let (m₂, of_it) =
          mem-select_inv (λ (y : Pending). str_eq y.repo repo) d.pending_resumes {x = x}
            (mem-sort_by_inv (λ (y : Pending). y.created_at) _ {x = x} m₁) in
        (m₂, (eq_iff x.repo repo).0 of_it, alike)
