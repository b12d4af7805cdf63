-- ===== src/Questions/History.antt =====
-- core/question_expiry.py: the earlier asks of a question since it was last answered. What the
-- regular expressions find in a question's text is an argument: the numbers that it cites, and its
-- text in lower case with its white space collapsed.
use ctrlrelay.Base.{
  ℕ, Bool, true, false, not, ◌&&◌, String, Option, none, some, List, [], ◌∷◌, str_eq, ltb, any,
  select, is_none, length, max, if◌then◌else◌,
}
use ctrlrelay.State.Rows.{Pending, Db}
use ctrlrelay.State.Sweep.{list_pending_resumes_for_repo}

pub record Texts : Type 0 where
  pub referenced : String → List String
  pub normalised : String → String

abbrev pub is_empty : List String → Bool
is_empty [] = true
is_empty (n ∷ ns) = false

abbrev pub share : List String → List String → Bool
share a b = any (λ n. any (str_eq n) b) a

unfoldable pub same_substance : Texts → String → String → Bool
same_substance texts a b =
    let na = texts.referenced a in
    let nb = texts.referenced b in
    if is_empty na && is_empty nb
    then not (str_eq (texts.normalised a) "") && str_eq (texts.normalised a) (texts.normalised b)
    else share na nb

abbrev pub later_of : Option ℕ → Option ℕ → Option ℕ
later_of none b = b
later_of (some a) none = some a
later_of (some a) (some b) = some (max a b)

-- `_answered_at`.
abbrev pub row_answered_at : Pending → Option ℕ
row_answered_at r = later_of r.answered_at r.last_answered_at

-- The latest answer of the rows.
unfoldable pub last_answer : List Pending → Option ℕ
last_answer [] = none
last_answer (r ∷ rs) = later_of (row_answered_at r) (last_answer rs)

abbrev pub is_after : Option ℕ → ℕ → Bool
is_after none t = true
is_after (some a) t = ltb a t

-- `row.get("posted") != 0`.
abbrev pub is_posted : Pending → Bool
is_posted r = elim r.posted [ none ↦ true | some b ↦ b ]

abbrev pub is_other : Option String → Pending → Bool
is_other none r = true
is_other (some id) r = not (str_eq r.session_id id)

abbrev pub is_ask : Option String → Option ℕ → Pending → Bool
is_ask exclude answered r =
    is_other exclude r && is_none r.held_until && is_posted r && is_after answered r.created_at

unfoldable pub matching : Texts → String → String → Db → List Pending
matching texts repo question d =
    select (λ r. same_substance texts question r.question) (list_pending_resumes_for_repo repo d)

-- `_unanswered_asks`.
unfoldable pub unanswered_asks : Texts → String → String → Option String → Db → List Pending
unanswered_asks texts repo question exclude d =
    let matches = matching texts repo question d in
    select (is_ask exclude (last_answer matches)) matches

pub record RepeatHistory : Type 0 where
  pub times_asked_before : ℕ
  pub last_asked_at : ℕ

unfoldable pub latest_created : List Pending → ℕ
latest_created [] = 0
latest_created (r ∷ rs) = max r.created_at (latest_created rs)

abbrev pub history_of : List Pending → Option RepeatHistory
history_of [] = none
history_of (r ∷ rs) =
    some (record { times_asked_before = length (r ∷ rs); last_asked_at = latest_created (r ∷ rs) })

unfoldable pub find_repeat_history :
    Texts → String → String → Option String → Db → Option RepeatHistory
find_repeat_history texts repo question exclude d =
    history_of (unanswered_asks texts repo question exclude d)
