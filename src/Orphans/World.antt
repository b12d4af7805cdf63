-- ===== src/Orphans/World.antt =====
-- core/orphans.py: what the clean-ups ask of the machine and of GitHub, and what they decide by it.
use ctrlrelay.Base.{
  ℕ, Bool, true, false, not, ◌&&◌, ◌||◌, String, Option, none, some, List, [], ◌∷◌, str_eq, ◌==◌,
  find, is_none, text_is, if◌then◌else◌,
}
use ctrlrelay.State.Rows.{Session}

-- A pull request as `gh` lists it; a missing owner or name is the empty text.
pub record OpenPr : Type 0 where
  pub number : Option ℕ
  pub head_owner : String
  pub head_name : String

-- A saved step of a run: the number in its data, where that is a number.
pub record RunStep : Type 0 where
  pub step : String
  pub pr_number : Option ℕ

-- What the code asks of the machine, of GitHub and of the saved steps; a call that raises is `none`.
-- `exists_after` is the second look at a path, and `partition` splits a repository at its slash.
pub record World : Type 0 where
  pub process_run : String
  pub is_alive : ℕ → Bool
  pub exists : String → Bool
  pub exists_after : String → Bool
  pub in_use : String → Option Bool
  pub detach : String → String → Option String
  pub list_prs : String → String → Option (List OpenPr)
  pub run_steps_for : String → Option (List RunStep)
  pub lower : String → String
  pub partition : String → String × String
  pub summary : Session → String

-- The first two guards: a row of this process, of an unknown one, or of one that is alive.
abbrev pub owner_may_live : World → Session → Bool
owner_may_live w s =
    text_is s.owner_run w.process_run
    || (elim s.owner_pid [ none ↦ true | some pid ↦ w.is_alive pid ])

abbrev pub is_path : (String → Bool) → Option String → Bool
is_path exists none = false
is_path exists (some path) = not (str_eq path "") && exists path

-- `busy is not False`.
abbrev pub may_be_busy : Option Bool → Bool
may_be_busy (some false) = false
may_be_busy b = true

abbrev pub worktree_may_be_busy : World → Option String → Bool
worktree_may_be_busy w none = false
worktree_may_be_busy w (some path) = is_path w.exists (some path) && may_be_busy (w.in_use path)

-- The rows that the loop leaves alone.
abbrev pub left_alone : World → Session → Bool
left_alone w s = owner_may_live w s || worktree_may_be_busy w s.worktree_path

abbrev is_head_of : World → String → OpenPr → Bool
is_head_of w repo pr =
    str_eq (w.lower pr.head_owner) (w.lower (w.partition repo).0)
    && str_eq (w.lower pr.head_name) (w.lower (w.partition repo).1)

abbrev number_of : Option OpenPr → Option ℕ
number_of none = none
number_of (some pr) = pr.number

abbrev first_head : World → String → Option (List OpenPr) → Option ℕ
first_head w repo none = none
first_head w repo (some prs) = number_of (find (is_head_of w repo) prs)

-- `_open_pr_for`.
abbrev pub open_pr_for : World → String → Option String → Option ℕ
open_pr_for w repo none = none
open_pr_for w repo (some branch) =
    if str_eq branch "" then none else first_head w repo (w.list_prs repo branch)

abbrev is_publishing : RunStep → Bool
is_publishing s = str_eq s.step "publish" || str_eq s.step "verify"

-- The last step that passes the test.
abbrev later_step : Option RunStep → RunStep → Option RunStep
later_step none s = if is_publishing s then some s else none
later_step (some later) s = some later

unfoldable last_publishing : List RunStep → Option RunStep
last_publishing [] = none
last_publishing (s ∷ ss) = later_step (last_publishing ss) s

abbrev pr_of : Option RunStep → Option ℕ
pr_of none = none
pr_of (some s) = s.pr_number

abbrev saved_in : Option (List RunStep) → Option ℕ
saved_in none = none
saved_in (some steps) = pr_of (last_publishing steps)

-- `_saved_pr`.
unfoldable pub saved_pr : World → String → Option ℕ
unfolding last_publishing
saved_pr w session_id = saved_in (w.run_steps_for session_id)

abbrev pub is_issue_pipeline : String → Bool
is_issue_pipeline pipeline = str_eq pipeline "dev" || str_eq pipeline "task"

-- `==` on two numbers that may be None.
abbrev pub same_number : Option ℕ → Option ℕ → Bool
same_number none none = true
same_number (some a) (some b) = a == b
same_number a b = false

unfoldable pub may_hand_back : World → Session → Option ℕ → Bool
unfolding saved_pr
may_hand_back w s pr = is_none pr || (str_eq s.pipeline "dev" && same_number (saved_pr w s.id) pr)
