-- ===== src/Claims/Acquire.antt =====
-- core/claims.py: `acquire_claim`, with the calls of GitHub that it makes and what other machines
-- write in between. What it awaits of a background hold of its own process is left out.
use ctrlrelay.Base.{
  ℕ, ◌+◌, Bool, true, false, String, Option, none, some, List, [], ◌∷◌, ◌++◌, text_is, num_is, any,
  update, if◌then◌else◌,
}
use ctrlrelay.Claims.Records.{Attrs, Comment, Claim, ClaimSettings}
use ctrlrelay.Claims.Reading.{
  working, parse_claims, replaced_ids, live_claims, other_owner, stale_claims,
}

-- One issue. `next_id` is the number that GitHub gives the next comment, `refused` says of each
-- further call whether it raises.
pub record Issue : Type 0 where
  pub comments : List Comment
  pub next_id : ℕ
  pub refused : List Bool

-- `none` where the call raised.
abbrev pub Call : Type 0 → Type 0
Call A = Issue → Option A × Issue

module _ {A B : Type 0} where
  abbrev pub with_answer : Option A × Issue → (A → Call B) → Option B × Issue
  with_answer (none, i) k = (none, i)
  with_answer (some a, i) k = k a i

  infixl 5 ◌>>=◌ ◌>>◌
  abbrev pub ◌>>=◌ : Call A → (A → Call B) → Call B
  ◌>>=◌ m k i = with_answer (m i) k

  abbrev pub ◌>>◌ : Call A → Call B → Call B
  ◌>>◌ m k i = with_answer (m i) (λ _. k)

abbrev pub return : {A : Type 0} → A → Call A
return a i = (some a, i)

-- A call that GitHub refuses changes nothing.
abbrev pub asked_of : {A : Type 0} → List Bool → Call A → Call A
asked_of [] m i = m i
asked_of (true ∷ rest) m i = (none, record i { refused = rest })
asked_of (false ∷ rest) m i = m (record i { refused = rest })

abbrev pub ask_github : {A : Type 0} → Call A → Call A
ask_github m i = asked_of i.refused m i

unfoldable pub list_issue_comments : Call (List Comment)
list_issue_comments = ask_github (λ i. (some i.comments, i))

-- The comment under its new number.
unfoldable pub post_issue_comment : Comment → Call ℕ
post_issue_comment comment = ask_github (λ i. (
  some i.next_id,
  record i {
    comments = i.comments ++ record comment { id = some i.next_id } ∷ [];
    next_id = i.next_id + 1;
  },
))

unfoldable pub edit_issue_comment : ℕ → (Comment → Comment) → Call (Unit {0})
edit_issue_comment comment_id f =
    ask_github
      (λ i. (some tt, record i { comments = update (λ c. num_is c.id comment_id) f i.comments }))

-- What a reader finds in `claim_body`.
abbrev pub claim_attrs : String → String → String → ℕ → List String → String → Attrs
claim_attrs machine claim_id state now replaces run = record {
  node = some machine;
  id = some claim_id;
  state = some state;
  replaces = replaces;
  run = some run;
  seen = some now;
}

abbrev pub claim_comment : ClaimSettings → Option ℕ → ℕ → Attrs → Comment
claim_comment settings comment_id now attrs = record {
  author = settings.account;
  id = comment_id;
  written_at = some now;
  released = none;
  dispatch_failed = false;
  claimed = some attrs;
}

-- The edited comment: GitHub moves its `updated_at`.
abbrev pub rewritten_claim : ℕ → Attrs → Comment → Comment
rewritten_claim now attrs c = record c {
  written_at = some now;
  released = none;
  dispatch_failed = false;
  claimed = some attrs;
}

-- What a reader finds in a comment with `release_marker`.
abbrev pub release_comment : ClaimSettings → ℕ → String → Comment
release_comment settings now claim_id = record {
  author = settings.account;
  id = none;
  written_at = some now;
  released = some claim_id;
  dispatch_failed = false;
  claimed = none;
}

-- `ClaimOutcome`, or `ClaimNotVisibleError`.
pub data ClaimOutcome : Type 0 where
  won : (claim : Claim) → ClaimOutcome
  lost : (owner : Claim) → ClaimOutcome
  not_visible : ClaimOutcome

-- The first of the live claims, if it has an id; with `other_owner` asked first, it is our own.
abbrev pub first_named : List Claim → Option (Claim × String)
first_named [] = none
first_named (c ∷ cs) = elim c.claim_id [ none ↦ none | some id ↦ some (c, id) ]

-- What the first reading decides.
pub data Plan : Type 0 where
  drop_issue : (owner : Claim) → Plan
  adopt : (mine : Claim) (claim_id : String) → Plan
  claim_anew : (replaces : List String) → Plan

unfoldable pub ids_of : List Claim → List String
ids_of [] = []
ids_of (c ∷ cs) = let rest = ids_of cs in elim c.claim_id [ none ↦ rest | some id ↦ id ∷ rest ]

-- The ids of the stale claims, and all that were replaced before. A list for the sorted set.
unfoldable pub to_replace : List Comment → ClaimSettings → ℕ → List String
to_replace comments settings now =
    ids_of (stale_claims comments settings now)
    ++ replaced_ids (parse_claims comments settings.account)

abbrev pub plan_of : Option Claim → Option (Claim × String) → List String → Plan
plan_of (some owner) mine replaces = drop_issue owner
plan_of none (some (mine, id)) replaces = adopt mine id
plan_of none none replaces = claim_anew replaces

unfoldable pub acquire_plan : List Comment → ClaimSettings → ℕ → Plan
acquire_plan comments settings now =
    plan_of (other_owner comments settings now) (first_named (live_claims comments settings now))
      (to_replace comments settings now)

-- What the second reading decides: nothing, where our claim is not in it; else the first one wins.
pub data Verdict : Type 0 where
  unseen : Verdict
  ours : Verdict
  theirs : (winner : Claim) → Verdict

abbrev pub first_is : String → List Claim → Verdict
first_is claim_id [] = unseen
first_is claim_id (winner ∷ rest) = if text_is winner.claim_id claim_id then ours else theirs winner

unfoldable pub race_verdict : List Comment → ClaimSettings → ℕ → String → Verdict
race_verdict comments settings now claim_id =
    let live = live_claims comments settings now in
    if any (λ c. text_is c.claim_id claim_id) live then first_is claim_id live else unseen

-- `_post_release`: a refusal is only logged.
unfoldable pub post_release : ClaimSettings → ℕ → String → Call (Unit {0})
unfolding post_issue_comment
post_release settings now claim_id i =
    (some tt, (post_issue_comment (release_comment settings now claim_id) i).1)

unfoldable pub settle_race : ClaimSettings → ℕ → String → Claim → Verdict → Call ClaimOutcome
unfolding post_release
settle_race settings now claim_id mine ours = return (won mine)
settle_race settings now claim_id mine unseen = do
  post_release settings now claim_id
  return not_visible
settle_race settings now claim_id mine (theirs winner) = do
  post_release settings now claim_id
  return (lost winner)

abbrev pub new_claim : ClaimSettings → ℕ → String → ℕ → List String → Claim
new_claim settings comment_id claim_id now replaces = record {
  comment_id = comment_id;
  node = settings.node;
  claim_id = some claim_id;
  state = working;
  updated_at = some now;
  replaces = replaces;
  run = none;
  seen = none;
}

-- The sleep, in which the other machines act.
abbrev pub wait_for : (Issue → Issue) → Call (Unit {0})
wait_for others i = (some tt, others i)

unfoldable pub carry_out :
    ClaimSettings → String → String → ℕ → ℕ → (Issue → Issue) → Plan → Call ClaimOutcome
unfolding settle_race edit_issue_comment post_issue_comment list_issue_comments
carry_out settings run claim_id now later others (drop_issue owner) = return (lost owner)
carry_out settings run claim_id now later others (adopt mine id) = do
  edit_issue_comment mine.comment_id
      (rewritten_claim now (claim_attrs settings.node id working now mine.replaces run))
  return (won (record mine { state = working; updated_at = some now }))
carry_out settings run claim_id now later others (claim_anew replaces) = do
  comment_id ← post_issue_comment (
      claim_comment settings none now (claim_attrs settings.node claim_id working now replaces run))
  wait_for others
  comments ← list_issue_comments
  settle_race settings later claim_id (new_claim settings comment_id claim_id now replaces)
      (race_verdict comments settings later claim_id)

-- `now` and `later` are the clock at the two readings, `run` this process and `claim_id` its random
-- token.
unfoldable pub acquire_claim :
    ClaimSettings → String → String → ℕ → ℕ → (Issue → Issue) → Call ClaimOutcome
unfolding carry_out list_issue_comments
acquire_claim settings run claim_id now later others = do
  comments ← list_issue_comments
  carry_out settings run claim_id now later others (acquire_plan comments settings now)
