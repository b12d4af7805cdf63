-- ===== src/Claims/Examples.antt =====
-- core/claims.py: the theorems at concrete issues.
use mathlib.Core.List.{Memᴰ}
use ctrlrelay.Base.{
  Option, ◌≡◌, ◌≢◌, ◌≤◌, ◌⊎◌, inr, refl, true, false, String, none, some, List, [], ◌∷◌, arith, any,
  select, distinct, text_is_self, sort_by, ◌<◌, update, find,
}
use ctrlrelay.Base.Members.{All-mem}
use ctrlrelay.Claims.Records.{Attrs, Comment, Claim, ClaimSettings}
use ctrlrelay.Claims.Reading.{
  held, working, parse_claims, live_claims, read_on, is_stale, stale_at, read_comment, claim_of,
  other_owner, stale_claims, replaced_ids, has_id,
}
use ctrlrelay.Claims.Acquire.{
  post_issue_comment, settle_race, carry_out, rewritten_claim, new_claim, Issue, lost, ours,
  claim_attrs, claim_comment, acquire_claim, acquire_plan, race_verdict, to_replace, ids_of,
  list_issue_comments, edit_issue_comment,
}
use ctrlrelay.Claims.Kept.{posted}
use ctrlrelay.Claims.Standing.{Stands}
use ctrlrelay.Claims.Exclusive.{claim_excludes, later_claim_loses, NoOlder}
use ctrlrelay.Claims.Takeover.{only_stale_replaced}
use ctrlrelay.Claims.Final.{
  Respects, step_event, run_events, Event, keep, write_around, takeover_is_final,
}
use ctrlrelay.Claims.Replaced.{names}
use ctrlrelay.Claims.Foreign.{only_own_comments_count}
use ctrlrelay.Claims.Keeper.{
  taker_of, taken_over, Keeper, refresh, hold, hold_attempts, write_state,
}
use ctrlrelay.Claims.Refresh.{step_keeper, tick, pause, go_on, run_keeper, taken_claim_left_alone}
use ctrlrelay.Claims.Fresh.{stale_at_id, held_claim_never_stale, refreshed_claim_stays_fresh}

abbrev settings_of : String → ClaimSettings
settings_of machine = record {
  node = machine;
  account = "relay-bot";
  race_wait_seconds = 5;
  refresh_seconds = 300;
  stale_after_seconds = 1800;
}

-- The first machine claimed the issue at 1000, under comment 50.
abbrev first_attrs : Attrs
first_attrs = claim_attrs "alpha" "a1" working 1000 [] "r1"

abbrev first_comment : Comment
first_comment = claim_comment (settings_of "alpha") (some 50) 1000 first_attrs

-- Somebody pastes a release of it.
abbrev pasted : Comment
pasted = record {
  author = "stranger";
  id = some 51;
  written_at = some 1100;
  released = some "a1";
  dispatch_failed = false;
  claimed = none;
}

abbrev issue_of : List Comment → Issue
issue_of comments = record { comments = comments; next_id = 60; refused = [] }

abbrev seen_by_beta : List Comment
seen_by_beta = first_comment ∷ pasted ∷ []

-- The claim of the first machine stands in a reading at 1500.
first-Stands : Stands (settings_of "beta") 50 "a1" 1500 seen_by_beta
unfolding is_stale stale_at any
first-Stands = record {
  before = [];
  comment = first_comment;
  following = pasted ∷ [];
  attrs = first_attrs;
  machine = "alpha";
  split = refl;
  claim = record {
    own = refl;
    numbered = refl;
    unreleased = refl;
    unfailed = refl;
    marked = refl;
    by = refl;
    named = refl;
  };
  unreleased = (λ own. cc, tt);
  untaken = (λ attrs e. ground (arith, e), (λ attrs e. cc, tt));
  fresh = refl;
}

-- Nothing of the second machine is in it.
beta-NoOlder : NoOlder (settings_of "beta") 50 seen_by_beta
unfolding parse_claims read_on read_comment claim_of
beta-NoOlder c m =
    All-mem (λ c. c.node ≡ "beta" → 50 < c.comment_id) (parse_claims seen_by_beta "relay-bot")
      ((λ e. absurd (distinct refl e)), tt) {x = c} m

claim_excludes_example :
    let r =
      acquire_claim (settings_of "beta") "r2" "b1" 1500 1505 (λ i. i) (issue_of seen_by_beta) in
    (r.1.comments ≡ seen_by_beta)
    × ((r.0 ≡ none)
        ⊎ ((owner : Claim) × (r.0 ≡ some (lost owner))
            × (owner.node ≢ "beta")
            × (owner.comment_id ≤ 50)))
claim_excludes_example =
    claim_excludes (settings_of "beta") 50 "a1" "r2" "b1" 1500 1505 (λ i. i) (issue_of seen_by_beta)
      first-Stands beta-NoOlder

later_claim_loses_example : race_verdict seen_by_beta (settings_of "beta") 1500 "b1" ≢ ours
unfolding parse_claims read_on read_comment claim_of
later_claim_loses_example =
    later_claim_loses (settings_of "beta") 50 "a1" "b1" 1500 seen_by_beta first-Stands beta-NoOlder
      (λ c m.
        All-mem (λ c. c.claim_id ≡ some "b1" → c.node ≡ "beta")
          (parse_claims seen_by_beta "relay-bot")
          ((λ e. absurd (text_is_self (some "a1") "b1" refl e)), tt) {x = c} m)

only_own_comments_count_example :
    (acquire_plan (first_comment ∷ []) (settings_of "beta") 1500
      ≡ acquire_plan seen_by_beta (settings_of "beta") 1500)
    × (race_verdict (first_comment ∷ []) (settings_of "beta") 1500 "b1"
        ≡ race_verdict seen_by_beta (settings_of "beta") 1500 "b1")
unfolding select
only_own_comments_count_example =
    only_own_comments_count (settings_of "beta") 1500 "b1" seen_by_beta

abbrev first_claim : Claim
first_claim = posted 50 "alpha" first_attrs first_comment

abbrev beta_attrs : Attrs
beta_attrs = claim_attrs "beta" "b1" working 3000 ("a1" ∷ []) "r2"

-- The second machine reads it at 3000, when it is stale, claims it anew and wins the race at 3005.
-- It works on the issue, the first machine comes back and writes its claim anew, GitHub refuses a call
-- of the second one's refresh, and its run asks a question.
abbrev beta_keeper : Keeper
beta_keeper = record {
  claim = new_claim (settings_of "beta") 60 "b1" 3000 ("a1" ∷ []);
  claim_id = "b1";
  run = "r2";
  is_running = true;
  taken_over_by = none;
  confirmed_at = 3000;
}

abbrev first_back : Comment
first_back = rewritten_claim 3200 (claim_attrs "alpha" "a1" working 3200 [] "r1") first_comment

abbrev beta_events : List Event
beta_events =
    keep (tick 3100)
    ∷ write_around (first_back ∷ []) (pasted ∷ []) (true ∷ [])
    ∷ keep (tick 3250)
    ∷ keep (pause (3300 ∷ []))
    ∷ []

takeover_is_final_example : ◌≢◌ {A = Option String} (some "b1") (some "a1")
unfolding parse_claims read_on read_comment claim_of is_stale stale_at acquire_plan other_owner
    live_claims to_replace stale_claims select sort_by ids_of replaced_ids any has_id run_events
    step_event step_keeper refresh taken_over list_issue_comments write_state edit_issue_comment
    hold hold_attempts taker_of update find acquire_claim carry_out settle_race race_verdict
    post_issue_comment
takeover_is_final_example =
    takeover_is_final (settings_of "beta") (settings_of "alpha") 3000 3005 3500
      (issue_of seen_by_beta) first_claim beta_keeper.claim "a1" "b1" "r2" ("a1" ∷ [])
      (first_comment ∷ []) (pasted ∷ []) [] beta_keeper beta_events
      (posted 60 "beta" (claim_attrs "beta" "b1" held 3300 ("a1" ∷ []) "r2") (
        rewritten_claim 3300 (claim_attrs "beta" "b1" held 3300 ("a1" ∷ []) "r2")
          (claim_comment (settings_of "beta") (some 60) 3000 beta_attrs)))
      (Memᴰ.head refl) refl (inr (distinct refl, refl)) refl refl refl refl (refl, (refl, tt))
      (around_it, (tt, (around_it, (tt, (tt, tt))))) refl (Memᴰ.head refl)
  where
    around_it :
        Respects (settings_of "beta") 60 "b1" (write_around (first_comment ∷ []) (pasted ∷ []) [])
    around_it = ((refl, tt), (refl, tt), (λ own. cc, tt))

only_stale_replaced_example :
    (names "a1" (parse_claims seen_by_beta "relay-bot") ≡ true)
    ⊎ ((c : Claim) × Memᴰ c (parse_claims seen_by_beta "relay-bot")
        × (c.claim_id ≡ some "a1")
        × (c.node ≢ "beta")
        × (is_stale 1800 3000 c ≡ true))
unfolding parse_claims read_on read_comment claim_of is_stale stale_at acquire_plan other_owner
    live_claims to_replace stale_claims select sort_by ids_of replaced_ids any has_id
only_stale_replaced_example =
    only_stale_replaced (settings_of "beta") 3000 seen_by_beta "a1" ("a1" ∷ []) refl refl

abbrev keeper : Keeper
keeper = record {
  claim = first_claim;
  claim_id = "a1";
  run = "r1";
  is_running = true;
  taken_over_by = none;
  confirmed_at = 1000;
}

abbrev taken_comments : List Comment
taken_comments =
    first_comment
    ∷ claim_comment (settings_of "beta") (some 60) 3000
        (claim_attrs "beta" "b1" working 3000 ("a1" ∷ []) "r2")
    ∷ []

taken_claim_left_alone_example :
    (run_keeper
      (settings_of "alpha")
      (tick 3100 ∷ pause (3200 ∷ []) ∷ go_on 3300 ∷ [])
      keeper
      (issue_of taken_comments)).1.comments
    ≡ taken_comments
unfolding parse_claims read_on read_comment claim_of replaced_ids any list_issue_comments
taken_claim_left_alone_example =
    taken_claim_left_alone (settings_of "alpha") 3100 (pause (3200 ∷ []) ∷ go_on 3300 ∷ []) keeper
      (issue_of taken_comments) refl refl refl

held_claim_never_stale_example :
    any
      (stale_at_id (settings_of "alpha") 90000 50)
      (hold
        (settings_of "alpha")
        (1200 ∷ 1205 ∷ [])
        keeper
        (record (issue_of seen_by_beta) { refused = true ∷ [] })).2.comments
    ≡ false
unfolding hold hold_attempts write_state edit_issue_comment
held_claim_never_stale_example =
    held_claim_never_stale (settings_of "alpha") (1200 ∷ 1205 ∷ []) keeper
      (record (issue_of seen_by_beta) { refused = true ∷ [] }) 90000 refl

refreshed_claim_stays_fresh_example :
    any
      (stale_at_id (settings_of "alpha") 3000 50)
      (refresh (settings_of "alpha") 1300 keeper (issue_of seen_by_beta)).1.comments
    ≡ false
unfolding parse_claims read_on read_comment claim_of replaced_ids any
refreshed_claim_stays_fresh_example =
    refreshed_claim_stays_fresh (settings_of "alpha") 1300 3000 keeper (issue_of seen_by_beta) refl
      refl refl (omega arith)
