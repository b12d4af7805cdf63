-- ===== src/Claims/Final.antt =====
-- core/claims.py: a claim that was taken over stays out while the keeper of the taker works.
use ctrlrelay.Claims.Takeover.{mem-to_replace, plan-replaces, named-out}
use ctrlrelay.Claims.Won.{post_of, acquired-won}
use ctrlrelay.Claims.Kept.{mem-posted, posted, Leaves}
use ctrlrelay.Claims.Reading.{live_claims, working, is_stale, parse_claims}
use ctrlrelay.Claims.Shown.{is_its, find-split, IsApart}
use ctrlrelay.Claims.Ours.{Ours, keeper-Ours}
use ctrlrelay.Claims.Acquire.{
  claim_attrs, new_claim, claim_anew, acquire_plan, acquire_claim, won, Issue,
}
use ctrlrelay.Claims.Keeper.{Keeper}
use ctrlrelay.Claims.Refresh.{step_keeper, KeeperOp}
use mathlib.Core.List.{Memᴰ}
use ctrlrelay.Base.{
  ◌∙◌, num_is, ap, find, ◌≡◌, ◌∷◌, some, ◌++◌, All, Bool, String, List, Option, ℕ, none, [], refl,
  sym, subst, eq_refl, true, ◌≢◌, ◌⊎◌,
}
use ctrlrelay.Claims.Replaced.{names, names-mem}
use ctrlrelay.Claims.Records.{Claim, ClaimSettings, Comment}

-- What happens on the issue after the takeover: the taker's run does something with its keeper, or
-- others write comments around the taker's, and GitHub may refuse any of the next calls.
pub data Event : Type 0 where
  keep : (op : KeeperOp) → Event
  write_around : (before following : List Comment) (refused : List Bool) → Event

abbrev around : Option Comment → List Comment → List Comment → List Comment
around none before following = before ++ following
around (some post) before following = before ++ post ∷ following

module _ (settings : ClaimSettings) (comment_id : ℕ) (token : String) where
  unfoldable pub step_event : Event → Keeper × Issue → Keeper × Issue
  step_event (keep op) (k, i) = step_keeper settings op k i
  step_event (write_around before following refused) (k, i) = (
    k,
    record {
      comments = around (find (λ c. num_is c.id comment_id) i.comments) before following;
      next_id = i.next_id;
      refused = refused;
    },
  )

  -- What others write while the machine waits for the race.
  abbrev pub others_write : List Comment → List Comment → List Bool → Keeper → Issue → Issue
  others_write before following refused k i =
      (step_event (write_around before following refused) (k, i)).1

  unfoldable pub run_events : List Event → Keeper × Issue → Keeper × Issue
  run_events [] s = s
  run_events (e ∷ es) s = run_events es (step_event e s)

  -- Others write no comment under the taker's number, and none after it that releases its claim.
  abbrev pub Respects : Event → Type 0
  Respects (keep op) = Unit
  Respects (write_around before following refused) =
      All (IsApart settings comment_id token) before
      × All (IsApart settings comment_id token) following
      × All (Leaves settings.account token) following

  around-Ours :
      (replaces : List String) (k : Keeper) (i : Issue) (before following : List Comment)
      (refused : List Bool)
      → Respects (write_around before following refused)
      → Ours settings comment_id token replaces (k, i)
      → Ours settings comment_id token replaces
          (step_event (write_around before following refused) (k, i))
  unfolding step_event
  around-Ours replaces k i before following refused (a, b, left) o = record {
    numbered = o.numbered;
    replacing = o.replacing;
    tokened = o.tokened;
    shown = record {
      before = before;
      following = following;
      post = o.shown.post;
      attrs = o.shown.attrs;
      split =
          ap (λ cs. around (find (λ c. num_is c.id comment_id) cs) before following) o.shown.split
          ∙ ap (λ p. around p before following)
              (find-split settings comment_id token o.shown.before o.shown.post o.shown.following
                o.shown.apart_before
                (is_its settings comment_id token o.shown.post o.shown.claim.numbered));
      claim = o.shown.claim;
      named = o.shown.named;
      apart_before = a;
      apart_following = b;
      left = left;
    };
  }

  written_around :
      (k : Keeper) (i : Issue) (before following : List Comment) (refused : List Bool)
      (old : List Comment) (post : Comment)
      → i.comments ≡ old ++ post ∷ []
      → All (IsApart settings comment_id token) old
      → post.id ≡ some comment_id
      → (others_write before following refused k i).comments ≡ before ++ post ∷ following
  unfolding step_event
  written_around k i before following refused old post same apart numbered =
      ap (λ cs. around (find (λ c. num_is c.id comment_id) cs) before following) same
      ∙ ap (λ p. around p before following)
          (find-split settings comment_id token old post [] apart
            (is_its settings comment_id token post numbered))

  events-Ours :
      (replaces : List String) (es : List Event) (k : Keeper) (i : Issue)
      → All Respects es
      → Ours settings comment_id token replaces (k, i)
      → Ours settings comment_id token replaces (run_events es (k, i))
  unfolding run_events step_event
  events-Ours replaces [] k i h o = o
  events-Ours replaces (keep op ∷ es) k i (_, hs) o =
      let s = step_keeper settings op k i in
      events-Ours replaces es s.0 s.1 hs (keeper-Ours settings comment_id token replaces op k i o)
  events-Ours replaces (write_around before following refused ∷ es) k i (h, hs) o =
      events-Ours replaces es k _ hs (around-Ours replaces k i before following refused h o)

-- A takeover is final. A machine reads a stale claim of another machine, or one that had been taken
-- over before, claims the issue anew and wins, and has the keeper of its claim. Whatever its run then
-- does with the keeper, in refreshes, holds and returns to work that GitHub may refuse, and whatever
-- others write around its comment, from the wait of the race on, as long as comments have numbers of
-- their own and the claim is not released: in every later reading on that account no live claim has the
-- id that was taken over. A machine that comes back and refreshes its claim does not get the issue back.
pub takeover_is_final :
    (settings reader : ClaimSettings) (now race later : ℕ) (issue : Issue) (c mine : Claim)
    (id token run : String) (replaces : List String) (before following : List Comment)
    (refused : List Bool) (k : Keeper) (events : List Event) (back : Claim)
    → Memᴰ c (parse_claims issue.comments settings.account)
    → c.claim_id ≡ some id
    → (names id (parse_claims issue.comments settings.account) ≡ true)
      ⊎ ((c.node ≢ settings.node) × (is_stale settings.stale_after_seconds now c ≡ true))
    → acquire_plan issue.comments settings now ≡ claim_anew replaces
    → (acquire_claim settings run token now race
        (others_write settings issue.next_id token before following refused k)
        issue).0
      ≡ some (won mine)
    → k.claim ≡ mine
    → k.claim_id ≡ token
    → All (IsApart settings issue.next_id token) issue.comments
    → All (Respects settings issue.next_id token) (write_around before following refused ∷ events)
    → reader.account ≡ settings.account
    → let start =
        (acquire_claim settings run token now race
          (others_write settings issue.next_id token before following refused k)
          issue).1 in
      Memᴰ back (
        live_claims
          (run_events settings issue.next_id token events (k, start)).1.comments
          reader
          later)
      → back.claim_id ≢ some id
takeover_is_final settings reader now race later issue c mine id token run replaces before following
      refused k events back m e taken plan wins claim token_of apart ((a, b, left), respects)
      account =
    named-out reader later shown_comments id back (
      subst (λ x. names id (parse_claims shown_comments x) ≡ true) (sym account)
        (names-mem id _ (posted issue.next_id settings.node ours.shown.attrs ours.shown.post)
          (subst
            (λ cs.
              Memᴰ (posted issue.next_id settings.node ours.shown.attrs ours.shown.post)
                (parse_claims cs settings.account))
            (sym ours.shown.split)
            (mem-posted settings.account issue.next_id settings.node token ours.shown.attrs
              ours.shown.before ours.shown.post ours.shown.following ours.shown.claim
              ours.shown.left))
          (rw (ours.shown.named, ← plan-replaces settings now issue.comments replaces plan)
            (mem-to_replace settings now issue.comments id c m e taken))))
  where
    others : Issue → Issue
    others = others_write settings issue.next_id token before following refused k

    start : Issue
    start = (acquire_claim settings run token now race others issue).1

    shown_comments : List Comment
    shown_comments = (run_events settings issue.next_id token events (k, start)).1.comments

    left_on :
        (mine ≡ new_claim settings issue.next_id token now replaces)
        × ((j : Issue) × (j.comments
              ≡ issue.comments ++ post_of settings token run now race issue.next_id replaces ∷ [])
            × (start.comments ≡ (others j).comments))
    left_on = acquired-won settings token run now race others replaces issue mine plan wins

    -- What the others have left of it.
    written :
        (j : Issue)
        → j.comments
          ≡ issue.comments ++ post_of settings token run now race issue.next_id replaces ∷ []
        → (others j).comments
          ≡ before ++ post_of settings token run now race issue.next_id replaces ∷ following
    written j same =
        written_around settings issue.next_id token k j before following refused issue.comments
          (post_of settings token run now race issue.next_id replaces) same apart refl

    begun : Ours settings issue.next_id token replaces (k, start)
    begun =
        let (new, (j, same, at_start)) = left_on in
        record {
          numbered = ap (λ c. c.comment_id) (claim ∙ new);
          replacing = ap (λ c. c.replaces) (claim ∙ new);
          tokened = token_of;
          shown = record {
            before = before;
            following = following;
            post = post_of settings token run now race issue.next_id replaces;
            attrs = claim_attrs settings.node token working now replaces run;
            split = at_start ∙ written j same;
            claim = record {
              own = eq_refl settings.account;
              numbered = refl;
              unreleased = refl;
              unfailed = refl;
              marked = refl;
              by = refl;
              named = refl;
            };
            named = refl;
            apart_before = a;
            apart_following = b;
            left = left;
          };
        }

    ours :
        Ours settings issue.next_id token replaces
          (run_events settings issue.next_id token events (k, start))
    ours = events-Ours settings issue.next_id token replaces events k start respects begun
