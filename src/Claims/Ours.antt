-- ===== src/Claims/Ours.antt =====
-- core/claims.py: what a keeper leaves of the comment of its claim.
use ctrlrelay.Claims.Shown.{rewritten-Shows, Shows}
use ctrlrelay.Base.{
  ℕ, ◌≡◌, inl, inr, refl, ◌∙◌, sym, Bool, true, false, String, Option, none, some, List, [], ◌∷◌,
  update, num_is, Bool-cases, subst, ap,
}
use ctrlrelay.Claims.Records.{Comment, ClaimSettings}
use ctrlrelay.Claims.Reading.{working, held}
use ctrlrelay.Claims.Acquire.{
  asked_of, Issue, claim_attrs, rewritten_claim, edit_issue_comment, list_issue_comments,
}
use ctrlrelay.Claims.Keeper.{
  restarted, unless_taken, or_retry, takers, after_check, confirmed, Keeper, write_state,
  taken_over, refresh, hold, hold_attempts, resume_working,
}
use ctrlrelay.Claims.Refresh.{KeeperOp, tick, pause, go_on, step_keeper}

module _ (settings : ClaimSettings) (comment_id : ℕ) (token : String) where
  -- The keeper of the taker's claim, and its comment on the issue.
  pub record Ours (replaces : List String) (s : Keeper × Issue) : Type 0 where
    pub numbered : s.0.claim.comment_id ≡ comment_id
    pub replacing : s.0.claim.replaces ≡ replaces
    pub tokened : s.0.claim_id ≡ token
    pub shown : Shows settings comment_id token replaces s.1.comments

  module _ (replaces : List String) where
    abbrev After : Bool × Keeper × Issue → Type 0
    After w = Ours replaces (w.1, w.2)

    edit-Ours :
        (now : ℕ) (state : String) (k : Keeper) (i : Issue) (refusals : List Bool)
        → Ours replaces (k, i)
        → After (
            confirmed k now (
              asked_of refusals
                (λ i. (
                  some tt,
                  record i {
                    comments =
                        update
                          (λ c. num_is c.id k.claim.comment_id)
                          (rewritten_claim now
                            (claim_attrs settings.node k.claim_id state now k.claim.replaces k.run))
                          i.comments;
                  },
                ))
                i))
    edit-Ours now state k i refusals o = by_refusals refusals
      where
        written : Shows settings comment_id token replaces (
            update
              (λ c. num_is c.id k.claim.comment_id)
              (rewritten_claim now
                (claim_attrs settings.node k.claim_id state now k.claim.replaces k.run))
              i.comments)
        written =
            rw (o.numbered, o.tokened, o.replacing)
              (rewritten-Shows settings comment_id token replaces now state k.run i.comments
                o.shown)

        by_refusals :
            (refusals : List Bool)
            → After (
                confirmed k now (
                  asked_of refusals
                    (λ i. (
                      some tt,
                      record i {
                        comments =
                            update
                              (λ c. num_is c.id k.claim.comment_id)
                              (rewritten_claim now (
                                claim_attrs settings.node k.claim_id state now k.claim.replaces
                                  k.run))
                              i.comments;
                      },
                    ))
                    i))
        by_refusals [] = record {
          numbered = o.numbered;
          replacing = o.replacing;
          tokened = o.tokened;
          shown = written;
        }
        by_refusals (true ∷ bs) = record {
          numbered = o.numbered;
          replacing = o.replacing;
          tokened = o.tokened;
          shown = o.shown;
        }
        by_refusals (false ∷ bs) = record {
          numbered = o.numbered;
          replacing = o.replacing;
          tokened = o.tokened;
          shown = written;
        }

    write-Ours :
        (now : ℕ) (state : String) (k : Keeper) (i : Issue)
        → Ours replaces (k, i)
        → After (write_state settings now state k i)
    unfolding write_state edit_issue_comment
    write-Ours now state k i o = edit-Ours now state k i i.refused o

    -- Only these parts of the keeper matter.
    same-Ours :
        (k k' : Keeper) (i i' : Issue)
        → k'.claim ≡ k.claim
        → k'.claim_id ≡ k.claim_id
        → i'.comments ≡ i.comments
        → Ours replaces (k, i)
        → Ours replaces (k', i')
    same-Ours k k' i i' c t e o = record {
      numbered = ap (λ c. c.comment_id) c ∙ o.numbered;
      replacing = ap (λ c. c.replaces) c ∙ o.replacing;
      tokened = t ∙ o.tokened;
      shown = subst (Shows settings comment_id token replaces) (sym e) o.shown;
    }

    checked-Ours :
        (now : ℕ) (k : Keeper) (i : Issue) (o : Option (Option String) × Issue)
        → o.1.comments ≡ i.comments
        → Ours replaces (k, i)
        → Ours replaces (after_check settings now k o)
    checked-Ours now k i (none, i') e h = same-Ours k k i i' refl refl e h
    checked-Ours now k i (some (some taker), i') e h =
        same-Ours k (record k { taken_over_by = some taker; is_running = false }) i i' refl refl e h
    checked-Ours now k i (some none, i') e h =
        write-Ours now working k i' (same-Ours k k i i' refl refl e h)

    listed : (i : Issue) → (list_issue_comments i).1.comments ≡ i.comments
    unfolding list_issue_comments
    listed i = by_refusals i.refused
      where
        by_refusals :
            (bs : List Bool)
            → (asked_of {A = List Comment} bs (λ i. (some i.comments, i)) i).1.comments ≡ i.comments
        by_refusals [] = refl
        by_refusals (true ∷ bs) = refl
        by_refusals (false ∷ bs) = refl

    takers-same : (k : Keeper) (o : Option (List Comment) × Issue) → (takers settings k o).1 ≡ o.1
    takers-same k (none, i) = refl
    takers-same k (some comments, i) = refl

    refresh-Ours :
        (now : ℕ) (k : Keeper) (i : Issue)
        → Ours replaces (k, i)
        → Ours replaces (refresh settings now k i)
    unfolding refresh taken_over
    refresh-Ours now k i o = elim (Bool-cases k.is_running) [
      | inr idle ↦ simp idle o
      | inl running ↦ simp running (
          checked-Ours now k i (takers settings k (list_issue_comments i))
            (ap (λ i. i.comments) (takers-same k (list_issue_comments i)) ∙ listed i) o)
    ]

    attempts-Ours :
        (times : List ℕ) (k : Keeper) (i : Issue)
        → Ours replaces (k, i)
        → After (hold_attempts settings times k i)
    unfolding hold_attempts
    attempts-Ours [] k i o = o
    attempts-Ours (now ∷ times) k i o =
        retried (write_state settings now held k i) (write-Ours now held k i o)
          (λ k i. attempts-Ours times k i)
      where
        retried :
            (w : Bool × Keeper × Issue)
            → After w
            → ((k : Keeper) (i : Issue)
                → Ours replaces (k, i)
                → After (hold_attempts settings times k i))
            → After (or_retry w (hold_attempts settings times))
        retried (true, k, i) o again = o
        retried (false, k, i) o again = again k i o

    unless-Ours :
        (t : Option String) (left done : Bool × Keeper × Issue)
        → After left
        → After done
        → After (unless_taken t left done)
    unless-Ours none left done l d = d
    unless-Ours (some taker) left done l d = l

    restarted-Ours : (w : Bool × Keeper × Issue) → After w → After (restarted w)
    restarted-Ours (written, k, i) o =
        same-Ours k (record k { is_running = true }) i i refl refl refl o

    pub keeper-Ours :
        (op : KeeperOp) (k : Keeper) (i : Issue)
        → Ours replaces (k, i)
        → Ours replaces (step_keeper settings op k i)
    unfolding step_keeper hold resume_working
    keeper-Ours (tick now) k i o = refresh-Ours now k i o
    keeper-Ours (pause times) k i o =
        let stopped : Keeper = record k { is_running = false } in
        let o' : Ours replaces (stopped, i) = same-Ours k stopped i i refl refl refl o in
        unless-Ours k.taken_over_by (false, stopped, i) _ o' (attempts-Ours times stopped i o')
    keeper-Ours (go_on now) k i o =
        unless-Ours k.taken_over_by (false, k, i) _ o
          (restarted-Ours (write_state settings now working k i) (write-Ours now working k i o))
