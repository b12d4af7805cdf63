-- ===== src/Claims/Won.antt =====
-- core/claims.py: what a machine that claimed anew, and won, has left on the issue.
use ctrlrelay.Base.{
  ◌+◌, ap, ℕ, ◌≡◌, refl, Bool, true, false, String, Option, some, List, [], ◌∷◌, ◌++◌,
}
use ctrlrelay.Claims.Records.{Comment, Claim, ClaimSettings}
use ctrlrelay.Claims.Reading.{working}
use ctrlrelay.Claims.Acquire.{
  Issue, Call, asked_of, with_answer, wait_for, claim_anew, ClaimOutcome, won, Verdict, ours,
  unseen, theirs, claim_attrs, claim_comment, new_claim, acquire_plan, acquire_claim, carry_out,
  settle_race, post_release, race_verdict, list_issue_comments, post_issue_comment,
}

module _ (settings : ClaimSettings) (token run : String) (now later : ℕ) where
  settled :
      (mine : Claim) (v : Verdict) (i : Issue) (w : Claim)
      → (settle_race settings later token mine v i).0 ≡ some (won w)
      → (w ≡ mine) × ((settle_race settings later token mine v i).1 ≡ i)
  unfolding settle_race post_release
  settled mine ours i w h = (cc, refl)
  settled mine unseen i w h = cc
  settled mine (theirs winner) i w h = cc

  abbrev read_race : Claim → Call ClaimOutcome
  read_race mine i = with_answer (list_issue_comments i) (λ comments.
      settle_race settings later token mine (race_verdict comments settings later token))

  read-won :
      (mine : Claim) (i : Issue) (w : Claim)
      → (read_race mine i).0 ≡ some (won w)
      → (w ≡ mine) × ((read_race mine i).1.comments ≡ i.comments)
  unfolding list_issue_comments
  read-won mine i w h = by_refusals i.refused h
    where
      after : List Bool → Option ClaimOutcome × Issue
      after bs =
          with_answer (asked_of {A = List Comment} bs (λ i. (some i.comments, i)) i) (λ comments.
            settle_race settings later token mine (race_verdict comments settings later token))

      by_refusals :
          (bs : List Bool)
          → (after bs).0 ≡ some (won w)
          → (w ≡ mine) × ((after bs).1.comments ≡ i.comments)
      by_refusals [] h =
          let (e, same) = settled mine (race_verdict i.comments settings later token) i w h in
          (e, ap (λ i. i.comments) same)
      by_refusals (true ∷ bs) h = cc
      by_refusals (false ∷ bs) h =
          let (e, same) =
            settled mine (race_verdict i.comments settings later token) (record i { refused = bs })
              w h in
          (e, ap (λ i. i.comments) same)

  -- The comment that it posts, under its number.
  abbrev pub post_of : ℕ → List String → Comment
  post_of comment_id replaces =
      claim_comment settings (some comment_id) now
        (claim_attrs settings.node token working now replaces run)

  module _ (others : Issue → Issue) where
    carried-won :
        (replaces : List String) (i : Issue) (w : Claim)
        → (carry_out settings run token now later others (claim_anew replaces) i).0 ≡ some (won w)
        → (w ≡ new_claim settings i.next_id token now replaces)
          × ((j : Issue) × (j.comments ≡ i.comments ++ post_of i.next_id replaces ∷ [])
              × ((carry_out settings run token now later others (claim_anew replaces) i).1.comments
                  ≡ (others j).comments))
    unfolding carry_out post_issue_comment
    carried-won replaces i w h = by_refusals i.refused h
      where
        posted_on : List Bool → Issue
        posted_on bs = record {
          comments = i.comments ++ post_of i.next_id replaces ∷ [];
          next_id = i.next_id + 1;
          refused = bs;
        }

        after : List Bool → Option ClaimOutcome × Issue
        after bs =
            with_answer
              (asked_of {A = ℕ} bs
                (λ i. (
                  some i.next_id,
                  record i {
                    comments = i.comments ++ post_of i.next_id replaces ∷ [];
                    next_id = i.next_id + 1;
                  },
                ))
                i)
              (λ comment_id i.
                with_answer (wait_for others i)
                  (λ _. read_race (new_claim settings comment_id token now replaces)))

        by_refusals :
            (bs : List Bool)
            → (after bs).0 ≡ some (won w)
            → (w ≡ new_claim settings i.next_id token now replaces)
              × ((j : Issue) × (j.comments ≡ i.comments ++ post_of i.next_id replaces ∷ [])
                  × ((after bs).1.comments ≡ (others j).comments))
        by_refusals [] h =
            let (e, same) =
              read-won (new_claim settings i.next_id token now replaces)
                (others (posted_on i.refused)) w h in
            (e, (posted_on i.refused, refl, same))
        by_refusals (true ∷ bs) h = cc
        by_refusals (false ∷ bs) h =
            let (e, same) =
              read-won (new_claim settings i.next_id token now replaces) (others (posted_on bs)) w
                h in
            (e, (posted_on bs, refl, same))

    pub acquired-won :
        (replaces : List String) (i : Issue) (w : Claim)
        → acquire_plan i.comments settings now ≡ claim_anew replaces
        → (acquire_claim settings run token now later others i).0 ≡ some (won w)
        → (w ≡ new_claim settings i.next_id token now replaces)
          × ((j : Issue) × (j.comments ≡ i.comments ++ post_of i.next_id replaces ∷ [])
              × ((acquire_claim settings run token now later others i).1.comments
                  ≡ (others j).comments))
    unfolding acquire_claim list_issue_comments
    acquired-won replaces i w plan h = by_refusals i.refused h
      where
        after : List Bool → Option ClaimOutcome × Issue
        after bs =
            with_answer (asked_of {A = List Comment} bs (λ i. (some i.comments, i)) i) (λ comments.
              carry_out settings run token now later others (acquire_plan comments settings now))

        by_refusals :
            (bs : List Bool)
            → (after bs).0 ≡ some (won w)
            → (w ≡ new_claim settings i.next_id token now replaces)
              × ((j : Issue) × (j.comments ≡ i.comments ++ post_of i.next_id replaces ∷ [])
                  × ((after bs).1.comments ≡ (others j).comments))
        by_refusals [] h = rw plan (carried-won replaces i w (rw plan at h))
        by_refusals (true ∷ bs) h = cc
        by_refusals (false ∷ bs) h =
            rw plan (carried-won replaces (record i { refused = bs }) w (rw plan at h))
