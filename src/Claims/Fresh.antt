-- ===== src/Claims/Fresh.antt =====
-- core/claims.py: a claim that is refreshed or held is not stale for any reader.
use ctrlrelay.Base.{
  ℕ, ◌+◌, ◌<◌, ◌≡◌, refl, sym, ap, ◌∙◌, Bool, true, false, ◌&&◌, String, Option, none, some, List,
  [], ◌∷◌, arith, num_is, any, update, is_some, subst,
}
use ctrlrelay.Base.Changes.{any-update_touched}
use ctrlrelay.Claims.Records.{Comment, Claim, ClaimSettings}
use ctrlrelay.Claims.Reading.{working, held, parse_claims, is_stale, stale_at, claim_of}
use ctrlrelay.Claims.Acquire.{
  Issue, edit_issue_comment, list_issue_comments, claim_attrs, rewritten_claim,
}
use ctrlrelay.Claims.Replaced.{names}
use ctrlrelay.Claims.Keeper.{
  Keeper, write_state, taker_of, taken_over, refresh, hold, hold_attempts, or_retry, unless_taken,
}
use ctrlrelay.Claims.Refresh.{taker-names}

-- Whether a comment reads as a claim that is stale, or as no claim, at this time.
abbrev pub goes_stale : ClaimSettings → ℕ → Comment → Bool
goes_stale settings t c = elim c.claimed [
  | none ↦ true
  | some attrs ↦
      is_stale settings.stale_after_seconds t (claim_of c.id attrs.node c.written_at attrs)
]

abbrev pub stale_at_id : ClaimSettings → ℕ → ℕ → Comment → Bool
stale_at_id settings t comment_id c = num_is c.id comment_id && goes_stale settings t c

written-fresh :
    (settings : ClaimSettings) (now t : ℕ) (state : String) (k : Keeper) (i : Issue)
    → ((c : Comment)
        → goes_stale settings t (
            rewritten_claim now
              (claim_attrs settings.node k.claim_id state now k.claim.replaces k.run)
              c)
          ≡ false)
    → (write_state settings now state k i).0 ≡ true
    → any
        (stale_at_id settings t k.claim.comment_id)
        (write_state settings now state k i).2.comments
      ≡ false
unfolding write_state edit_issue_comment
written-fresh settings now t state k i fresh = by_answer i.refused refl
  where
    by_answer :
        (l : List Bool)
        → i.refused ≡ l
        → (write_state settings now state k i).0 ≡ true
        → any
            (stale_at_id settings t k.claim.comment_id)
            (write_state settings now state k i).2.comments
          ≡ false
    by_answer [] e h = rw e (any-update_touched _ (goes_stale settings t) _ i.comments fresh)
    by_answer (true ∷ bs) e h = ground (arith, e)
    by_answer (false ∷ bs) e h =
        rw e (any-update_touched _ (goes_stale settings t) _ i.comments fresh)

write_state-claim :
    (settings : ClaimSettings) (now : ℕ) (state : String) (k : Keeper) (i : Issue)
    → (write_state settings now state k i).1.claim ≡ k.claim
unfolding write_state edit_issue_comment
write_state-claim settings now state k i = ground arith

-- A held claim has no time at which it goes stale; a working one has its last write to count from.
read-held :
    (settings : ClaimSettings) (now t : ℕ) (id run : String) (replaces : List String) (n : Option ℕ)
    → is_stale settings.stale_after_seconds t (
        claim_of n
          (some settings.node)
          (some now)
          (claim_attrs settings.node id held now replaces run))
      ≡ false
unfolding is_stale stale_at claim_of
read-held settings now t id run replaces none = refl
read-held settings now t id run replaces (some k) = refl

read-working :
    (settings : ClaimSettings) (now t : ℕ) (id run : String) (replaces : List String) (n : Option ℕ)
    → t < now + settings.stale_after_seconds
    → is_stale settings.stale_after_seconds t (
        claim_of n
          (some settings.node)
          (some now)
          (claim_attrs settings.node id working now replaces run))
      ≡ false
unfolding is_stale stale_at claim_of
read-working settings now t id run replaces none lt = refl
read-working settings now t id run replaces (some k) lt = ground arith

hold_attempts-fresh :
    (settings : ClaimSettings) (t n : ℕ) (times : List ℕ) (k : Keeper) (i : Issue)
    → k.claim.comment_id ≡ n
    → (hold_attempts settings times k i).0 ≡ true
    → any (stale_at_id settings t n) (hold_attempts settings times k i).2.comments ≡ false
unfolding hold_attempts
hold_attempts-fresh settings t n [] k i at h = cc
hold_attempts-fresh settings t n (now ∷ times) k i at h =
    at_write (write_state settings now held k i)
      (λ ok.
        subst
          (λ m.
            any (stale_at_id settings t m) (write_state settings now held k i).2.comments ≡ false)
          at
          (written-fresh settings now t held k i
            (λ c. read-held settings now t k.claim_id k.run k.claim.replaces c.id) ok))
      (ap (λ (x : Claim). x.comment_id) (write_state-claim settings now held k i) ∙ at)
      (λ k' i'. hold_attempts-fresh settings t n times k' i') h
  where
    at_write :
        (r : Bool × Keeper × Issue)
        → (r.0 ≡ true → any (stale_at_id settings t n) r.2.comments ≡ false)
        → r.1.claim.comment_id ≡ n
        → ((k' : Keeper) (i' : Issue)
            → k'.claim.comment_id ≡ n
            → (hold_attempts settings times k' i').0 ≡ true
            → any (stale_at_id settings t n) (hold_attempts settings times k' i').2.comments
              ≡ false)
        → (or_retry r (hold_attempts settings times)).0 ≡ true
        → any (stale_at_id settings t n) (or_retry r (hold_attempts settings times)).2.comments
          ≡ false
    at_write (true, k', i') w same rest h = w refl
    at_write (false, k', i') w same rest h = rest k' i' same h

-- A hold is for good. Where `hold` reports that the claim was written, by any of its attempts, no
-- comment with the claim's number reads as stale at any time: no other machine may take it over.
pub held_claim_never_stale :
    (settings : ClaimSettings) (times : List ℕ) (k : Keeper) (i : Issue) (t : ℕ)
    → (hold settings times k i).0 ≡ true
    → any (stale_at_id settings t k.claim.comment_id) (hold settings times k i).2.comments ≡ false
unfolding hold
held_claim_never_stale settings times k i t = at_taken k.taken_over_by
  where
    stopped : Keeper
    stopped = record k { is_running = false }

    at_taken :
        (o : Option String)
        → (unless_taken o (false, stopped, i) (hold_attempts settings times stopped i)).0 ≡ true
        → any
            (stale_at_id settings t k.claim.comment_id)
            (unless_taken o (false, stopped, i) (hold_attempts settings times stopped i)).2.comments
          ≡ false
    at_taken (some taker) h = cc
    at_taken none h = hold_attempts-fresh settings t k.claim.comment_id times stopped i refl h

refresh-writes :
    (settings : ClaimSettings) (now : ℕ) (k : Keeper) (i : Issue)
    → k.is_running ≡ true
    → i.refused ≡ []
    → taker_of k.claim_id (parse_claims i.comments settings.account) ≡ none
    → (refresh settings now k i).1.comments
      ≡ update
          (λ c. num_is c.id k.claim.comment_id)
          (rewritten_claim now
            (claim_attrs settings.node k.claim_id working now k.claim.replaces k.run))
          i.comments
unfolding refresh taken_over list_issue_comments write_state edit_issue_comment
refresh-writes settings now k i running idle e = ground arith

-- A refresh keeps the claim. Where GitHub answers and no claim names this one as taken over, a turn
-- of the refreshing keeper at `now` leaves a comment that no machine reads as stale before `now`
-- plus the stale time.
pub refreshed_claim_stays_fresh :
    (settings : ClaimSettings) (now t : ℕ) (k : Keeper) (i : Issue)
    → k.is_running ≡ true
    → i.refused ≡ []
    → names k.claim_id (parse_claims i.comments settings.account) ≡ false
    → t < now + settings.stale_after_seconds
    → any (stale_at_id settings t k.claim.comment_id) (refresh settings now k i).1.comments ≡ false
refreshed_claim_stays_fresh settings now t k i running idle untaken lt =
    at_taker (taker_of k.claim_id (parse_claims i.comments settings.account))
      (sym (taker-names k.claim_id (parse_claims i.comments settings.account)) ∙ untaken) refl
  where
    at_taker :
        (o : Option String)
        → is_some o ≡ false
        → taker_of k.claim_id (parse_claims i.comments settings.account) ≡ o
        → any (stale_at_id settings t k.claim.comment_id) (refresh settings now k i).1.comments
          ≡ false
    at_taker (some taker) h e = cc
    at_taker none h e = rw (refresh-writes settings now k i running idle e) (
        any-update_touched (λ (c : Comment). num_is c.id k.claim.comment_id) (goes_stale settings t)
          _ i.comments (λ c. read-working settings now t k.claim_id k.run k.claim.replaces c.id lt))
