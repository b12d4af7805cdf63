-- ===== src/Claims/Exclusive.antt =====
-- core/claims.py: one machine at a time. What a claim that stands leaves to the others.
use mathlib.Core.List.{Memᴰ}
use ctrlrelay.Base.{
  ℕ, ◌≡◌, ◌≢◌, ◌≤◌, ◌<◌, ◌⊎◌, inl, inr, refl, Bool, true, false, String, none, some, List, [], ◌∷◌,
  arith, str_eq, eq_iff, text_is, text_is-some, any, Bool-cases, if◌then◌else◌,
}
use ctrlrelay.Claims.Records.{Comment, Claim, ClaimSettings}
use ctrlrelay.Claims.Reading.{parse_claims, live_claims, other_owner}
use ctrlrelay.Claims.Acquire.{
  Issue, drop_issue, lost, unseen, ours, acquire_plan, race_verdict, acquire_claim, carry_out,
  first_is, list_issue_comments,
}
use ctrlrelay.Claims.Standing.{Stands, first_live}

-- Every claim of this machine is younger.
abbrev pub NoOlder : ClaimSettings → ℕ → List Comment → Type 0
NoOlder settings comment_id comments =
    (c : Claim)
    → Memᴰ c (parse_claims comments settings.account)
    → c.node ≡ settings.node
    → comment_id < c.comment_id

apart : {a b : ℕ} → a < b → b ≤ a → ⊥
apart lt le = omega arith

other_first :
    (settings : ClaimSettings) (comment_id : ℕ) (id : String) (now : ℕ) (comments : List Comment)
    → Stands settings comment_id id now comments
    → NoOlder settings comment_id comments
    → (owner : Claim) × (rest : List Claim) × (live_claims comments settings now ≡ owner ∷ rest)
      × (owner.node ≢ settings.node)
      × (owner.comment_id ≤ comment_id)
other_first settings comment_id id now comments s young =
    let (owner, rest, e, m, le) = first_live settings comment_id id now comments s in
    (owner, rest, e, λ same. apart (young owner m same) le, le)

plan_dropped :
    (settings : ClaimSettings) (now : ℕ) (comments : List Comment) (owner : Claim)
    (rest : List Claim)
    → live_claims comments settings now ≡ owner ∷ rest
    → owner.node ≢ settings.node
    → acquire_plan comments settings now ≡ drop_issue owner
unfolding acquire_plan other_owner
plan_dropped settings now comments owner rest e other =
    rw e (elim (Bool-cases (str_eq owner.node settings.node)) [
      | inl same ↦ absurd (other ((eq_iff owner.node settings.node).0 same))
      | inr differ ↦ rw differ refl
    ])

-- While a claim of another machine stands in the issue's comments, `acquire_claim` on a machine
-- with no older claim writes nothing and, unless GitHub refuses the reading, reports that the issue
-- is lost, to a claim that is no younger and is not its own.
pub claim_excludes :
    (settings : ClaimSettings) (comment_id : ℕ) (id run token : String) (now later : ℕ)
    (others : Issue → Issue) (issue : Issue)
    → Stands settings comment_id id now issue.comments
    → NoOlder settings comment_id issue.comments
    → let r = acquire_claim settings run token now later others issue in
      (r.1.comments ≡ issue.comments)
      × ((r.0 ≡ none)
          ⊎ ((owner : Claim) × (r.0 ≡ some (lost owner))
              × (owner.node ≢ settings.node)
              × (owner.comment_id ≤ comment_id)))
unfolding acquire_claim list_issue_comments carry_out
claim_excludes settings comment_id id run token now later others issue s young =
    let (owner, rest, e, other, le) =
      other_first settings comment_id id now issue.comments s young in
    at_refused owner le other issue (plan_dropped settings now issue.comments owner rest e other)
  where
    at_refused :
        (owner : Claim)
        → owner.comment_id ≤ comment_id
        → owner.node ≢ settings.node
        → (i : Issue) → acquire_plan i.comments settings now ≡ drop_issue owner
        → ((acquire_claim settings run token now later others i).1.comments ≡ i.comments)
          × (((acquire_claim settings run token now later others i).0 ≡ none)
              ⊎ ((o : Claim) × ((acquire_claim settings run token now later others i).0
                    ≡ some (lost o))
                  × (o.node ≢ settings.node)
                  × (o.comment_id ≤ comment_id)))
    at_refused owner le other i e = by_answer i.refused refl
      where
        by_answer :
            (l : List Bool)
            → i.refused ≡ l
            → ((acquire_claim settings run token now later others i).1.comments ≡ i.comments)
              × (((acquire_claim settings run token now later others i).0 ≡ none)
                  ⊎ ((o : Claim) × ((acquire_claim settings run token now later others i).0
                        ≡ some (lost o))
                      × (o.node ≢ settings.node)
                      × (o.comment_id ≤ comment_id)))
        by_answer [] l = rw (l, e) (refl, inr (owner, refl, other, le))
        by_answer (true ∷ bs) l = rw l (refl, inl refl)
        by_answer (false ∷ bs) l = rw (l, e) (refl, inr (owner, refl, other, le))

-- The race after the post. A machine whose second reading shows a claim that stands, with a lower
-- comment id than all its own, does not find itself the winner.
pub later_claim_loses :
    (settings : ClaimSettings) (comment_id : ℕ) (id token : String) (now : ℕ)
    (comments : List Comment)
    → Stands settings comment_id id now comments
    → NoOlder settings comment_id comments
    → ((c : Claim)
        → Memᴰ c (parse_claims comments settings.account)
        → c.claim_id ≡ some token
        → c.node ≡ settings.node)
    → race_verdict comments settings now token ≢ ours
unfolding race_verdict
later_claim_loses settings comment_id id token now comments s young mine =
    let (owner, rest, e, m, le) = first_live settings comment_id id now comments s in
    λ won.
      let named = text_is-some owner.claim_id token (won_by owner rest (rw e at won)) in
      apart (young owner m (mine owner m named)) le
  where
    won_by :
        (owner : Claim) (rest : List Claim)
        → (if any (λ c. text_is c.claim_id token) (owner ∷ rest)
            then first_is token (owner ∷ rest)
            else unseen)
          ≡ ours
        → text_is owner.claim_id token ≡ true
    won_by owner rest h = ground arith
