-- ===== src/Claims/Standing.antt =====
-- core/claims.py: a claim that stands keeps every other machine off the issue.
use mathlib.Core.List.{Memᴰ}
use ctrlrelay.Base.{
  ℕ, ◌≡◌, ◌≤◌, refl, sym, Bool, true, false, String, List, [], ◌∷◌, ◌++◌, str_eq, any, select,
  sort_by, All, subst,
}
use ctrlrelay.Base.Members.{mem-select, mem-select_inv, mem-sort_by, mem-sort_by_inv}
use ctrlrelay.Base.Sorted.{sort_by-head}
use ctrlrelay.Claims.Records.{Attrs, Comment, Claim, ClaimSettings}
use ctrlrelay.Claims.Reading.{parse_claims, has_id, replaced_ids, is_stale, is_live, live_claims}
use ctrlrelay.Claims.Replaced.{Unnamed, names-read_on}
use ctrlrelay.Claims.Kept.{Leaves, IsClaim, posted, mem-posted}

-- The claim with this id and comment stands in a reading: nobody released it or took it over, and it
-- is not stale.
pub record Stands (settings : ClaimSettings) (comment_id : ℕ) (id : String) (now : ℕ)
    (comments : List Comment) : Type 0 where
  pub before : List Comment
  pub comment : Comment
  pub following : List Comment
  pub attrs : Attrs
  pub machine : String
  pub split : comments ≡ before ++ comment ∷ following
  pub claim : IsClaim settings.account comment_id machine id attrs comment
  pub unreleased : All (Leaves settings.account id) following
  pub untaken : All (Unnamed id) comments
  pub fresh :
      is_stale settings.stale_after_seconds now (posted comment_id machine attrs comment) ≡ false

module _ (settings : ClaimSettings) (comment_id : ℕ) (id : String) (now : ℕ)
    (comments : List Comment) (s : Stands settings comment_id id now comments) where
  abbrev standing : Claim
  standing = posted comment_id s.machine s.attrs s.comment

  abbrev claims : List Claim
  claims = parse_claims comments settings.account

  mem-standing : Memᴰ standing claims
  mem-standing = rw s.split (
      mem-posted settings.account comment_id s.machine id s.attrs s.before s.comment s.following
        s.claim s.unreleased)

  untaken : any (str_eq id) (replaced_ids claims) ≡ false
  unfolding parse_claims replaced_ids any
  untaken = names-read_on id settings.account [] comments refl s.untaken

  live : is_live (replaced_ids claims) settings.stale_after_seconds now standing ≡ true
  unfolding has_id is_stale
  live = rw (s.claim.named, untaken, s.fresh) refl

  abbrev is_live_now : Claim → Bool
  is_live_now = is_live (replaced_ids claims) settings.stale_after_seconds now

  mem-live : Memᴰ standing (select is_live_now claims)
  mem-live = mem-select is_live_now claims mem-standing live

  -- There is a first live claim, no younger than the one that stands.
  pub first_live :
      (owner : Claim) × (rest : List Claim) × (live_claims comments settings now ≡ owner ∷ rest)
      × Memᴰ owner (parse_claims comments settings.account)
      × (owner.comment_id ≤ comment_id)
  unfolding live_claims
  first_live = at_live (sort_by key (select is_live_now claims)) refl
    where
      key : Claim → ℕ
      key c = c.comment_id

      at_live :
          (l : List Claim)
          → sort_by key (select is_live_now claims) ≡ l
          → (owner : Claim) × (rest : List Claim) × (l ≡ owner ∷ rest)
            × Memᴰ owner claims
            × (owner.comment_id ≤ comment_id)
      at_live [] e =
          elim (subst (λ l. Memᴰ standing l) e
            (mem-sort_by key (select is_live_now claims) mem-live)) [ ]
      at_live (owner ∷ rest) e =
          let le = sort_by-head key (select is_live_now claims) owner rest e mem-live in
          let m =
            mem-sort_by_inv key (select is_live_now claims)
              (subst (λ l. Memᴰ owner l) (sym e) (Memᴰ.head refl)) in
          (owner, rest, refl, (mem-select_inv is_live_now claims {x = owner} m).0, le)

  pub mem-live_claims : Memᴰ standing (live_claims comments settings now)
  unfolding live_claims
  mem-live_claims = mem-sort_by (λ c. c.comment_id) (select is_live_now claims) mem-live
