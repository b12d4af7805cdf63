-- ===== src/Claims/Foreign.antt =====
-- core/claims.py: comments of other accounts, and failure reports of old versions.
use ctrlrelay.Base.{ℕ, ◌≡◌, refl, Bool, String, List, [], ◌∷◌, str_eq, Bool-cases, inl, inr, select}
use ctrlrelay.Claims.Records.{Comment, Claim, ClaimSettings}
use ctrlrelay.Claims.Reading.{
  parse_claims, read_on, read_comment, live_claims, other_owner, stale_claims,
}
use ctrlrelay.Claims.Acquire.{acquire_plan, race_verdict, to_replace}

abbrev pub is_own : String → Comment → Bool
is_own account y = str_eq y.author account

read_on-own :
    (account : String) (claims : List Claim) (ys : List Comment)
    → read_on account claims (select (is_own account) ys) ≡ read_on account claims ys
unfolding read_on select
read_on-own account claims [] = refl
read_on-own account claims (y ∷ ys) = elim (Bool-cases (str_eq y.author account)) [
  | inl own ↦ rw (own, read_on, own) (read_on-own account (read_comment claims y) ys)
  | inr other ↦ rw other (read_on-own account claims ys)
]

-- Nobody but the relay's account holds or frees an issue: what a machine decides, at its first
-- reading and in the race, is what it would decide were the other authors' comments not there.
pub only_own_comments_count :
    (settings : ClaimSettings) (now : ℕ) (token : String) (comments : List Comment)
    → let own = select (is_own settings.account) comments in
      (acquire_plan own settings now ≡ acquire_plan comments settings now)
      × (race_verdict own settings now token ≡ race_verdict comments settings now token)
unfolding acquire_plan race_verdict other_owner live_claims to_replace stale_claims parse_claims
only_own_comments_count settings now token comments =
    rw (read_on-own settings.account [] comments) (refl, refl)
