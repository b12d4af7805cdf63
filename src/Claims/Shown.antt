-- ===== src/Claims/Shown.antt =====
-- core/claims.py: what an edit of the comment of a claim leaves of it.
use ctrlrelay.Base.{
  ℕ, ◌≡◌, refl, ◌∙◌, true, false, String, some, List, [], ◌∷◌, ◌++◌, arith, find, update, num_is,
  All, ap,
}
use ctrlrelay.Claims.Records.{Attrs, Comment, ClaimSettings}
use ctrlrelay.Claims.Acquire.{claim_attrs, rewritten_claim}
use ctrlrelay.Claims.Kept.{Leaves, IsClaim}

module _ (settings : ClaimSettings) (comment_id : ℕ) (token : String) where
  -- A comment with a number of its own.
  abbrev pub IsApart : Comment → Type 0
  IsApart y = num_is y.id comment_id ≡ false

  -- The taker's comment is there, names what it took over, and is not released.
  pub record Shows (replaces : List String) (comments : List Comment) : Type 0 where
    pub before : List Comment
    pub following : List Comment
    pub post : Comment
    pub attrs : Attrs
    pub split : comments ≡ before ++ post ∷ following
    pub claim : IsClaim settings.account comment_id settings.node token attrs post
    pub named : attrs.replaces ≡ replaces
    pub apart_before : All IsApart before
    pub apart_following : All IsApart following
    pub left : All (Leaves settings.account token) following

  update-apart :
      (f : Comment → Comment) (ys : List Comment)
      → All IsApart ys
      → update (λ c. num_is c.id comment_id) f ys ≡ ys
  unfolding update
  update-apart f [] h = refl
  update-apart f (y ∷ ys) (h, hs) = rw h (ap (λ zs. y ∷ zs) (update-apart f ys hs))

  update-split :
      (f : Comment → Comment) (xs : List Comment) (y : Comment) (ys : List Comment)
      → All IsApart xs
      → num_is y.id comment_id ≡ true
      → All IsApart ys
      → update (λ c. num_is c.id comment_id) f (xs ++ y ∷ ys) ≡ xs ++ f y ∷ ys
  unfolding update
  update-split f [] y ys a h b = rw h (ap (λ zs. f y ∷ zs) (update-apart f ys b))
  update-split f (x ∷ xs) y ys (n, a) h b = rw n (ap (λ zs. x ∷ zs) (update-split f xs y ys a h b))

  pub find-split :
      (xs : List Comment) (y : Comment) (ys : List Comment)
      → All IsApart xs
      → num_is y.id comment_id ≡ true
      → find (λ c. num_is c.id comment_id) (xs ++ y ∷ ys) ≡ some y
  unfolding find
  find-split [] y ys a h = rw h refl
  find-split (x ∷ xs) y ys (n, a) h = rw n (find-split xs y ys a h)

  pub is_its : (y : Comment) → y.id ≡ some comment_id → num_is y.id comment_id ≡ true
  is_its y e = rw e (ground arith)

  -- What the keeper writes over the comment names the same.
  pub rewritten-Shows :
      (replaces : List String) (now : ℕ) (state run : String) (comments : List Comment)
      → Shows replaces comments
      → Shows replaces (
          update
            (λ c. num_is c.id comment_id)
            (rewritten_claim now (claim_attrs settings.node token state now replaces run))
            comments)
  rewritten-Shows replaces now state run comments s = record {
    before = s.before;
    following = s.following;
    post = rewritten_claim now (claim_attrs settings.node token state now replaces run) s.post;
    attrs = claim_attrs settings.node token state now replaces run;
    split =
        ap (update (λ c. num_is c.id comment_id) _) s.split
        ∙ update-split _ s.before s.post s.following s.apart_before (is_its s.post s.claim.numbered)
            s.apart_following;
    claim = record {
      own = s.claim.own;
      numbered = s.claim.numbered;
      unreleased = refl;
      unfailed = refl;
      marked = refl;
      by = refl;
      named = refl;
    };
    named = refl;
    apart_before = s.apart_before;
    apart_following = s.apart_following;
    left = s.left;
  }
