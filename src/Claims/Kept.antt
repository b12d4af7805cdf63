-- ===== src/Claims/Kept.antt =====
-- core/claims.py: which claims a reading of the comments keeps.
use mathlib.Core.List.{Memᴰ}
use ctrlrelay.Base.{
  ℕ, ◌≡◌, ◌≢◌, inl, inr, refl, Bool, true, false, String, none, some, List, [], ◌∷◌, ◌++◌, arith,
  str_eq, eq_iff, text_is, is_none, delete, All, Bool-cases, Option-cases, if◌then◌else◌, or_else,
}
use ctrlrelay.Claims.Records.{Attrs, Comment, Claim}
use ctrlrelay.Claims.Reading.{read_comment, read_on, parse_claims, claim_of, held}

module _ {A : Type 0} where
  mem-delete : (p : A → Bool) (xs : List A) {x : A} → Memᴰ x xs → p x ≡ false → Memᴰ x (delete p xs)
  unfolding delete
  mem-delete p [] m h = elim m [ ]
  mem-delete p (y ∷ ys) (Memᴰ.head e) h = rw (rw e at h) (Memᴰ.head e)
  mem-delete p (y ∷ ys) (Memᴰ.tail m) h = elim (Bool-cases (p y)) [
    | inl hit ↦ rw hit (mem-delete p ys m h)
    | inr miss ↦ rw miss (Memᴰ.tail (mem-delete p ys m h))
  ]

  pub mem-append_left : (xs ys : List A) {x : A} → Memᴰ x xs → Memᴰ x (xs ++ ys)
  mem-append_left [] ys m = elim m [ ]
  mem-append_left (z ∷ zs) ys (Memᴰ.head e) = Memᴰ.head e
  mem-append_left (z ∷ zs) ys (Memᴰ.tail m) = Memᴰ.tail (mem-append_left zs ys m)

  pub mem-append_last : (xs : List A) (x : A) → Memᴰ x (xs ++ x ∷ [])
  mem-append_last [] x = Memᴰ.head refl
  mem-append_last (z ∷ zs) x = Memᴰ.tail (mem-append_last zs x)

-- A comment that the relay's account did not write, or that does not release this claim.
abbrev pub Leaves : String → String → Comment → Type 0
Leaves account id y = str_eq y.author account ≡ true → y.released ≢ some id

pub read_on-append :
    (account : String) (claims : List Claim) (xs ys : List Comment)
    → read_on account claims (xs ++ ys) ≡ read_on account (read_on account claims xs) ys
unfolding read_on
read_on-append account claims [] ys = refl
read_on-append account claims (x ∷ xs) ys =
    read_on-append account (if str_eq x.author account then read_comment claims x else claims) xs ys

-- A failure report of an old version does not end a claim that has an id.
read_comment-keeps :
    (claims : List Claim) (y : Comment) (c : Claim) (id : String)
    → c.claim_id ≡ some id
    → y.released ≢ some id
    → Memᴰ c claims
    → Memᴰ c (read_comment claims y)
unfolding read_comment
read_comment-keeps claims y c id named left m = elim (Option-cases y.released) [
  | inr (gone, e) ↦ rw e (
      mem-delete (λ x. text_is x.claim_id gone) claims m
        (rw named (ground (arith, eq_iff id gone, e))))
  | inl e ↦ rw e (elim (Bool-cases y.dispatch_failed) [
    | inl failed ↦ rw failed (mem-delete (λ x. is_none x.claim_id) claims m (rw named refl))
    | inr fine ↦ rw fine (elim (Option-cases y.claimed) [
      | inl bare ↦ rw bare m
      | inr (attrs, marked) ↦ rw marked (mem-append_left claims _ m)
    ])
  ])
]

pub read_on-keeps :
    (account : String) (claims : List Claim) (ys : List Comment) (c : Claim) (id : String)
    → c.claim_id ≡ some id
    → All (Leaves account id) ys
    → Memᴰ c claims
    → Memᴰ c (read_on account claims ys)
unfolding read_on
read_on-keeps account claims [] c id named left m = m
read_on-keeps account claims (y ∷ ys) c id named (h, hs) m =
    elim (Bool-cases (str_eq y.author account)) [
      | inl own ↦ rw own (
          read_on-keeps account (read_comment claims y) ys c id named hs
            (read_comment-keeps claims y c id named (h own) m))
      | inr other ↦ rw other (read_on-keeps account claims ys c id named hs m)
    ]

-- A comment of the relay's account with a claim marker that names a machine and an id.
pub record IsClaim (account : String) (comment_id : ℕ) (machine id : String) (attrs : Attrs)
    (y : Comment) : Type 0 where
  pub own : str_eq y.author account ≡ true
  pub numbered : y.id ≡ some comment_id
  pub unreleased : y.released ≡ none
  pub unfailed : y.dispatch_failed ≡ false
  pub marked : y.claimed ≡ some attrs
  pub by : attrs.node ≡ some machine
  pub named : attrs.id ≡ some id

abbrev pub posted : ℕ → String → Attrs → Comment → Claim
posted comment_id machine attrs y = record {
  comment_id = comment_id;
  node = machine;
  claim_id = attrs.id;
  state = or_else attrs.state held;
  updated_at = y.written_at;
  replaces = attrs.replaces;
  run = attrs.run;
  seen = attrs.seen;
}

-- Whatever stands before such a comment, and whatever follows it, its claim is in the reading until
-- it is released.
pub mem-posted :
    (account : String) (comment_id : ℕ) (machine id : String) (attrs : Attrs) (xs : List Comment)
    (y : Comment) (ys : List Comment)
    → IsClaim account comment_id machine id attrs y
    → All (Leaves account id) ys
    → Memᴰ (posted comment_id machine attrs y) (parse_claims (xs ++ y ∷ ys) account)
unfolding parse_claims read_on read_comment claim_of
mem-posted account comment_id machine id attrs xs y ys c left =
    rw (read_on-append account [] xs (y ∷ ys)) (
      rw (c.own, c.unreleased, c.unfailed, c.marked, c.numbered, c.by)
        (read_on-keeps account _ ys (posted comment_id machine attrs y) id c.named left
          (mem-append_last (read_on account [] xs) (posted comment_id machine attrs y))))
