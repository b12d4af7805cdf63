-- ===== src/Claims/Replaced.antt =====
-- core/claims.py: which ids the claims of a reading name as taken over (`_replaced_ids`).
use mathlib.Core.List.{Memᴰ}
use ctrlrelay.Base.{
  ℕ, ◌≡◌, ◌∙◌, refl, Bool, true, false, ◌||◌, String, Option, none, some, List, [], ◌∷◌, ◌++◌,
  arith, str_eq, any, delete, All, Bool-cases, Option-cases, inl, inr,
}
use ctrlrelay.Base.Members.{any-append}
use ctrlrelay.Claims.Records.{Attrs, Comment, Claim}
use ctrlrelay.Claims.Reading.{read_comment, read_on, replaced_ids, claim_of}

-- A comment that takes no claim with this id over.
abbrev pub Unnamed : String → Comment → Type 0
Unnamed id y = (attrs : Attrs) → y.claimed ≡ some attrs → any (str_eq id) attrs.replaces ≡ false

module _ (id : String) where
  abbrev pub names : List Claim → Bool
  names cs = any (str_eq id) (replaced_ids cs)

  pub names-cons :
      (c : Claim) (cs : List Claim) → names (c ∷ cs) ≡ (any (str_eq id) c.replaces || names cs)
  unfolding replaced_ids
  names-cons c cs = any-append (str_eq id) c.replaces (replaced_ids cs)

  pub names-mem :
      (cs : List Claim) (c : Claim)
      → Memᴰ c cs
      → any (str_eq id) c.replaces ≡ true
      → names cs ≡ true
  names-mem [] c m h = elim m [ ]
  names-mem (x ∷ xs) c (Memᴰ.head e) h = names-cons x xs ∙ rw (← e) (rw h refl)
  names-mem (x ∷ xs) c (Memᴰ.tail m) h = names-cons x xs ∙ ground (arith, names-mem xs c m h)

  names-delete :
      (p : Claim → Bool) (cs : List Claim) → names cs ≡ false → names (delete p cs) ≡ false
  unfolding delete
  names-delete p [] h = h
  names-delete p (c ∷ cs) h = elim (Bool-cases (p c)) [
    | inl hit ↦ rw hit (names-delete p cs (ground (arith, names-cons c cs)))
    | inr miss ↦
        rw miss (ground (arith, names-cons c cs, names-cons c (delete p cs), names-delete p cs))
  ]

  names-snoc :
      (cs : List Claim) (c : Claim)
      → names cs ≡ false
      → any (str_eq id) c.replaces ≡ false
      → names (cs ++ c ∷ []) ≡ false
  names-snoc [] c h k = names-cons c [] ∙ ground (arith, h, k)
  names-snoc (x ∷ xs) c h k =
      ground (arith, names-cons x xs, names-cons x (xs ++ c ∷ []), names-snoc xs c)

  claim_of-replaces :
      (n : Option ℕ) (named : Option String) (at : Option ℕ) (attrs : Attrs)
      → any (str_eq id) attrs.replaces ≡ false
      → any (str_eq id) (claim_of n named at attrs).replaces ≡ false
  unfolding claim_of any
  claim_of-replaces none named at attrs h = refl
  claim_of-replaces (some k) none at attrs h = refl
  claim_of-replaces (some k) (some _) at attrs h = h

  names-read_comment :
      (claims : List Claim) (y : Comment)
      → names claims ≡ false
      → Unnamed id y
      → names (read_comment claims y) ≡ false
  unfolding read_comment
  names-read_comment claims y h u = elim (Option-cases y.released) [
    | inr (gone, e) ↦ rw e (names-delete _ claims h)
    | inl e ↦ rw e (elim (Bool-cases y.dispatch_failed) [
      | inl failed ↦ rw failed (names-delete _ claims h)
      | inr fine ↦ rw fine (elim (Option-cases y.claimed) [
        | inl bare ↦ rw bare h
        | inr (attrs, marked) ↦ rw marked (
            names-snoc claims _ h
              (claim_of-replaces y.id attrs.node y.written_at attrs (u attrs marked)))
      ])
    ])
  ]

  pub names-read_on :
      (account : String) (claims : List Claim) (ys : List Comment)
      → names claims ≡ false
      → All (Unnamed id) ys
      → names (read_on account claims ys) ≡ false
  unfolding read_on
  names-read_on account claims [] h u = h
  names-read_on account claims (y ∷ ys) h (u, us) = elim (Bool-cases (str_eq y.author account)) [
    | inl own ↦
        rw own
          (names-read_on account (read_comment claims y) ys (names-read_comment claims y h u) us)
    | inr other ↦ rw other (names-read_on account claims ys h us)
  ]
