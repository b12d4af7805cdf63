-- ===== src/Claims/Takeover.antt =====
-- core/claims.py: what a new claim takes over.
use mathlib.Core.List.{Memᴰ}
use ctrlrelay.Base.{
  ℕ, ◌≡◌, ◌≢◌, ◌⊎◌, inl, inr, refl, ◌∙◌, true, String, Option, none, some, List, [], ◌∷◌, arith,
  str_eq, eq_iff, eq_refl, any, Bool-cases, Option-cases,
}
use ctrlrelay.Base.Members.{mem-select, mem-select_inv, mem-sort_by_inv}
use ctrlrelay.Claims.Records.{Comment, Claim, ClaimSettings}
use ctrlrelay.Claims.Reading.{
  parse_claims, live_claims, other_owner, is_stale, has_id, replaced_ids, stale_claims,
  may_take_over,
}
use ctrlrelay.Claims.Acquire.{claim_anew, acquire_plan, to_replace, ids_of, plan_of, first_named}
use ctrlrelay.Base.Members.{any-append}
use ctrlrelay.Claims.Replaced.{names}

-- No live claim of a reading has an id that an unreleased claim in it names.
pub named-out :
    (settings : ClaimSettings) (now : ℕ) (comments : List Comment) (id : String) (c : Claim)
    → names id (parse_claims comments settings.account) ≡ true
    → Memᴰ c (live_claims comments settings now)
    → c.claim_id ≢ some id
unfolding live_claims has_id
named-out settings now comments id c named m e =
    let (_, live) = mem-select_inv _ claims {x = c} (mem-sort_by_inv _ _ {x = c} m) in
    ground (arith, e, named, live)
  where
    claims : List Claim
    claims = parse_claims comments settings.account

mem-ids_of :
    (cs : List Claim) (c : Claim) (id : String)
    → c.claim_id ≡ some id
    → Memᴰ c cs
    → any (str_eq id) (ids_of cs) ≡ true
unfolding ids_of any
mem-ids_of [] c id e m = elim m [ ]
mem-ids_of (x ∷ xs) c id e (Memᴰ.head same) = rw (← same, e, eq_refl id) refl
mem-ids_of (x ∷ xs) c id e (Memᴰ.tail m) = elim (Option-cases x.claim_id) [
  | inl bare ↦ rw bare (mem-ids_of xs c id e m)
  | inr (other, named) ↦ rw named (ground (arith, mem-ids_of xs c id e m))
]

-- What a new claim takes over: what was taken over before, and the stale claims of other machines.
pub mem-to_replace :
    (settings : ClaimSettings) (now : ℕ) (comments : List Comment) (id : String) (c : Claim)
    → Memᴰ c (parse_claims comments settings.account)
    → c.claim_id ≡ some id
    → (names id (parse_claims comments settings.account) ≡ true)
      ⊎ ((c.node ≢ settings.node) × (is_stale settings.stale_after_seconds now c ≡ true))
    → any (str_eq id) (to_replace comments settings now) ≡ true
unfolding to_replace stale_claims
mem-to_replace settings now comments id c m e (inl before) =
    any-append (str_eq id) (ids_of (stale_claims comments settings now))
      (replaced_ids (parse_claims comments settings.account))
    ∙ ground (arith, before)
mem-to_replace settings now comments id c m e (inr (other, stale)) =
    any-append (str_eq id) (ids_of (stale_claims comments settings now))
      (replaced_ids (parse_claims comments settings.account))
    ∙ rw
        (mem-ids_of (stale_claims comments settings now) c id e (
          mem-select _ (parse_claims comments settings.account) m
            (ground (arith, e, stale, eq_iff c.node settings.node))))
        refl

pub plan-replaces :
    (settings : ClaimSettings) (now : ℕ) (comments : List Comment) (replaces : List String)
    → acquire_plan comments settings now ≡ claim_anew replaces
    → to_replace comments settings now ≡ replaces
unfolding acquire_plan
plan-replaces settings now comments replaces e =
    at_plan (other_owner comments settings now) (first_named (live_claims comments settings now)) e
  where
    at_plan :
        (o : Option Claim) (mine : Option (Claim × String))
        → plan_of o mine (to_replace comments settings now) ≡ claim_anew replaces
        → to_replace comments settings now ≡ replaces
    at_plan (some owner) mine e = cc
    at_plan none (some (c, id)) e = cc
    at_plan none none e = cc

ids_of-mem :
    (id : String) (cs : List Claim)
    → any (str_eq id) (ids_of cs) ≡ true
    → (c : Claim) × Memᴰ c cs × (c.claim_id ≡ some id)
unfolding ids_of any
ids_of-mem id [] h = cc
ids_of-mem id (c ∷ cs) h = elim (Option-cases c.claim_id) [
  | inl bare ↦ later (ids_of-mem id cs (rw (bare, ids_of) at h))
  | inr (other, named) ↦ elim (Bool-cases (str_eq id other)) [
    | inl same ↦ (c, Memᴰ.head refl, ground (arith, named, eq_iff id other))
    | inr differ ↦ later (ids_of-mem id cs (ground (arith, named, differ, h)))
  ]
]
  where
    later :
        (x : Claim) × Memᴰ x cs × (x.claim_id ≡ some id)
        → (x : Claim) × Memᴰ x (c ∷ cs) × (x.claim_id ≡ some id)
    later (x, m, e) = (x, Memᴰ.tail m, e)

-- Only what is stale is taken over. Where a machine decides to claim anew, each id that its claim
-- names was named before by a claim in its reading, or is the id of a claim of another machine in
-- it that is stale.
pub only_stale_replaced :
    (settings : ClaimSettings) (now : ℕ) (comments : List Comment) (id : String)
    (replaces : List String)
    → acquire_plan comments settings now ≡ claim_anew replaces
    → any (str_eq id) replaces ≡ true
    → (names id (parse_claims comments settings.account) ≡ true)
      ⊎ ((c : Claim) × Memᴰ c (parse_claims comments settings.account)
          × (c.claim_id ≡ some id)
          × (c.node ≢ settings.node)
          × (is_stale settings.stale_after_seconds now c ≡ true))
unfolding to_replace stale_claims
only_stale_replaced settings now comments id replaces plan named =
    elim (Bool-cases (names id claims)) [
      | inl before ↦ inl before
      | inr untaken ↦
          let both =
            any-append (str_eq id) (ids_of (stale_claims comments settings now))
              (replaced_ids claims) in
          let (c, m, e) = ids_of-mem id (stale_claims comments settings now) (
            ground
              (arith, both, untaken, named, plan-replaces settings now comments replaces plan)) in
          let (m', may) = mem-select_inv (may_take_over settings now) claims {x = c} m in
          inr (c, m', e, ground (arith, may, eq_iff c.node settings.node), ground (arith, may))
    ]
  where
    claims : List Claim
    claims = parse_claims comments settings.account
