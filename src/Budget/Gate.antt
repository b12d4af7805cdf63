-- ===== src/Budget/Gate.antt =====
-- core/github_budget.py: a bucket's state, and the gate that holds calls back while it is used up.
use ctrlrelay.Base.{
  ℕ, refl, ◌*◌, ◌≡◌, ◌<◌, ◌↔◌, Bool, true, false, not, ◌&&◌, String, Option, none, some, List,
  arith, str_eq, ltb, leb, ◌==◌, if◌then◌else◌, find, any,
}

pub record Bucket : Type 0 where
  pub remaining : ℕ
  pub limit : ℕ
  pub resets_at : ℕ
  pub per_minute : Bool

pub data BucketState : Type 0 where
  plenty : BucketState
  low : BucketState
  out : BucketState
  unknown : BucketState

-- `low_at` as a fraction.
pub record Fraction : Type 0 where
  pub num : ℕ
  pub den : ℕ

-- `remaining / limit < low_at`, for a positive limit.
abbrev pub is_below : Fraction → Bucket → Bool
is_below low_at b = ltb (b.remaining * low_at.den) (low_at.num * b.limit)

unfoldable pub bucket_state : Fraction → ℕ → Bucket → BucketState
bucket_state low_at now b =
    if leb b.resets_at now
    then unknown
    else if b.remaining == 0
    then out
    else if ltb 0 b.limit && is_below low_at b && not b.per_minute
    then low
    else plenty

abbrev pub is_out : BucketState → Bool
is_out out = true
is_out s = false

abbrev pub is_low_or_out : BucketState → Bool
is_low_or_out low = true
is_low_or_out out = true
is_low_or_out s = false

-- `BudgetReading.buckets`; none where the budget could not be read.
abbrev pub Reading : Type 0
Reading = Option (List (String × Bucket))

abbrev pub bucket_named : String → List (String × Bucket) → Option (String × Bucket)
bucket_named name buckets = find (λ entry. str_eq entry.0 name) buckets

abbrev pub held_by : Fraction → ℕ → Option (String × Bucket) → Option ℕ
held_by low_at now none = none
held_by low_at now (some (name, b)) =
    if is_out (bucket_state low_at now b) then some b.resets_at else none

unfoldable pub blocked_until : Fraction → ℕ → Reading → Option String → Option ℕ
blocked_until low_at now none bucket = none
blocked_until low_at now (some buckets) none = none
blocked_until low_at now (some buckets) (some name) = held_by low_at now (bucket_named name buckets)

unfoldable pub is_low : Fraction → ℕ → Reading → Bool
is_low low_at now none = false
is_low low_at now (some buckets) =
    any (λ entry. is_low_or_out (bucket_state low_at now entry.1)) buckets

held_by-out :
    (low_at : Fraction) (now t : ℕ) (o : Option (String × Bucket))
    → (held_by low_at now o ≡ some t) ↔ (
        (entry : String × Bucket) × (o ≡ some entry)
        × (entry.1.remaining ≡ 0)
        × (entry.1.resets_at ≡ t)
        × (now < t))
unfolding bucket_state
held_by-out low_at now t none = (λ h. cc, λ (_, e, _, _, _). cc)
held_by-out low_at now t (some (n, b)) = (
  λ h. ((n, b), refl, ground arith, ground arith, ground arith),
  λ ((n', b'), e, r, at, lt). ground arith,
)

-- A hold ends and is no guess. A call is held back until a time exactly where its bucket is known, in
-- a reading that could be taken, has nothing left, and resets at that time, which is still to come.
-- So with the same reading no call is held once the reset has passed.
pub held_until_reset :
    (low_at : Fraction) (now t : ℕ) (reading : Reading) (bucket : Option String)
    → (blocked_until low_at now reading bucket ≡ some t) ↔ (
        (name : String) × (buckets : List (String × Bucket)) × (entry : String × Bucket) × (bucket
          ≡ some name)
        × (reading ≡ some buckets)
        × (bucket_named name buckets ≡ some entry)
        × (entry.1.remaining ≡ 0)
        × (entry.1.resets_at ≡ t)
        × (now < t))
unfolding blocked_until
held_until_reset low_at now t none bucket = (λ h. cc, λ (_, _, _, _, e, _, _, _, _). cc)
held_until_reset low_at now t (some buckets) none = (λ h. cc, λ (_, _, _, e, _, _, _, _, _). cc)
held_until_reset low_at now t (some buckets) (some name) =
    let (held, back) = held_by-out low_at now t (bucket_named name buckets) in
    (
      λ h. let (entry, e, r, at, lt) = held h in (name, buckets, entry, refl, refl, e, r, at, lt),
      λ (name', buckets', entry, e₁, e₂, found, r, at, lt).
          let same : bucket_named name buckets ≡ some entry = cc in back (entry, same, r, at, lt),
    )
