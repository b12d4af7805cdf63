-- ===== src/Budget/Examples.antt =====
-- core/github_budget.py: the gate at a concrete reading.
use ctrlrelay.Base.{◌≡◌, ◌<◌, ◌↔◌, String, false, some, List, [], ◌∷◌}
use ctrlrelay.Budget.Gate.{Bucket, Fraction, bucket_named, blocked_until, held_until_reset}

abbrev fifth : Fraction
fifth = record { num = 1; den = 5 }

-- The core bucket is used up until 5000.
abbrev used_up : List (String × Bucket)
used_up = ("core", record { remaining = 0; limit = 100; resets_at = 5000; per_minute = false }) ∷ []

held_until_reset_example : (blocked_until fifth 4000 (some used_up) (some "core") ≡ some 5000) ↔ (
    (name : String) × (buckets : List (String × Bucket)) × (entry : String × Bucket) × (some "core"
      ≡ some name)
    × (some used_up ≡ some buckets)
    × (bucket_named name buckets ≡ some entry)
    × (entry.1.remaining ≡ 0)
    × (entry.1.resets_at ≡ 5000)
    × (4000 < 5000))
held_until_reset_example = held_until_reset fifth 4000 5000 (some used_up) (some "core")
