-- ===== src/Pulls/Runs.antt =====
-- Stretches of the answers that the loops over a pull request get.
use ctrlrelay.Base.{ℕ, zero, suc, ◌+◌, Bool, true, ◌&&◌}

-- The test holds of `first` and of the `n - 1` numbers after it.
unfoldable pub all_from : (ℕ → Bool) → ℕ → ℕ → Bool
all_from p first zero = true
all_from p first (suc n) = all_from p first n && p (first + n)
