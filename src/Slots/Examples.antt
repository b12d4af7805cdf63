-- ===== src/Slots/Examples.antt =====
-- core/slots.py: the theorems at concrete slots.
use ctrlrelay.Base.{◌≡◌, ◌≤◌, ◌<◌, ◌⊎◌, refl, true, some, List, [], ◌∷◌}
use ctrlrelay.Slots.Agent.{
  SlotOp, wait_for_one, take_one, go_on, put_back, fresh, run_slots, new_slots, close,
}
use ctrlrelay.Slots.Limit.{never_over_limit}

-- Two slots: two runs, a third that waits and is woken, one that does not wait.
abbrev busy_day : List SlotOp
busy_day = wait_for_one ∷ wait_for_one ∷ wait_for_one ∷ put_back ∷ take_one ∷ go_on ∷ []

-- The daemon shuts down while two runs are under way and one task waits.
abbrev evening : List SlotOp
evening = go_on ∷ wait_for_one ∷ put_back ∷ take_one ∷ go_on ∷ []

never_over_limit_example :
    let r = run_slots busy_day (fresh (some 2)) in
    ((r.busy ≤ 2) × ((r.closed ≡ true) ⊎ (r.waiting ≡ 0) ⊎ (r.value ≡ 0) ⊎ (0 < r.woken)))
    × ((run_slots evening (close r)).closed ≡ true)
    × ((run_slots evening (close r)).busy ≤ r.busy)
unfolding new_slots
never_over_limit_example = never_over_limit 2 (fresh (some 2)) busy_day evening refl
