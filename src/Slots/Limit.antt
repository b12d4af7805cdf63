-- ===== src/Slots/Limit.antt =====
-- core/slots.py: the limit holds, no task waits beside a free slot, and nothing starts after a close.
use ctrlrelay.Base.{
  ℕ, suc, zero, ◌+◌, ◌-◌, ◌≡◌, ◌≤◌, ◌<◌, ◌⊎◌, inl, inr, refl, ◌∙◌, true, false, ◌&&◌, some, List,
  [], ◌∷◌, arith, ltb, Bool-cases,
}
use ctrlrelay.Slots.Semaphore.{Slots, wake_next, give_back, wake_all}
use ctrlrelay.Slots.Agent.{
  acquire, run_on, cancel_waiting, cancel_woken, try_acquire, release, close, clear_released,
  give_back_times, runs_on, fresh, SlotOp, wait_for_one, take_one, go_on, drop_waiting, drop_woken,
  put_back, shut_down, forget_releases, step_slots, run_slots, new_slots,
}

-- What waking leaves as it was, and that nobody is left to wake where a slot is free.
pub record Woke (s r : Slots) : Type 0 where
  pub limit : r.limit ≡ s.limit
  pub closed : r.closed ≡ s.closed
  pub busy : r.busy ≡ s.busy
  pub slots : r.value + r.woken ≡ s.value + s.woken
  pub ended : (r.value ≡ 0) ⊎ (r.waiting ≡ 0)

wake_all-Woke : (n : ℕ) (s : Slots) → s.waiting ≤ n → Woke s (wake_all n s)
unfolding wake_all
wake_all-Woke zero s le = record {
  limit = refl;
  closed = refl;
  busy = refl;
  slots = refl;
  ended = inr (omega arith);
}
wake_all-Woke (suc n) s le = elim (Bool-cases (ltb 0 s.value && ltb 0 s.waiting)) [
  | inr stop ↦
      rw stop
        (record { limit = refl; closed = refl; busy = refl; slots = refl; ended = ground arith })
  | inl more ↦
      let w = wake_all-Woke n (wake_next s) (ground arith) in
      rw more (record {
        limit = ground (arith, w.limit);
        closed = ground (arith, w.closed);
        busy = ground (arith, w.busy);
        slots = ground (arith, w.slots);
        ended = w.ended;
      })
]

-- The slots are all accounted for while they are open, and no task waits beside a free one.
pub record IsWithin (n : ℕ) (s : Slots) : Type 0 where
  pub limited : s.limit ≡ some n
  pub within : s.busy ≤ n
  pub counted : s.closed ≡ false → s.busy + s.value + s.woken ≡ n
  pub awake : s.closed ≡ false → (s.waiting ≡ 0) ⊎ (s.value ≡ 0) ⊎ (0 < s.woken)

run_on-IsWithin :
    (n : ℕ) (r : Slots)
    → r.limit ≡ some n
    → r.busy ≤ n
    → (r.closed ≡ false → r.busy + (r.value + r.woken) + 1 ≡ n)
    → (r.value ≡ 0) ⊎ (r.waiting ≡ 0)
    → IsWithin n (runs_on r)
run_on-IsWithin n r limited within counted ended = record {
  limited = ground arith;
  within = ground arith;
  counted = ground arith;
  awake = ground arith;
}

-- What a woken or cancelled task leaves to the others.
settled-IsWithin :
    (n : ℕ) (s r : Slots)
    → Woke s r
    → s.limit ≡ some n
    → s.busy ≤ n
    → (s.closed ≡ false → s.busy + (s.value + s.woken) ≡ n)
    → IsWithin n r
settled-IsWithin n s r w limited within counted = record {
  limited = w.limit ∙ limited;
  within = rw w.busy within;
  counted = λ e. ground (arith, w.busy, w.slots, counted, w.closed, e);
  awake = λ e. ground (arith, w.ended);
}

-- A close gives slots back that nobody counts any more.
give_back_times-keeps :
    (k : ℕ) (s : Slots)
    → ((give_back_times k s).limit ≡ s.limit)
      × ((give_back_times k s).busy ≡ s.busy)
      × ((give_back_times k s).closed ≡ s.closed)
unfolding give_back_times
give_back_times-keeps zero s = (refl, refl, refl)
give_back_times-keeps (suc k) s =
    let (a, b, c) = give_back_times-keeps k (give_back s) in
    (ground (arith, a), ground (arith, b), ground (arith, c))

step-IsWithin : (n : ℕ) (op : SlotOp) (s : Slots) → IsWithin n s → IsWithin n (step_slots op s)
unfolding step_slots acquire try_acquire clear_released release run_on cancel_waiting cancel_woken
    close
step-IsWithin n wait_for_one s h = record {
  limited = ground (arith, h.limited);
  within = ground arith;
  counted = ground arith;
  awake = ground arith;
}
step-IsWithin n take_one s h = record {
  limited = ground (arith, h.limited);
  within = ground arith;
  counted = ground arith;
  awake = ground arith;
}
step-IsWithin n go_on s h = elim (Bool-cases (ltb 0 s.woken)) [
  | inr none_woken ↦ rw none_woken h
  | inl some_woken ↦
      let left = record s { woken = s.woken - 1 } in
      let w = wake_all-Woke s.waiting left (omega arith) in
      rw some_woken (
        run_on-IsWithin n (wake_all s.waiting left) (w.limit ∙ h.limited) (rw w.busy h.within)
          (λ e. ground (arith, w.busy, w.slots, w.closed, h.counted, some_woken, e)) w.ended)
]
step-IsWithin n drop_waiting s h = elim (Bool-cases (ltb 0 s.waiting)) [
  | inr none_waiting ↦ rw none_waiting h
  | inl some_waiting ↦
      let left = record s { waiting = s.waiting - 1 } in
      rw some_waiting (
        settled-IsWithin n left (wake_all left.waiting left)
          (wake_all-Woke left.waiting left (omega arith)) h.limited h.within
          (λ e. ground (arith, h.counted)))
]
step-IsWithin n drop_woken s h = elim (Bool-cases (ltb 0 s.woken)) [
  | inr none_woken ↦ rw none_woken h
  | inl some_woken ↦
      let left = record s { woken = s.woken - 1; value = s.value + 1 } in
      rw some_woken (
        settled-IsWithin n left (wake_all s.waiting left)
          (wake_all-Woke s.waiting left (omega arith)) h.limited h.within
          (λ e. ground (arith, h.counted, some_woken)))
]
step-IsWithin n put_back s h = record {
  limited = ground (arith, h.limited);
  within = ground arith;
  counted = ground arith;
  awake = ground arith;
}
step-IsWithin n shut_down s h =
    let (limit, busy, closed) =
      give_back_times-keeps (s.waiting + s.woken) (record s { closed = true }) in
    record {
      limited = ground (arith, limit, h.limited);
      within = ground (arith, busy, h.within);
      counted = λ e. absurd (ground (arith, closed, e));
      awake = λ e. absurd (ground (arith, closed, e));
    }
step-IsWithin n forget_releases s h = record {
  limited = h.limited;
  within = h.within;
  counted = h.counted;
  awake = h.awake;
}

run-IsWithin : (n : ℕ) (ops : List SlotOp) (s : Slots) → IsWithin n s → IsWithin n (run_slots ops s)
unfolding run_slots
run-IsWithin n [] s h = h
run-IsWithin n (op ∷ ops) s h = run-IsWithin n ops (step_slots op s) (step-IsWithin n op s h)

step-closed :
    (op : SlotOp) (s : Slots)
    → s.closed ≡ true
    → ((step_slots op s).closed ≡ true) × ((step_slots op s).busy ≤ s.busy)
unfolding step_slots acquire try_acquire clear_released release run_on cancel_waiting cancel_woken
    close
step-closed wait_for_one s h = ground arith
step-closed take_one s h = ground arith
step-closed go_on s h =
    let w = wake_all-Woke s.waiting (record s { woken = s.woken - 1 }) (omega arith) in
    ground (arith, w.closed, w.busy)
step-closed drop_waiting s h =
    let left = record s { waiting = s.waiting - 1 } in
    let w = wake_all-Woke left.waiting left (omega arith) in ground (arith, w.closed, w.busy)
step-closed drop_woken s h =
    let left = record s { woken = s.woken - 1; value = s.value + 1 } in
    let w = wake_all-Woke s.waiting left (omega arith) in ground (arith, w.closed, w.busy)
step-closed put_back s h = ground arith
step-closed shut_down s h =
    let (_, busy, closed) =
      give_back_times-keeps (s.waiting + s.woken) (record s { closed = true }) in
    ground (arith, busy, closed)
step-closed forget_releases s h = ground arith

-- Once the slots are closed, no call, no task that waited and no slot that a cancelled run frees ever
-- raises the number of runs, and they stay closed.
run-closed :
    (ops : List SlotOp) (s : Slots)
    → s.closed ≡ true
    → ((run_slots ops s).closed ≡ true) × ((run_slots ops s).busy ≤ s.busy)
unfolding run_slots
run-closed [] s h = (h, omega arith)
run-closed (op ∷ ops) s h =
    let (shut, le) = step-closed op s h in
    let (shut', le') = run-closed ops (step_slots op s) shut in (shut', omega arith)

close-closed : (s : Slots) → ((close s).closed ≡ true) × ((close s).busy ≤ s.busy)
unfolding close
close-closed s =
    let (_, busy, closed) =
      give_back_times-keeps (s.waiting + s.woken) (record s { closed = true }) in
    ground (arith, busy, closed)

-- The limit holds, and a shutdown starts nothing. From new slots, after any calls and cancellations in
-- any order, no more runs hold a slot than `max_parallel`, and while the slots are open no task waits
-- beside a free slot with no task woken for it. Where the slots are closed then, they stay closed, and
-- no later call, no task that waited and no slot that a cancelled run frees raises the number of runs.
pub never_over_limit :
    (n : ℕ) (s : Slots) (ops later : List SlotOp)
    → new_slots (some n) ≡ some s
    → let r = run_slots ops s in
      ((r.busy ≤ n) × ((r.closed ≡ true) ⊎ (r.waiting ≡ 0) ⊎ (r.value ≡ 0) ⊎ (0 < r.woken)))
      × ((run_slots later (close r)).closed ≡ true)
      × ((run_slots later (close r)).busy ≤ r.busy)
unfolding new_slots
never_over_limit n s ops later e =
    let r = run_slots ops s in
    let h = run-IsWithin n ops s (start (ground arith)) in
    let (shut, le) = close-closed r in
    let (still, le') = run-closed later (close r) shut in
    (
      (
        h.within,
        elim (Bool-cases r.closed) [ inl closed ↦ inl closed | inr live ↦ inr (h.awake live) ],
      ),
      still,
      omega arith,
    )
  where
    start : s ≡ fresh (some n) → IsWithin n s
    start same = rw same (record {
      limited = refl;
      within = omega arith;
      counted = λ _. omega arith;
      awake = λ _. inl refl;
    })
