-- ===== src/Slots/Semaphore.antt =====
-- What core/slots.py uses of asyncio.Semaphore, with the slots in one record. A release hands the
-- slot to the first task that waits: its future is done, and it holds a slot of the semaphore from
-- then on, but it runs only later.
use ctrlrelay.Base.{ℕ, suc, zero, ◌+◌, ◌-◌, Bool, ◌&&◌, ◌||◌, Option, ltb, ◌==◌, if◌then◌else◌}

-- `AgentSlots`: `value` is the semaphore's, `waiting` counts the tasks queued in it whose future is
-- not done, `woken` those whose future is done and that have not run yet.
pub record Slots : Type 0 where
  pub limit : Option ℕ
  pub value : ℕ
  pub waiting : ℕ
  pub woken : ℕ
  pub busy : ℕ
  pub closed : Bool
  pub released : Bool

-- `locked()`: no slot is free, or a task is queued.
abbrev pub is_locked : Slots → Bool
is_locked s = s.value == 0 || ltb 0 s.waiting || ltb 0 s.woken

-- `_wake_next()`.
abbrev pub wake_next : Slots → Slots
wake_next s =
    if ltb 0 s.waiting
    then record s { value = s.value - 1; waiting = s.waiting - 1; woken = s.woken + 1 }
    else s

-- `release()` of the semaphore.
abbrev pub give_back : Slots → Slots
give_back s = wake_next (record s { value = s.value + 1 })

-- `while self._value > 0: if not self._wake_next(): break`, at most once for each task queued.
unfoldable pub wake_all : ℕ → Slots → Slots
wake_all zero s = s
wake_all (suc n) s =
    let rest = wake_all n (wake_next s) in if ltb 0 s.value && ltb 0 s.waiting then rest else s
