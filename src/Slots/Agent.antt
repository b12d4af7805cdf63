-- ===== src/Slots/Agent.antt =====
-- core/slots.py: `AgentSlots`, each method up to where it waits, and the tasks that run on.
use ctrlrelay.Base.{
  ℕ, suc, zero, ◌+◌, ◌-◌, Bool, true, false, Option, none, some, List, [], ◌∷◌, ltb, is_some,
  or_else, if◌then◌else◌,
}
use ctrlrelay.Slots.Semaphore.{Slots, is_locked, give_back, wake_all}

abbrev pub fresh : Option ℕ → Slots
fresh limit = record {
  limit = limit;
  value = or_else limit 0;
  waiting = 0;
  woken = 0;
  busy = 0;
  closed = false;
  released = false;
}

-- `AgentSlots(limit)`, or `ValueError`.
unfoldable pub new_slots : Option ℕ → Option Slots
new_slots none = some (fresh none)
new_slots (some n) = if ltb n 1 then none else some (fresh (some n))

abbrev start_run : Slots → Slots
start_run s = record s { busy = s.busy + 1 }

abbrev with_slot : Slots → Slots
with_slot s = record s { value = s.value - 1; busy = s.busy + 1 }

-- `acquire`, up to the wait: it raises once the slots are closed, takes a free slot, or queues.
unfoldable pub acquire : Slots → Slots
acquire s =
    if s.closed
    then s
    else if is_some s.limit
    then (if is_locked s then record s { waiting = s.waiting + 1 } else with_slot s)
    else start_run s

abbrev pub runs_on : Slots → Slots
runs_on s = if s.closed then give_back s else start_run s

-- A woken task runs on: the end of the semaphore's `acquire`, and the second look at `closed`.
unfoldable pub run_on : Slots → Slots
run_on s =
    if ltb 0 s.woken then runs_on (wake_all s.waiting (record s { woken = s.woken - 1 })) else s

-- A queued task is cancelled, before or after its future is done.
unfoldable pub cancel_waiting : Slots → Slots
cancel_waiting s =
    if ltb 0 s.waiting
    then (let left = record s { waiting = s.waiting - 1 } in wake_all left.waiting left)
    else s

unfoldable pub cancel_woken : Slots → Slots
cancel_woken s =
    if ltb 0 s.woken
    then wake_all s.waiting (record s { woken = s.woken - 1; value = s.value + 1 })
    else s

unfoldable pub try_acquire : Slots → Bool × Slots
try_acquire s =
    if s.closed
    then (false, s)
    else if is_some s.limit
    then (if is_locked s then (false, s) else (true, with_slot s))
    else (true, start_run s)

-- A run that holds a slot gives it back.
unfoldable pub release : Slots → Slots
release s =
    if ltb 0 s.busy
    then (let freed = record s { busy = s.busy - 1 } in
        let woke = if is_some s.limit then give_back freed else freed in
        record woke { released = true })
    else s

-- One release for each task in the queue of the semaphore.
unfoldable pub give_back_times : ℕ → Slots → Slots
give_back_times zero s = s
give_back_times (suc n) s = give_back_times n (give_back s)

unfoldable pub close : Slots → Slots
unfolding give_back_times
close s =
    let shut = record s { closed = true } in
    if is_some s.limit then give_back_times (s.waiting + s.woken) shut else shut

unfoldable pub clear_released : Slots → Slots
clear_released s = record s { released = false }

pub data SlotOp : Type 0 where
  wait_for_one : SlotOp
  take_one : SlotOp
  go_on : SlotOp
  drop_waiting : SlotOp
  drop_woken : SlotOp
  put_back : SlotOp
  shut_down : SlotOp
  forget_releases : SlotOp

unfoldable pub step_slots : SlotOp → Slots → Slots
step_slots wait_for_one s = acquire s
step_slots take_one s = let (_, s') = try_acquire s in s'
step_slots go_on s = run_on s
step_slots drop_waiting s = cancel_waiting s
step_slots drop_woken s = cancel_woken s
step_slots put_back s = release s
step_slots shut_down s = close s
step_slots forget_releases s = clear_released s

unfoldable pub run_slots : List SlotOp → Slots → Slots
run_slots [] s = s
run_slots (op ∷ ops) s = run_slots ops (step_slots op s)
