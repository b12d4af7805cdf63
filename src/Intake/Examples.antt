-- ===== src/Intake/Examples.antt =====
-- core/intake_hold.py: an updater that stops the work of a poller.
use ctrlrelay.Base.{◌≡◌, refl, true, false, some, distinct, arith, find}
use ctrlrelay.Intake.Files.{missing, get, to_json, from_json}
use ctrlrelay.Intake.Hold.{
  Node, new_hold, place_hold, read_ack, active, begin, end_work, acknowledge,
}
use ctrlrelay.Intake.Quiet.{
  placed, begun, ended, acknowledged, take, Steps, start, next, wait, acknowledged_idle_is_quiet,
  active-place_hold,
}

abbrev node : Node
node = record {
  hold_file = missing;
  ack_file = missing;
  in_flight = 0;
  now = 100;
  alive = λ pid. true;
}

-- Work begins, the hold is placed, the work ends, and the poller acknowledges.
abbrev updated : Node
updated =
    take (acknowledged true)
      (take ended (take (placed true true "t1" 7 "self-update" 600) (take begun node)))

abbrev update_run : Steps node updated
unfolding take begin active from_json get find place_hold read_ack
update_run =
    next
      (next (next (next start begun tt) (placed true true "t1" 7 "self-update" 600) refl) ended tt)
      (acknowledged true) tt

acknowledged_idle_is_quiet_example :
    (updated.in_flight ≡ 0)
    × (begin updated ≡ (some (new_hold "t1" 7 "self-update" 600 100), updated))
unfolding take begin active from_json to_json get find place_hold read_ack end_work acknowledge
acknowledged_idle_is_quiet_example =
    acknowledged_idle_is_quiet node updated refl update_run (new_hold "t1" 7 "self-update" 600 100)
      (record { token = "t1"; busy = false; at = 100 }) refl refl refl

active-place_hold_example :
    active (wait 599 (place_hold false true "t1" 7 "self-update" 600 node))
    ≡ some (new_hold "t1" 7 "self-update" 600 100)
active-place_hold_example =
    active-place_hold false "t1" 7 "self-update" 600 599 node (distinct refl) refl (omega arith)
