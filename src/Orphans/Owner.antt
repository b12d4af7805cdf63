-- ===== src/Orphans/Owner.antt =====
-- core/orphans.py: whether the process that owns a session may still be running it.
use ctrlrelay.Base.{
  ℕ, Bool, true, false, ◌&&◌, ◌||◌, String, Option, none, some, List, [], ◌∷◌, str_eq, ◌==◌,
  if◌then◌else◌,
}
use text.Mathlib.Text.{starts_with}

-- What `os.kill(pid, 0)` meets.
pub data Signal : Type 0 where
  reached : Signal
  -- `ProcessLookupError`.
  no_process : Signal
  -- `PermissionError`, and any other `OSError`.
  not_permitted : Signal
  os_error : Signal

-- What this process finds out about the others: its own pid, the first and the second look at a pid, the
-- arguments on its command line, and `os.path.basename`.
pub record Host : Type 0 where
  pub own_pid : ℕ
  pub signal : ℕ → Signal
  pub signal_again : ℕ → Signal
  pub command_line : ℕ → Option (List String)
  pub basename : String → String

abbrev is_module : String → Bool
is_module arg = str_eq arg "ctrlrelay" || starts_with arg "ctrlrelay."

abbrev is_flag : Option String → Bool
is_flag none = false
is_flag (some before) = str_eq before "-m"

abbrev is_relay_argument : (String → String) → Option String → String → Bool
is_relay_argument basename before arg =
    str_eq (basename arg) "ctrlrelay"
    || (is_module arg && is_flag before)
    || str_eq arg "-mctrlrelay"
    || starts_with arg "-mctrlrelay."

-- The loop over the arguments, each with the one before it.
unfoldable runs_relay : (String → String) → Option String → List String → Bool
runs_relay basename before [] = false
runs_relay basename before (arg ∷ args) =
    let rest = runs_relay basename (some arg) args in
    if is_relay_argument basename before arg then true else rest

abbrev is_there : Signal → Bool
is_there Signal.no_process = false
is_there s = true

-- Past the first look: a command line that cannot be read has the process looked at once more.
unfoldable by_command_line : Host → ℕ → Option (List String) → Bool
unfolding runs_relay
by_command_line host pid none = is_there (host.signal_again pid)
by_command_line host pid (some args) = runs_relay host.basename none args

abbrev by_signal : Host → ℕ → Signal → Bool
by_signal host pid Signal.reached = by_command_line host pid (host.command_line pid)
by_signal host pid s = is_there s

unfoldable pub owner_is_alive : Host → ℕ → Bool
unfolding by_command_line
owner_is_alive host pid =
    if (pid == 0) || (pid == host.own_pid) then false else by_signal host pid (host.signal pid)
