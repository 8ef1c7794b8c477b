-- ===== src/Console/Request.antt =====
-- The requests for a fault of internal/console/supervisor.go: the table of what is allowed, and the
-- checks that need no process.
use distributed_task_queue_s.Prelude.{
  Bool, true, false, not, ◌&&◌, ◌||◌, Option, none, some, ℤ, wrap_int64, pos, ◌*ℤ◌, ltb_ℤ, Text,
  if◌then◌else◌,
}
use distributed_task_queue_s.Config.Defaults.{is_blank, is_null}

-- `unknown` is any other text.
pub data Action : Type 0 where
  kill terminate freeze partition restart unknown : Action

pub data Role : Type 0 where
  scheduler worker : Role

unfoldable pub allowed : Role → Action → Bool
allowed scheduler unknown = false
allowed scheduler a = true
allowed worker kill = true
allowed worker freeze = true
allowed worker restart = true
allowed worker a = false

abbrev pub min_fault_duration : ℤ
min_fault_duration = pos 1000000000

abbrev pub max_fault_duration : ℤ
max_fault_duration = pos 30000000000

pub record FaultRequest : Type 0 where
  pub action : Action
  pub target : Text
  pub duration_ms : ℤ

pub data Refusal : Type 0 where
  unknown_action target_required duration_out_of_range duration_not_taken unknown_target : Refusal
  not_available no_holder not_exited not_running fault_in_progress : Refusal
  launch_failed signal_failed no_proxy : Refusal

-- Refusals that wrap ErrRejected: allowed, but not now.
unfoldable pub is_rejected : Refusal → Bool
is_rejected no_holder = true
is_rejected not_exited = true
is_rejected not_running = true
is_rejected fault_in_progress = true
is_rejected r = false

abbrev pub is_timed : Action → Bool
is_timed freeze = true
is_timed partition = true
is_timed a = false

-- `duration_ms` milliseconds.
unfoldable pub request_duration : FaultRequest → ℤ
unfolding wrap_int64
request_duration req = wrap_int64 (req.duration_ms *ℤ pos 1000000)

unfoldable pub validate : FaultRequest → Option Refusal
unfolding allowed request_duration
validate req =
    let d = request_duration req in
    if not (allowed scheduler req.action || allowed worker req.action)
    then some unknown_action
    else if is_blank req.target
    then some target_required
    else if is_timed req.action && (ltb_ℤ d min_fault_duration || ltb_ℤ max_fault_duration d)
    then some duration_out_of_range
    else if not (is_timed req.action) && not (is_null req.duration_ms)
    then some duration_not_taken
    else none
