-- ===== src/Console/Supervisor.antt =====
-- The demo cluster of internal/console/supervisor.go: what a fault does to a process, and how it
-- ends. A step is what runs under the mutex of a process: a request, except that a restart releases
-- the mutex between its check and the launch, which are two steps. What the operating system does
-- is an argument; the messages, the exit codes and the process ids are left out.
use distributed_task_queue_s.Prelude.{
  ℕ, suc, ◌-◌, ◌==◌, Bool, true, false, not, Option, none, some, List, [], ◌∷◌, ℤ, ◌+ℤ◌, Text,
  codes, text_eq, if◌then◌else◌,
}
use distributed_task_queue_s.Domain.Time.{Time}
use distributed_task_queue_s.Config.Defaults.{is_blank}
use distributed_task_queue_s.Console.Request.{
  Action, kill, terminate, freeze, partition, restart, unknown, unknown_action, Role, allowed,
  FaultRequest, Refusal, unknown_target, not_available, no_holder, not_exited, not_running,
  fault_in_progress, launch_failed, signal_failed, no_proxy, request_duration, validate,
}

pub data ProcessState : Type 0 where
  running stopped exited : ProcessState

-- `serial` tells one fault from another of the same process.
pub record ActiveFault : Type 0 where
  pub action : Action
  pub started : Time
  pub until : Time
  pub serial : ℕ

-- A supervised process. `linked`: it has a proxy, which may be cut. `frozen` is the truth behind
-- `state`: whether its command, the newest, has been stopped and not continued. `left` counts the
-- older commands that are stopped and that no signal reaches any more.
pub record Proc : Type 0 where
  pub name : Text
  pub role : Role
  pub state : ProcessState
  pub fault : Option ActiveFault
  pub starts : ℕ
  pub serial : ℕ
  pub linked : Bool
  pub cut : Bool
  pub frozen : Bool
  pub left : ℕ

-- What the operating system does: whether the signal or the launch succeeds, and whether the process
-- table shows the process as stopped (`none`: it cannot be read).
pub record Luck : Type 0 where
  pub succeeds : Bool
  pub shown_stopped : Option Bool

abbrev pub is_running : ProcessState → Bool
is_running running = true
is_running s = false

abbrev pub is_exited : ProcessState → Bool
is_exited exited = true
is_exited s = false

abbrev pub is_stopped : ProcessState → Bool
is_stopped stopped = true
is_stopped s = false

-- The critical section of `launch`, once the new command has started.
unfoldable pub launch : Proc → Proc
launch p = record p {
  state = running;
  starts = suc p.starts;
  left = if p.frozen then suc p.left else p.left;
  frozen = false;
}

-- armLocked.
unfoldable pub arm : Action → ℤ → Time → Proc → Proc
arm action d now p = record p {
  fault = some (record { action = action; started = now; until = now +ℤ d; serial = suc p.serial });
  serial = suc p.serial;
}

-- The undo of a fault: SIGCONT to the command, the error of which is ignored, or healing the link.
-- `resumed`: the signal arrives.
unfoldable pub undo : Bool → Action → Proc → Proc
undo resumed freeze p = record p {
  frozen = if resumed then false else p.frozen;
  state = if is_stopped p.state then running else p.state;
}
undo resumed partition p = record p { cut = false }
undo resumed a p = p

-- clearFaultLocked.
unfoldable pub clear_fault : Bool → Proc → Proc
unfolding undo
clear_fault resumed p = elim p.fault [
  | none ↦ p
  | some f ↦ record (undo resumed f.action p) { fault = none }
]

abbrev pub stopped_if : Option Bool → ProcessState → ProcessState
stopped_if (some true) s = stopped
stopped_if (some false) s = s
stopped_if none s = s

-- The switch of Apply, on a running process without a fault.
unfoldable pub inject : Action → ℤ → Time → Luck → Proc → Proc × Option Refusal
unfolding arm
inject kill d now luck p = (p, if luck.succeeds then none else some signal_failed)
inject terminate d now luck p = (p, if luck.succeeds then none else some signal_failed)
inject freeze d now luck p =
    if luck.succeeds
    then (
      arm freeze d now (record p { frozen = true; state = stopped_if luck.shown_stopped p.state }),
      none,
    )
    else (p, some signal_failed)
inject partition d now luck p =
    if p.linked then (arm partition d now (record p { cut = true }), none) else (p, some no_proxy)
inject restart d now luck p = (p, some unknown_action)
inject unknown d now luck p = (p, some unknown_action)

abbrev pub has_fault : Option ActiveFault → Bool
has_fault none = false
has_fault (some f) = true

-- How a request leaves its first critical section: it has ended, with a refusal or without, or it
-- goes on to launch the process of this name.
pub data Outcome : Type 0 where
  ended : Option Refusal → Outcome
  launching : Text → Outcome

abbrev pub to_end : Proc × Option Refusal → Proc × Outcome
to_end (p, r) = (p, ended r)

-- Apply, once the process is known, up to where it releases the mutex.
unfoldable pub apply_to : FaultRequest → Time → Luck → Proc → Proc × Outcome
unfolding allowed request_duration inject
apply_to req now luck p =
    let restarted =
      if not (is_exited p.state) then (p, ended (some not_exited)) else (p, launching p.name) in
    let injected =
      if not (is_running p.state)
      then (p, ended (some not_running))
      else if has_fault p.fault
      then (p, ended (some fault_in_progress))
      else to_end (inject req.action (request_duration req) now luck p) in
    if not (allowed p.role req.action)
    then (p, ended (some not_available))
    else (elim req.action [ restart ↦ restarted | a ↦ injected ])

abbrev pub keep_outcome : Proc → List Proc × Outcome → List Proc × Outcome
keep_outcome p (ps, o) = (p ∷ ps, o)

-- `byKey[target]`; names are not used twice.
unfoldable pub apply_named : Text → FaultRequest → Time → Luck → List Proc → List Proc × Outcome
unfolding apply_to
apply_named target req now luck [] = ([], ended (some unknown_target))
apply_named target req now luck (p ∷ ps) =
    let (p', o) = apply_to req now luck p in
    let rest = apply_named target req now luck ps in
    if text_eq p.name target then (p' ∷ ps, o) else keep_outcome p rest

-- Apply, up to there: `owner` is the lease's holder, empty if there is none.
unfoldable pub apply : FaultRequest → Text → Time → Luck → List Proc → List Proc × Outcome
unfolding validate apply_named
apply req owner now luck ps = elim (validate req) [
  | some r ↦ (ps, ended (some r))
  | none ↦
      if not (text_eq req.target (codes "leader"))
      then apply_named req.target req now luck ps
      else if is_blank owner
      then (ps, ended (some no_holder))
      else apply_named owner req now luck ps
]

unfoldable pub update {ℓ} : {A : Type ℓ} → (A → A) → (A → Bool) → List A → List A
update f here [] = []
update f here (x ∷ xs) = (if here x then f x else x) ∷ update f here xs

-- The rest of a restart, whatever has happened to the process since the check.
unfoldable pub finish_launch : Text → Bool → List Proc → List Proc × Option Refusal
unfolding update launch
finish_launch name true ps = (update launch (λ p. text_eq p.name name) ps, none)
finish_launch name false ps = (ps, some launch_failed)

-- The timer of a fault does nothing if the fault is over.
unfoldable pub expire_fault : Bool → ℕ → Proc → Proc
unfolding clear_fault
expire_fault resumed serial p = elim p.fault [
  | none ↦ p
  | some f ↦ if f.serial == serial then clear_fault resumed p else p
]

-- The newest command has gone; it takes no signal any more.
unfoldable pub note_exit : Proc → Proc
unfolding clear_fault
note_exit p = clear_fault false (record p { state = exited; frozen = false })

-- An older command has gone, which changes nothing that the supervisor knows.
unfoldable pub note_old_exit : Proc → Proc
note_old_exit p = record p { left = p.left - 1 }

-- `resumed`: which processes SIGCONT arrives at.
unfoldable pub clear_all : (Text → Bool) → List Proc → List Proc
unfolding clear_fault
clear_all resumed [] = []
clear_all resumed (p ∷ ps) = clear_fault (resumed p.name) p ∷ clear_all resumed ps

-- The steps of the cluster.
pub data Event : Type 0 where
  requests : FaultRequest → Text → Time → Luck → Event
  launches : Text → Bool → Event
  timer_fires : Text → ℕ → Bool → Event
  exits : Text → Event
  old_exits : Text → Event
  clears : (Text → Bool) → Event

unfoldable pub happens : Event → List Proc → List Proc
unfolding apply finish_launch update expire_fault note_exit note_old_exit clear_all
happens (requests req owner now luck) ps = (apply req owner now luck ps).0
happens (launches name succeeds) ps = (finish_launch name succeeds ps).0
happens (timer_fires name serial resumed) ps =
    update (expire_fault resumed serial) (λ p. text_eq p.name name) ps
happens (exits name) ps = update note_exit (λ p. text_eq p.name name) ps
happens (old_exits name) ps = update note_old_exit (λ p. text_eq p.name name) ps
happens (clears resumed) ps = clear_all resumed ps

unfoldable pub supervise : List Event → List Proc → List Proc
unfolding happens
supervise [] ps = ps
supervise (e ∷ es) ps = supervise es (happens e ps)
