-- ===== src/Console/Tidy.antt =====
-- internal/console/supervisor.go: what every process looks like between two steps.
use distributed_task_queue_s.Prelude.{
  ℕ, ◌≡◌, refl, Bool, true, false, not, ◌&&◌, Option, none, some, List, [], ◌∷◌, ℤ, Text, All,
  Option-cases, inl, inr, leb_ℤ, +ℤ_parts, ◌+ℤ◌, arith,
}
use distributed_task_queue_s.Domain.Time.{Time}
use distributed_task_queue_s.Console.Request.{
  Action, is_timed, min_fault_duration, max_fault_duration, kill, terminate, freeze, partition,
  restart, unknown, FaultRequest, request_duration, validate,
}
use distributed_task_queue_s.Console.Supervisor.{
  ProcessState, ActiveFault, Proc, Luck, is_running, is_stopped, is_exited, has_fault, launch, arm,
  undo, clear_fault, inject, apply_to, apply_named, apply, expire_fault, note_exit, note_old_exit,
}

unfoldable pub is_bounded : ActiveFault → Bool
is_bounded f =
    leb_ℤ (f.started +ℤ min_fault_duration) f.until
    && leb_ℤ f.until (f.started +ℤ max_fault_duration)

-- The state, and whether the process is frozen and its link cut, that go with a fault.
unfoldable pub is_tidy : Option ActiveFault → ProcessState → Bool → Bool → Bool
is_tidy none s frozen cut = not (is_stopped s) && not frozen && not cut
is_tidy (some f) s frozen cut = is_bounded f && (elim f.action [
  | freeze ↦ not (is_exited s) && frozen && not cut
  | partition ↦ is_running s && not frozen && cut
  | a ↦ false
])

unfoldable pub IsTidy : Proc → Type 0
IsTidy p = (is_tidy p.fault p.state p.frozen p.cut ≡ true) × (p.left ≡ 0)

-- No command of the process is stopped, and its link is whole.
unfoldable pub IsFree : Proc → Type 0
IsFree p = (p.left ≡ 0) × (p.frozen ≡ false) × (p.cut ≡ false) × (is_stopped p.state ≡ false)

pub clear_fault-IsFree : (p : Proc) → IsTidy p → IsFree (clear_fault true p)
unfolding IsTidy is_tidy IsFree clear_fault undo
clear_fault-IsFree p t = ground arith

pub clear_fault-IsTidy : (p : Proc) → IsTidy p → IsTidy (clear_fault true p)
unfolding IsTidy is_tidy clear_fault undo
clear_fault-IsTidy p t = ground arith

pub expire_fault-IsTidy : (serial : ℕ) (p : Proc) → IsTidy p → IsTidy (expire_fault true serial p)
unfolding expire_fault
expire_fault-IsTidy serial p t = ground (arith, clear_fault-IsTidy p t)

pub note_exit-IsTidy : (p : Proc) → IsTidy p → IsTidy (note_exit p)
unfolding IsTidy is_tidy note_exit clear_fault undo
note_exit-IsTidy p t = ground arith

pub note_old_exit-IsTidy : (p : Proc) → IsTidy p → IsTidy (note_old_exit p)
unfolding IsTidy note_old_exit
note_old_exit-IsTidy p t = (t.0, omega (arith, t.1))

-- A fault that ends by itself has a duration within the bounds.
IsInRange : Action → ℤ → Type 0
IsInRange a d =
    is_timed a ≡ true → (leb_ℤ min_fault_duration d ≡ true) × (leb_ℤ d max_fault_duration ≡ true)

arm-is_bounded :
    (d : ℤ) (now : Time)
    → leb_ℤ min_fault_duration d ≡ true
    → leb_ℤ d max_fault_duration ≡ true
    → (leb_ℤ (now +ℤ min_fault_duration) (now +ℤ d) ≡ true)
      × (leb_ℤ (now +ℤ d) (now +ℤ max_fault_duration) ≡ true)
arm-is_bounded d now l u = (
  ground (arith, +ℤ_parts now d, +ℤ_parts now min_fault_duration),
  ground (arith, +ℤ_parts now d, +ℤ_parts now max_fault_duration),
)

inject-IsTidy :
    (a : Action) (d : ℤ) (now : Time) (luck : Luck) (p : Proc)
    → is_running p.state ≡ true
    → has_fault p.fault ≡ false
    → IsTidy p
    → IsInRange a d
    → IsTidy (inject a d now luck p).0
unfolding IsTidy is_tidy is_bounded IsInRange inject arm
inject-IsTidy kill d now luck p r n t i = t
inject-IsTidy terminate d now luck p r n t i = t
inject-IsTidy freeze d now luck p r n t i =
    ground (arith, arm-is_bounded d now (i refl).0 (i refl).1)
inject-IsTidy partition d now luck p r n t i =
    ground (arith, arm-is_bounded d now (i refl).0 (i refl).1)
inject-IsTidy restart d now luck p r n t i = t
inject-IsTidy unknown d now luck p r n t i = t

pub launch-IsTidy : (p : Proc) → is_exited p.state ≡ true → IsTidy p → IsTidy (launch p)
unfolding IsTidy is_tidy launch
launch-IsTidy p e t = ground arith

validate-IsInRange :
    (req : FaultRequest) → validate req ≡ none → IsInRange req.action (request_duration req)
unfolding IsInRange validate
validate-IsInRange req v = λ timed. ground arith

apply_to-IsTidy :
    (req : FaultRequest) (now : Time) (luck : Luck) (p : Proc)
    → validate req ≡ none
    → IsTidy p
    → IsTidy (apply_to req now luck p).0
unfolding apply_to
apply_to-IsTidy req now luck p v t =
    let d = request_duration req in
    ground (arith, inject-IsTidy req.action d now luck p, validate-IsInRange req v, t)

apply_named-IsTidy :
    (target : Text) (req : FaultRequest) (now : Time) (luck : Luck) (ps : List Proc)
    → validate req ≡ none
    → All IsTidy ps
    → All IsTidy (apply_named target req now luck ps).0
unfolding apply_named
apply_named-IsTidy target req now luck [] v h = h
apply_named-IsTidy target req now luck (p ∷ ps) v h =
    ground
      (arith, apply_to-IsTidy req now luck p v h.0, apply_named-IsTidy target req now luck ps v h.1)

pub apply-IsTidy :
    (req : FaultRequest) (owner : Text) (now : Time) (luck : Luck) (ps : List Proc)
    → All IsTidy ps
    → All IsTidy (apply req owner now luck ps).0
unfolding apply
apply-IsTidy req owner now luck ps h = elim (Option-cases (validate req)) [
  | inl v ↦ ground (
    arith,
    v,
    apply_named-IsTidy req.target req now luck ps v h,
    apply_named-IsTidy owner req now luck ps v h,
  )
  | inr (r, v) ↦ ground (arith, v, h)
]
