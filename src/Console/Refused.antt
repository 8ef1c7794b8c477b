-- ===== src/Console/Refused.antt =====
-- internal/console/supervisor.go: a fault that is refused changes no process.
use distributed_task_queue_s.Prelude.{
  ◌≡◌, refl, ap, Bool, true, false, not, ℤ, Option, none, some, List, [], ◌∷◌, Text, codes, text_eq,
  if◌then◌else◌, arith,
}
use distributed_task_queue_s.Domain.Time.{Time}
use distributed_task_queue_s.Config.Defaults.{is_blank}
use distributed_task_queue_s.Console.Request.{
  Action, kill, terminate, freeze, partition, restart, unknown, no_holder, FaultRequest, Refusal,
  request_duration, validate,
}
use distributed_task_queue_s.Console.Supervisor.{
  Proc, Luck, keep_outcome, Outcome, ended, launching, to_end, inject, apply_to, apply_named, apply,
}

-- A fault that is refused changes nothing.
inject-refused :
    (a : Action) (d : ℤ) (now : Time) (luck : Luck) (p : Proc) (e : Refusal)
    → (inject a d now luck p).1 ≡ some e
    → (inject a d now luck p).0 ≡ p
unfolding inject
inject-refused kill d now luck p e h = refl
inject-refused terminate d now luck p e h = refl
inject-refused freeze d now luck p e h = ground arith
inject-refused partition d now luck p e h = ground arith
inject-refused restart d now luck p e h = refl
inject-refused unknown d now luck p e h = refl

-- Whether the request has ended without a refusal.
abbrev pub is_applied : Outcome → Bool
is_applied (ended none) = true
is_applied (ended (some e)) = false
is_applied (launching name) = false

inject_ended :
    (p : Proc) (x : Proc × Option Refusal)
    → ((e : Refusal) → x.1 ≡ some e → x.0 ≡ p)
    → is_applied (to_end x).1 ≡ false
    → (to_end x).0 ≡ p
inject_ended p (q, none) h e = cc
inject_ended p (q, some r) h e = h r refl

apply_to-refused :
    (req : FaultRequest) (now : Time) (luck : Luck) (p : Proc)
    → is_applied (apply_to req now luck p).1 ≡ false
    → (apply_to req now luck p).0 ≡ p
unfolding apply_to
apply_to-refused req now luck p h =
    let d = request_duration req in
    ground (
      arith,
      h,
      inject_ended p (inject req.action d now luck p) (inject-refused req.action d now luck p),
    )

keep_outcome_lem :
    (b : Bool) (p p' : Proc) (ps : List Proc) (r : Outcome) (rest : List Proc × Outcome)
    → (is_applied r ≡ false → p' ≡ p)
    → (is_applied rest.1 ≡ false → rest.0 ≡ ps)
    → is_applied (if b then (p' ∷ ps, r) else keep_outcome p rest).1 ≡ false
    → (if b then (p' ∷ ps, r) else keep_outcome p rest).0 ≡ p ∷ ps
keep_outcome_lem true p p' ps r rest hp hps h = ap (λ x. x ∷ ps) (hp h)
keep_outcome_lem false p p' ps r (ps', r') hp hps h = ap (λ xs. p ∷ xs) (hps h)

apply_named-refused :
    (target : Text) (req : FaultRequest) (now : Time) (luck : Luck) (ps : List Proc)
    → is_applied (apply_named target req now luck ps).1 ≡ false
    → (apply_named target req now luck ps).0 ≡ ps
unfolding apply_named
apply_named-refused target req now luck [] h = refl
apply_named-refused target req now luck (p ∷ ps) h =
    keep_outcome_lem (text_eq p.name target) p (apply_to req now luck p).0 ps
      (apply_to req now luck p).1 (apply_named target req now luck ps)
      (apply_to-refused req now luck p) (apply_named-refused target req now luck ps) h

pub true_lem : {b : Bool} → not b ≡ false → b ≡ true
true_lem h = ground arith

-- A test that sends the request away.
pub unless {ℓ} :
    {A : Type ℓ} (P : A → Type 0) (b : Bool) {x y : A}
    → P x
    → (b ≡ false → P y)
    → P (if b then x else y)
unless P true hx hy = hx
unless P false hx hy = hy refl

-- A refusal leaves the processes, and so does the check before a launch.
unfoldable pub IsKept : List Proc → List Proc × Outcome → Type 0
IsKept ps x = is_applied x.1 ≡ false → x.0 ≡ ps

pub apply-IsKept :
    (req : FaultRequest) (owner : Text) (now : Time) (luck : Luck) (ps : List Proc)
    → IsKept ps (apply req owner now luck ps)
unfolding IsKept apply
apply-IsKept req owner now luck ps =
    let named = apply_named req.target req now luck ps in
    let owned = apply_named owner req now luck ps in
    let leader = if is_blank owner then (ps, ended (some no_holder)) else owned in
    elim (validate req)
      as (λ v. IsKept ps (elim v [
        | some r ↦ (ps, ended (some r))
        | none ↦ if not (text_eq req.target (codes "leader")) then named else leader
      ])) [
        | some r ↦ λ h. refl
        | none ↦
            unless (IsKept ps) (not (text_eq req.target (codes "leader")))
              (apply_named-refused req.target req now luck ps)
              (λ _.
                unless (IsKept ps) (is_blank owner) (λ h. refl)
                  (λ _. apply_named-refused owner req now luck ps))
      ]
