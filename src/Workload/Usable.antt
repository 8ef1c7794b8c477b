-- ===== src/Workload/Usable.antt =====
-- The generator on an accepted workload: it never fails, and its tasks pass domain validation.
use distributed_task_queue_s.Prelude.{
  ℕ, zero, suc, ◌≡◌, refl, false, Option, some, none, max_int64, [], ◌∷◌, length, All, Text,
  text_eq, ℤ, pos, ◌≤ℤ◌, ◌<ℤ◌, arith,
}
use distributed_task_queue_s.Env.Float.{Float64, IsExact}
use distributed_task_queue_s.Env.Random.{Random}
use distributed_task_queue_s.Domain.Time.{Time, is_zero}
use distributed_task_queue_s.Domain.Task
use distributed_task_queue_s.Domain.Task.{max_priority}
use distributed_task_queue_s.Config.{Workload}
use distributed_task_queue_s.Config.Defaults.{is_blank}
use distributed_task_queue_s.Workload.{Spec, task_at, validate, Result, ok, err, panic}

-- A spec whose task is usable whenever it is submitted.
pub record IsUsable (s : Spec) : Type 0 where
  pub named : is_blank s.id ≡ false
  pub owned : is_blank s.tenant_id ≡ false
  pub exec : pos 0 ≤ℤ s.exec_millis
  pub low : pos 0 ≤ℤ s.priority
  pub high : s.priority ≤ℤ max_priority
  pub retries : pos 0 ≤ℤ s.max_retries

blank-text_eq : (s : Text) → is_blank s ≡ false → text_eq s [] ≡ false
unfolding text_eq
blank-text_eq [] h = cc
blank-text_eq (c ∷ s) h = refl

pub task_at-validate :
    (s : Spec) (t : Time) → IsUsable s → is_zero t ≡ false → Task.validate (task_at s t) ≡ none
unfolding Task.validate task_at
task_at-validate s t u z = ground (
  arith,
  z,
  blank-text_eq s.id u.named,
  blank-text_eq s.tenant_id u.owned,
  u.exec,
  u.low,
  u.high,
  u.retries,
)

module _ ⦃fl : Float64⦄ ⦃random : Random⦄ where
  -- A successful draw, with what holds of it.
  Draws : Option (random.Source × ℤ) → Type 0
  Draws o = (s : random.Source) × (n : ℤ) × (o ≡ some (s, n)) × (pos 0 ≤ℤ n)

  -- No draw of the generator is out of the range of int64.
  unfoldable pub IsInRange : Workload → Type 0
  IsInRange cfg =
      IsExact cfg.heavy_tail.max_millis
      × (cfg.exec.max_millis <ℤ max_int64)
      × (cfg.deadline.jitter_millis <ℤ max_int64)

  -- The result is a plan of n usable specs.
  pub HasPlan : ℕ → Result → Type 0
  HasPlan n (ok specs) = (length specs ≡ n) × All IsUsable specs
  HasPlan n (err e) = zero ≡ suc zero
  HasPlan n panic = zero ≡ suc zero
