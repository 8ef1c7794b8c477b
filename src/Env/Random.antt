-- ===== src/Env/Random.antt =====
-- math/rand and math, as the workload generator uses them: a source of draws, and the functions on
-- float64 that are not arithmetic. The laws are the ranges that their documentation states.
use distributed_task_queue_s.Prelude.{◌≡◌, true, false, ℤ, pos, ◌≤ℤ◌, ◌<ℤ◌}
use distributed_task_queue_s.Env.Float.{Float64, IsExact}

pub record Random ⦃fl : Float64⦄ : Type 1 where
  pub Source : Type 0
  -- `rand.New(rand.NewSource(seed))`.
  pub source : ℤ → Source
  pub float64 : Source → Source × fl.F
  pub int63n : ℤ → Source → Source × ℤ
  pub log : fl.F → fl.F
  pub pow : fl.F → fl.F → fl.F
  -- math.Round, and the conversion `int64(x)`.
  pub round : fl.F → fl.F
  pub to_int : fl.F → ℤ
  -- math.SmallestNonzeroFloat64.
  pub smallest : fl.F
  pub int63n_low : (n : ℤ) (s : Source) → pos 0 <ℤ n → pos 0 ≤ℤ (int63n n s).1
  pub smallest_positive : fl.ltf (fl.of_int (pos 0)) smallest ≡ true
  pub pow_nonneg :
      (x y : fl.F)
      → fl.ltf (fl.of_int (pos 0)) x ≡ true
      → fl.ltf (pow x y) (fl.of_int (pos 0)) ≡ false
  -- A float that is not negative and not above an integer is rounded down to what is neither.
  pub to_int_low :
      (x : fl.F) (n : ℤ)
      → fl.ltf x (fl.of_int (pos 0)) ≡ false
      → fl.ltf (fl.of_int n) x ≡ false
      → IsExact n
      → pos 0 ≤ℤ to_int x
