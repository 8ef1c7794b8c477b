-- ===== src/Burner.antt =====
-- internal/worker/exec.go: burning CPU for a task's duration. The rounds of SHA-256 are a parameter;
-- a cancelled context is a test of the number of iterations done.
pub mod Chunks
use distributed_task_queue_s.Prelude.{
  ℕ, zero, suc, ◌+◌, ◌-◌, ◌*◌, Bool, true, false, not, ◌||◌, Option, none, some, List, [], ◌∷◌, ltb,
  leb, ℤ, pos, pos_part, leb_ℤ, ltb_ℤ, ◌-ℤ◌, if◌then◌else◌,
}
use distributed_task_queue_s.Domain.Time.{Time}
use distributed_task_queue_s.Env.Float.{Float64}
use distributed_task_queue_s.Config.Defaults.{float}
use distributed_task_queue_s.Config.Shares.{not_positive}

abbrev pub chunk : ℕ
chunk = 2000

-- The rounds of the loop of burnFor from `done` on: how many iterations each burns. `none`: the
-- loop does not end within the fuel.
unfoldable pub burn_loop : ℕ → (ℕ → Bool) → ℕ → ℕ → Option (List ℕ)
burn_loop zero cancelled total done = none
burn_loop (suc fuel) cancelled total done =
    let rest = burn_loop fuel cancelled total (done + chunk) in
    let n = if ltb (total - done) chunk then total - done else chunk in
    if leb total done
    then some []
    else if cancelled done
    then some []
    else (elim rest [ none ↦ none | some ns ↦ some (n ∷ ns) ])

-- A round for each iteration is more than enough.
unfoldable pub burn_for : (ℕ → Bool) → ℕ → Option (List ℕ)
unfolding burn_loop
burn_for cancelled total = burn_loop (suc total) cancelled total 0

module _ ⦃fl : Float64⦄ (to_int : fl.F → ℤ) where
  unfoldable pub iters_for : fl.F → ℤ → ℤ
  iters_for iters_per_ms d =
      let n = fl.mulf iters_per_ms (fl.divf (fl.of_int d) (float 1000000)) in
      if not_positive iters_per_ms || leb_ℤ d (pos 0)
      then pos 0
      else if fl.ltf n (float 1)
      then pos 1
      else to_int n

  -- The attempts of calibrate; `clock k` is how long the k-th burn takes. `none` is its error.
  unfoldable pub calibrate_loop : ℕ → (ℕ → ℤ) → ℕ → ℕ → Option fl.F
  calibrate_loop zero clock attempt iters = none
  calibrate_loop (suc left) clock attempt iters =
      let rest = calibrate_loop left clock (suc attempt) (iters * 2) in
      if leb_ℤ (pos 20000000) (clock attempt)
      then some (fl.divf (float iters) (fl.divf (fl.of_int (clock attempt)) (float 1000000)))
      else rest

  unfoldable pub calibrate : (ℕ → ℤ) → Option fl.F
  unfolding calibrate_loop
  calibrate clock = calibrate_loop 12 clock 0 20000
