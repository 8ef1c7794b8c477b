-- ===== src/Process/Ousted.antt =====
-- What is left to a scheduler of internal/scheduler/engine.go that a newer leader has superseded.
use distributed_task_queue_s.Prelude.{ℕ, ◌≡◌, refl, ◌⊎◌, inl, inr, ℤ}
use distributed_task_queue_s.Domain.Time.{Time, unix_milli}
use distributed_task_queue_s.Env.Float.{Float64}
use distributed_task_queue_s.Env.Redis.{Redis}
use distributed_task_queue_s.Env.Codec.{Codec}
use distributed_task_queue_s.Policy.Interface.{Policy}
use distributed_task_queue_s.Broker.Scripts.{dispatch_script}
use distributed_task_queue_s.Broker.Guard.{Superseded}
use distributed_task_queue_s.System.Steps.{Steps}
use distributed_task_queue_s.System.Fencing.{Superseded-stays_out}
use distributed_task_queue_s.Process.World.{World, answer_of, call_cases}
use distributed_task_queue_s.Process.Serve.{
  Turn, stop_fenced, idle, parsed, dispatch, after_dispatch, dispatch_pass,
}

module _ ⦃fl : Float64⦄ ⦃redis : Redis⦄ where
  -- The pass moved nothing: the clocks are as they were, the store holds only what others wrote,
  -- and the loop stops, or sleeps because a call was lost.
  pub record Idle (pol : Policy) (p : pol.State) (w : World) (r : pol.State × World × Turn)
      : Type 0 where
    pub clocks : r.0 ≡ p
    pub store : Steps w.store r.1.store
    pub turn : (r.2 ≡ stop_fenced) ⊎ (r.2 ≡ idle)

  -- A pass of the dispatch loop under a superseded epoch hands out nothing: its clocks stay, the
  -- store changes by other processes' steps only, and the loop stops, or sleeps if its call is lost.
  pub Superseded-pass :
      ⦃codec : Codec⦄
      → (pol : Policy) (batch limit : ℕ) (now : Time) (max_len : ℕ) (epoch : ℤ) (p : pol.State)
        (w : World)
      → Superseded epoch w.store
      → Idle pol p w (dispatch_pass pol batch limit now max_len epoch p w)
  unfolding dispatch_pass dispatch after_dispatch parsed answer_of
  Superseded-pass pol batch limit now max_len epoch p w old =
      let script = dispatch_script batch limit (unix_milli now) max_len epoch in
      call_cases (λ r. Idle pol p w (after_dispatch pol p r.0 (parsed r.1))) script w
        (λ s ts r. record { clocks = refl; store = r; turn = inr refl })
        (λ s ts r.
          rw ((Superseded-stays_out w.store s epoch old r).1 batch limit (unix_milli now) max_len)
            (record { clocks = refl; store = r; turn = inr refl }))
        λ s ts r.
          rw ((Superseded-stays_out w.store s epoch old r).1 batch limit (unix_milli now) max_len)
            (record { clocks = refl; store = r; turn = inl refl })
