-- ===== src/Lease/Client.antt =====
-- Acquire, Renew and Release of internal/lease/lease.go. The calls go through the world of one
-- process; how many replicas answer a WAIT is an argument.
use distributed_task_queue_s.Prelude.{
  ℕ, ◌==◌, leb, Bool, true, false, ◌||◌, Option, none, some, [], ℤ, pos, leb_ℤ, Text, text_eq,
  if◌then◌else◌,
}
use distributed_task_queue_s.Env.Float.{Float64}
use distributed_task_queue_s.Env.Redis.{Redis}
use distributed_task_queue_s.Broker.Store.{Store}
use distributed_task_queue_s.Broker.Scripts.{Reply, reply}
use distributed_task_queue_s.Lease.Scripts.{acquire_script, renew_script, release_script}
use distributed_task_queue_s.Process.World.{World, Answer, answer, err_fenced, err_other, call}

-- What a Lease remembers of its grant: nothing (the empty value), or the value and the epoch.
pub record Grant : Type 0 where
  pub value : Text
  pub epoch : ℤ

abbrev pub no_grant : Grant
no_grant = record { value = []; epoch = pos 0 }

-- Clears the grant only if it is still the given one.
unfoldable pub forget : Text → Grant → Grant
forget value l = if text_eq l.value value then no_grant else l

module _ ⦃fl : Float64⦄ ⦃redis : Redis⦄ where
  abbrev pub acquiring : Text → Store → Store × Reply (ℤ × Text)
  acquiring owner s = let (s', r) = acquire_script owner s in (s', reply r)

  abbrev pub renewing : Text → Store → Store × Reply ℕ
  renewing value s = let (s', r) = renew_script value s in (s', reply r)

  abbrev pub releasing : Text → Store → Store × Reply ℕ
  releasing value s = let (s', r) = release_script value s in (s', reply r)

  -- WAIT blocks: others move before it answers, and the lease may expire. It changes nothing itself;
  -- `none` is an error.
  abbrev pub waiting : ℕ → Store → Store × Reply ℕ
  waiting n s = (s, reply n)

  unfoldable pub wait : Option ℕ → World → World × Answer ℕ
  unfolding call
  wait none w = ((call (waiting 0) w).0, err_other)
  wait (some n) w = call (waiting n) w

  abbrev pub are_enough : ℕ → Answer ℕ → Bool
  are_enough wait_replicas (answer n) = leb wait_replicas n
  are_enough wait_replicas err_fenced = false
  are_enough wait_replicas err_other = false

  -- Whether enough replicas have the epoch; if not, the grant is handed back.
  unfoldable pub await_epoch_durable : ℕ → Option ℕ → Text → World → World × Bool
  unfolding call wait
  await_epoch_durable wait_replicas acked value w =
      let (w', a) = wait acked w in
      if wait_replicas == 0
      then (w, true)
      else if are_enough wait_replicas a
      then (w', true)
      else ((call (releasing value) w').0, false)

  unfoldable pub confirm :
      ℕ → Option ℕ → Grant → ℤ → Text → World → World × Grant × Answer (ℤ × Bool)
  unfolding await_epoch_durable
  confirm wait_replicas acked l epoch value w =
      let (w', durable) = await_epoch_durable wait_replicas acked value w in
      if durable
      then (w', record { value = value; epoch = epoch }, answer (epoch, true))
      else (w', l, err_other)

  -- The epoch of the new grant and true, or NoEpoch and false if another process holds the lease.
  unfoldable pub take :
      ℕ → Option ℕ → Grant → World → Answer (ℤ × Text) → World × Grant × Answer (ℤ × Bool)
  unfolding confirm
  take wait_replicas acked l w (answer (epoch, value)) =
      if leb_ℤ epoch (pos 0) || text_eq value []
      then (w, l, answer (pos 0, false))
      else confirm wait_replicas acked l epoch value w
  take wait_replicas acked l w err_fenced = (w, l, err_other)
  take wait_replicas acked l w err_other = (w, l, err_other)

  unfoldable pub acquire : ℕ → Option ℕ → Text → Grant → World → World × Grant × Answer (ℤ × Bool)
  unfolding call take
  acquire wait_replicas acked owner l w =
      let (w', a) = call (acquiring owner) w in take wait_replicas acked l w' a

  unfoldable pub renewed : Grant → World → Answer ℕ → World × Grant × Answer Bool
  unfolding forget
  renewed l w (answer n) =
      if n == 1 then (w, l, answer true) else (w, forget l.value l, answer false)
  renewed l w err_fenced = (w, l, err_other)
  renewed l w err_other = (w, l, err_other)

  unfoldable pub renew : Grant → World → World × Grant × Answer Bool
  unfolding call renewed
  renew l w =
      if text_eq l.value []
      then (w, l, answer false)
      else (let (w', a) = call (renewing l.value) w in renewed l w' a)

  -- Forgets the grant whether or not the reply arrives.
  unfoldable pub release : Grant → World → World × Grant × Answer ℕ
  unfolding call forget
  release l w =
      if text_eq l.value []
      then (w, l, answer 0)
      else (let (w', a) = call (releasing l.value) w in (w', forget l.value l, a))
