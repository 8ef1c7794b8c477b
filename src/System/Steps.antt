-- ===== src/System/Steps.antt =====
-- Every interleaving of the processes, with crashes and lost messages, is a sequence of these steps
-- on the shared store: a Redis script or command runs whole or not at all, whoever sent it and
-- whether or not its reply arrives. The arguments are unrestricted, so what holds of every sequence
-- holds with a superseded leader, a duplicate delivery or a restarted process in it.
use distributed_task_queue_s.Prelude.{ℕ, Bool, List, ℤ, Text}
use distributed_task_queue_s.Env.Float.{Float64}
use distributed_task_queue_s.Env.Redis.{Redis}
use distributed_task_queue_s.Policy.Key.{Key}
use distributed_task_queue_s.Broker.Store.{Store}
use distributed_task_queue_s.Broker.Scripts.{
  admit_script, dispatch_script, complete_script, retry_script, save_state_script,
}
use distributed_task_queue_s.Lease.Scripts.{acquire_script, release_script, expire}

module _ ⦃fl : Float64⦄ ⦃redis : Redis⦄ where
  -- A step of the running system. Reset is not among them.
  pub data Step (s : Store) : Store → Type 0 where
    submit :
        (max_len : ℕ) (payload : Text)
        → Step s (record s { ingress = redis.xadd s.ingress max_len payload })
    ack_ingress : (id : Text) → Step s (record s { ingress = redis.xack s.ingress id })
    ack_exec : (id : Text) → Step s (record s { exec = redis.xack s.exec id })
    admit :
        (task_id : Text) (key : Key) (submitted : ℤ) (payload : Text) (epoch : ℤ)
        → Step s (admit_script task_id key submitted payload epoch s).0
    dispatch :
        (n limit : ℕ) (now : ℤ) (max_len : ℕ) (epoch : ℤ)
        → Step s (dispatch_script n limit now max_len epoch s).0
    complete :
        (task_id result tenant : Text) (service : ℤ) (missed : Bool) (now : ℤ) (msg : Text)
        (max_len : ℕ)
        → Step s (complete_script task_id result tenant service missed now msg max_len s).0
    retry :
        (task_id retry_json dead_json : Text) (is_dead : Bool) (now : ℤ) (msg : Text) (max_len : ℕ)
        → Step s (retry_script task_id retry_json dead_json is_dead now msg max_len s).0
    save_state :
        (state : List (Text × Text)) (epoch : ℤ) → Step s (save_state_script state epoch s).0
    acquire : (owner : Text) → Step s (acquire_script owner s).0
    release : (value : Text) → Step s (release_script value s).0
    expires : Step s (expire s)

  pub data Steps (s : Store) : Store → Type 0 where
    done : Steps s s
    more : {t u : Store} → Steps s t → Step t u → Steps s u

  -- What holds at first and is kept by every step holds after any of them.
  pub Steps_inv {κ} :
      (P : Store → Type κ)
      → ((s t : Store) → Step s t → P s → P t)
      → {s t : Store} → Steps s t
      → P s
      → P t
  Steps_inv P keep done p = p
  Steps_inv P keep (more {t} {u} r st) p = keep t u st (Steps_inv P keep r p)

  pub Steps-trans : {s t u : Store} → Steps s t → Steps t u → Steps s u
  Steps-trans r done = r
  Steps-trans r (more q st) = more (Steps-trans r q) st
