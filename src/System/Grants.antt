-- ===== src/System/Grants.antt =====
-- The fencing tokens of internal/lease/lease.go.
use distributed_task_queue_s.Prelude.{
  ℕ, ◌≡◌, refl, sym, Bool, true, false, inl, inr, Bool-cases, List, [], ◌∷◌, ℤ, pos, ◌+ℤ◌, +ℤ_parts,
  ◌≤ℤ◌, ◌<ℤ◌, Text, is_some, arith,
}
use distributed_task_queue_s.Env.Float.{Float64}
use distributed_task_queue_s.Env.Redis.{Redis}
use distributed_task_queue_s.Policy.Key.{Key}
use distributed_task_queue_s.Broker.Store.{Store}
use distributed_task_queue_s.Broker.Scripts.{
  Reply, get_counter, guarded, admit_body, admit_script, publish, dispatch_body, dispatch_script,
  ack_old, complete_script, record_completion, retry_script, bury, redeliver, save_state_body,
  save_state_script,
}
use distributed_task_queue_s.Broker.Guard.{guarded_cases}
use distributed_task_queue_s.Broker.Cases.{complete_cases, retry_cases}
use distributed_task_queue_s.Broker.Loop.{rounds, rounds_rule, round_cases}
use distributed_task_queue_s.Lease.Scripts.{acquire_script, release_script, holds, expire}
use distributed_task_queue_s.System.Steps.{
  Step, submit, ack_ingress, ack_exec, admit, dispatch, complete, retry, save_state, acquire,
  release, expires, done, more, Steps,
}

module _ ⦃fl : Float64⦄ ⦃redis : Redis⦄ where
  -- The last epoch granted; 0 before the first.
  abbrev pub granted : Store → ℤ
  granted s = get_counter s.leader_epoch

  record Climbs (s t : Store) : Type 0 where
    up : granted s ≤ℤ granted t

  Climbs-same : (s t : Store) → t.leader_epoch ≡ s.leader_epoch → Climbs s t
  Climbs-same s t e = record { up = rw e (omega arith) }

  ack_old-same : (msg : Text) (s : Store) → (ack_old msg s).leader_epoch ≡ s.leader_epoch
  unfolding ack_old
  ack_old-same msg s = ground arith

  guarded-Climbs {ℓ} :
      {A : Type ℓ} (epoch : ℤ) (body : Store → Store × Reply A) (s : Store)
      → ((u : Store) → (body u).0.leader_epoch ≡ u.leader_epoch)
      → Climbs s (guarded epoch body s).0
  guarded-Climbs epoch body s same =
      guarded_cases (λ r. Climbs s r.0) epoch body s (λ _. Climbs-same s s refl)
        λ c _. Climbs-same s _ (same (record s { fence = c }))

  admit_body-same :
      (task_id : Text) (key : Key) (submitted : ℤ) (payload : Text) (u : Store)
      → (admit_body task_id key submitted payload u).0.leader_epoch ≡ u.leader_epoch
  unfolding admit_body
  admit_body-same task_id key submitted payload u = ground arith

  save_state_body-same :
      (state : List (Text × Text)) (u : Store)
      → (save_state_body state u).0.leader_epoch ≡ u.leader_epoch
  unfolding save_state_body
  save_state_body-same [] u = refl
  save_state_body-same (e ∷ state) u = refl

  rounds-same :
      (limit : ℕ) (now : ℤ) (max_len : ℕ) (epoch : ℤ) (n : ℕ) (s : Store)
      → (rounds limit now max_len epoch n s).0.leader_epoch ≡ s.leader_epoch
  unfolding publish
  rounds-same limit now max_len epoch =
      rounds_rule limit now max_len epoch (λ n s r. r.0.leader_epoch ≡ s.leader_epoch) (λ n s. refl)
        λ n s k rest more room e.
          round_cases limit now max_len epoch
            (λ r. more.0.leader_epoch ≡ r.0.leader_epoch → more.0.leader_epoch ≡ s.leader_epoch) k
            rest s (λ _ g. g) λ payload _ g. g

  complete-Climbs :
      (task_id result tenant : Text) (service : ℤ) (missed : Bool) (now : ℤ) (msg : Text)
      (max_len : ℕ) (s : Store)
      → Climbs s (complete_script task_id result tenant service missed now msg max_len s).0
  unfolding record_completion
  complete-Climbs task_id result tenant service missed now msg max_len s =
      complete_cases (λ r. Climbs s r.0) task_id result tenant service missed now msg max_len s
        (λ _. Climbs-same s _ (ack_old-same msg _)) λ _. Climbs-same s _ (ack_old-same msg _)

  retry-Climbs :
      (task_id retry_json dead_json : Text) (is_dead : Bool) (now : ℤ) (msg : Text) (max_len : ℕ)
      (s : Store)
      → Climbs s (retry_script task_id retry_json dead_json is_dead now msg max_len s).0
  unfolding bury redeliver
  retry-Climbs task_id retry_json dead_json is_dead now msg max_len s =
      retry_cases (λ r. Climbs s r.0) task_id retry_json dead_json is_dead now msg max_len s
        (λ _. Climbs-same s _ (ack_old-same msg _)) (λ _ _. Climbs-same s _ (ack_old-same msg _))
        λ _ _. Climbs-same s _ (ack_old-same msg _)

  -- A grant takes the next epoch; a refused request takes none.
  acquire_cases {κ} :
      (P : Store × (ℤ × Text) → Type κ) (owner : Text) (s : Store)
      → (is_some (redis.get s.leader) ≡ true → P (s, (pos 0, [])))
      → (is_some (redis.get s.leader) ≡ false
          → (t : Store) (value : Text) → granted t ≡ granted s +ℤ pos 1
          → P (t, (granted t, value)))
      → P (acquire_script owner s)
  unfolding acquire_script
  acquire_cases P owner s refused grant = elim (Bool-cases (is_some (redis.get s.leader))) [
    | inl e ↦ rw (e, acquire_script) (refused e)
    | inr e ↦ rw (e, acquire_script) (grant e _ _ (rw (redis.get-incr s.leader_epoch)))
  ]

  acquire-Climbs : (owner : Text) (s : Store) → Climbs s (acquire_script owner s).0
  acquire-Climbs owner s =
      acquire_cases (λ r. Climbs s r.0) owner s (λ _. Climbs-same s s refl)
        λ _ t value e. record { up = rw e (omega (arith, +ℤ_parts (granted s) (pos 1))) }

  release-Climbs : (value : Text) (s : Store) → Climbs s (release_script value s).0
  unfolding release_script
  release-Climbs value s = elim (Bool-cases (holds s value)) [
    | inl e ↦ rw (e, release_script) (Climbs-same s _ refl)
    | inr e ↦ rw (e, release_script) (Climbs-same s s refl)
  ]

  Step-Climbs : (s t : Store) → Step s t → Climbs s t
  unfolding admit_script dispatch_script dispatch_body save_state_script expire
  Step-Climbs s t (submit max_len payload) = Climbs-same s _ refl
  Step-Climbs s t (ack_ingress id) = Climbs-same s _ refl
  Step-Climbs s t (ack_exec id) = Climbs-same s _ refl
  Step-Climbs s t (admit task_id key submitted payload epoch) =
      guarded-Climbs epoch (admit_body task_id key submitted payload) s
        (admit_body-same task_id key submitted payload)
  Step-Climbs s t (dispatch n limit now max_len epoch) =
      guarded-Climbs epoch (dispatch_body n limit now max_len epoch) s
        (rounds-same limit now max_len epoch n)
  Step-Climbs s t (complete task_id result tenant service missed now msg max_len) =
      complete-Climbs task_id result tenant service missed now msg max_len s
  Step-Climbs s t (retry task_id retry_json dead_json is_dead now msg max_len) =
      retry-Climbs task_id retry_json dead_json is_dead now msg max_len s
  Step-Climbs s t (save_state state epoch) =
      guarded-Climbs epoch (save_state_body state) s (save_state_body-same state)
  Step-Climbs s t (acquire owner) = acquire-Climbs owner s
  Step-Climbs s t (release value) = release-Climbs value s
  Step-Climbs s t expires = Climbs-same s _ refl

  Steps-Climbs : {s t : Store} → Steps s t → granted s ≤ℤ granted t
  Steps-Climbs done = omega arith
  Steps-Climbs (more {t} {u} r st) = omega (arith, Steps-Climbs r, (Step-Climbs t u st).up)

  fresh_epoch :
      (owner : Text) (t : Store)
      → is_some (redis.get t.leader) ≡ false
      → (acquire_script owner t).1.0 ≡ granted t +ℤ pos 1
  fresh_epoch owner t free =
      acquire_cases (λ r. r.1.0 ≡ granted t +ℤ pos 1) owner t (λ e. absurd (ground arith))
        λ _ u value e. e

  last_epoch :
      (owner : Text) (s : Store)
      → is_some (redis.get s.leader) ≡ false
      → granted (acquire_script owner s).0 ≡ (acquire_script owner s).1.0
  last_epoch owner s free =
      acquire_cases (λ r. granted r.0 ≡ r.1.0) owner s (λ e. absurd (ground arith))
        λ _ u value e. refl

  -- Fencing tokens grow: if the lease is free and granted, and after any steps of the system free
  -- and granted again, to whichever process, the second grant has a greater epoch.
  pub epochs_increase :
      (s t : Store) (owner owner' : Text)
      → is_some (redis.get s.leader) ≡ false
      → Steps (acquire_script owner s).0 t
      → is_some (redis.get t.leader) ≡ false
      → (acquire_script owner s).1.0 <ℤ (acquire_script owner' t).1.0
  epochs_increase s t owner owner' free r free' =
      rw (sym (last_epoch owner s free), fresh_epoch owner' t free')
        (omega (arith, Steps-Climbs r, +ℤ_parts (granted t) (pos 1)))
