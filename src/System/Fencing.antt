-- ===== src/System/Fencing.antt =====
-- The single-writer invariant of internal/broker/scripts.go in the whole system.
use distributed_task_queue_s.Prelude.{
  ℕ, ◌≡◌, refl, sym, inl, inr, Bool, List, [], ◌∷◌, ℤ, pos, ◌≤ℤ◌, ◌<ℤ◌, Text, arith, Bool-cases,
  text_eq, is_some,
}
use distributed_task_queue_s.Env.Float.{Float64}
use distributed_task_queue_s.Env.Redis.{Redis}
use distributed_task_queue_s.Policy.Key.{Key}
use distributed_task_queue_s.Broker.Store.{Store}
use distributed_task_queue_s.Broker.Scripts.{
  Reply, fenced_error, get_counter, guarded, admit_body, admit_script, publish, dispatch_body,
  dispatch_script, ack_old, complete_script, record_completion, retry_script, bury, redeliver,
  save_state_body, save_state_script,
}
use distributed_task_queue_s.Broker.Guard.{
  floor, Superseded, Entered, Entered-floor, guarded_cases, guarded-Superseded,
}
use distributed_task_queue_s.Broker.Cases.{complete_cases, retry_cases}
use distributed_task_queue_s.Broker.Loop.{rounds, rounds_rule, round_cases}
use distributed_task_queue_s.Lease.Scripts.{acquire_script, release_script, holds, expire}
use distributed_task_queue_s.System.Terms.{InOrder, Terms, Terms-raise, Terms-xack, Terms-xadd}
use distributed_task_queue_s.System.Steps.{
  Step, submit, ack_ingress, ack_exec, admit, dispatch, complete, retry, save_state, acquire,
  release, expires, done, more, Steps,
}

module _ ⦃fl : Float64⦄ ⦃redis : Redis⦄ where
  open redis use {Cell, entries}

  -- Every dispatch so far stands in the order of its term, and no term is above the floor.
  abbrev pub Fenced : Store → Type 0
  Fenced s = Terms (floor s) s.exec

  -- What a step keeps: `Fenced`, and a floor that does not fall.
  record Keeps (s t : Store) : Type 0 where
    keep : Fenced s → Fenced t
    up : floor s ≤ℤ floor t

  -- A step that leaves the stream alone.
  Keeps-exec : (s t : Store) → t.exec ≡ s.exec → floor s ≤ℤ floor t → Keeps s t
  Keeps-exec s t e h = record {
    keep = λ f. rw e (Terms-raise (floor s) (floor t) s.exec h f);
    up = h;
  }

  -- A guarded script whose body leaves the stream and the fence alone.
  guarded-Keeps {ℓ} :
      {A : Type ℓ} (epoch : ℤ) (body : Store → Store × Reply A) (s : Store)
      → ((u : Store) → ((body u).0.exec ≡ u.exec) × ((body u).0.fence ≡ u.fence))
      → Keeps s (guarded epoch body s).0
  guarded-Keeps epoch body s same =
      guarded_cases (λ r. Keeps s r.0) epoch body s (λ _. Keeps-exec s s refl (omega arith))
        λ c h.
          let u = record s { fence = c } in
          Keeps-exec s (body u).0 (same u).0 (rw (same u).1 (Entered-floor epoch s c h))

  admit_body-same :
      (task_id : Text) (key : Key) (submitted : ℤ) (payload : Text) (u : Store)
      → ((admit_body task_id key submitted payload u).0.exec ≡ u.exec)
        × ((admit_body task_id key submitted payload u).0.fence ≡ u.fence)
  unfolding admit_body
  admit_body-same task_id key submitted payload u = ground arith

  save_state_body-same :
      (state : List (Text × Text)) (u : Store)
      → ((save_state_body state u).0.exec ≡ u.exec) × ((save_state_body state u).0.fence ≡ u.fence)
  unfolding save_state_body
  save_state_body-same [] u = (refl, refl)
  save_state_body-same (e ∷ state) u = (refl, refl)

  -- A positive epoch in the loop is the floor.
  abbrev AtFloor : ℤ → Store → Type 0
  AtFloor epoch s = pos 0 <ℤ epoch → epoch ≡ floor s

  rounds-fence :
      (limit : ℕ) (now : ℤ) (max_len : ℕ) (epoch : ℤ) (n : ℕ) (s : Store)
      → (rounds limit now max_len epoch n s).0.fence ≡ s.fence
  unfolding publish
  rounds-fence limit now max_len epoch =
      rounds_rule limit now max_len epoch (λ n s r. r.0.fence ≡ s.fence) (λ n s. refl)
        λ n s k rest more room e.
          round_cases limit now max_len epoch
            (λ r. more.0.fence ≡ r.0.fence → more.0.fence ≡ s.fence) k rest s (λ _ g. g)
            λ payload _ g. g

  rounds-Fenced :
      (limit : ℕ) (now : ℤ) (max_len : ℕ) (epoch : ℤ) (n : ℕ) (s : Store)
      → AtFloor epoch s
      → Fenced s
      → Terms (floor s) (rounds limit now max_len epoch n s).0.exec
  unfolding publish
  rounds-Fenced limit now max_len epoch =
      rounds_rule limit now max_len epoch
        (λ n s r. AtFloor epoch s → Fenced s → Terms (floor s) r.0.exec) (λ n s a f. f)
        λ n s k rest more room e ih a f.
          round_cases limit now max_len epoch
            (λ r.
              (AtFloor epoch r.0 → Fenced r.0 → Terms (floor r.0) more.0.exec)
              → Terms (floor s) more.0.exec)
            k rest s (λ _ g. g a f) (λ payload _ g. g a (Terms-xadd (floor s) s.exec max_len _ a f))
            ih

  Entered-AtFloor :
      (epoch : ℤ) (s : Store) (c : Cell ℤ)
      → Entered epoch s c
      → pos 0 <ℤ epoch
      → epoch ≡ get_counter c
  Entered-AtFloor epoch s c (inl (p, e)) q = absurd (omega arith)
  Entered-AtFloor epoch s c (inr (p, r, e)) q = sym e

  dispatch-Keeps :
      (n limit : ℕ) (now : ℤ) (max_len : ℕ) (epoch : ℤ) (s : Store)
      → Keeps s (dispatch_script n limit now max_len epoch s).0
  unfolding dispatch_script dispatch_body
  dispatch-Keeps n limit now max_len epoch s =
      guarded_cases (λ r. Keeps s r.0) epoch (dispatch_body n limit now max_len epoch) s
        (λ _. Keeps-exec s s refl (omega arith))
        λ c h.
          let u = record s { fence = c } in
          let up = Entered-floor epoch s c h in
          let kept = rounds-fence limit now max_len epoch n u in
          record {
            keep = λ f. rw kept (
                rounds-Fenced limit now max_len epoch n u (Entered-AtFloor epoch s c h)
                  (Terms-raise (floor s) (floor u) s.exec up f));
            up = rw kept up;
          }

  ack_old-Keeps : (msg : Text) (s t : Store) → Keeps s t → Keeps s (ack_old msg t)
  unfolding ack_old
  ack_old-Keeps msg s t k = elim (Bool-cases (text_eq msg [])) [
    | inl e ↦ rw (ack_old, e) k
    | inr e ↦
        rw (ack_old, e)
          (record { keep = λ f. Terms-xack (floor t) t.exec msg (k.keep f); up = k.up })
  ]

  complete-Keeps :
      (task_id result tenant : Text) (service : ℤ) (missed : Bool) (now : ℤ) (msg : Text)
      (max_len : ℕ) (s : Store)
      → Keeps s (complete_script task_id result tenant service missed now msg max_len s).0
  unfolding record_completion
  complete-Keeps task_id result tenant service missed now msg max_len s =
      complete_cases (λ r. Keeps s r.0) task_id result tenant service missed now msg max_len s
        (λ _. ack_old-Keeps msg s _ (Keeps-exec s _ refl (omega arith)))
        λ _. ack_old-Keeps msg s _ (Keeps-exec s _ refl (omega arith))

  retry-Keeps :
      (task_id retry_json dead_json : Text) (is_dead : Bool) (now : ℤ) (msg : Text) (max_len : ℕ)
      (s : Store)
      → Keeps s (retry_script task_id retry_json dead_json is_dead now msg max_len s).0
  unfolding bury redeliver
  retry-Keeps task_id retry_json dead_json is_dead now msg max_len s =
      retry_cases (λ r. Keeps s r.0) task_id retry_json dead_json is_dead now msg max_len s
        (λ _. ack_old-Keeps msg s s (Keeps-exec s s refl (omega arith)))
        (λ _ _. ack_old-Keeps msg s _ (Keeps-exec s _ refl (omega arith)))
        λ _ _. ack_old-Keeps msg s _ (record {
          keep = λ f. Terms-xadd (floor s) s.exec max_len _ (λ p. absurd (omega arith)) f;
          up = omega arith;
        })

  acquire-Keeps : (owner : Text) (s : Store) → Keeps s (acquire_script owner s).0
  unfolding acquire_script
  acquire-Keeps owner s = elim (Bool-cases (is_some (redis.get s.leader))) [
    | inl e ↦ rw (e, acquire_script) (Keeps-exec s s refl (omega arith))
    | inr e ↦ rw (e, acquire_script) (Keeps-exec s _ refl (omega arith))
  ]

  release-Keeps : (value : Text) (s : Store) → Keeps s (release_script value s).0
  unfolding release_script
  release-Keeps value s = elim (Bool-cases (holds s value)) [
    | inl e ↦ rw (e, release_script) (Keeps-exec s _ refl (omega arith))
    | inr e ↦ rw (e, release_script) (Keeps-exec s s refl (omega arith))
  ]

  Step-Keeps : (s t : Store) → Step s t → Keeps s t
  unfolding admit_script save_state_script expire
  Step-Keeps s t (submit max_len payload) = Keeps-exec s _ refl (omega arith)
  Step-Keeps s t (ack_ingress id) = Keeps-exec s _ refl (omega arith)
  Step-Keeps s t (ack_exec id) = record {
    keep = λ f. Terms-xack (floor s) s.exec id f;
    up = omega arith;
  }
  Step-Keeps s t (admit task_id key submitted payload epoch) =
      guarded-Keeps epoch (admit_body task_id key submitted payload) s
        (admit_body-same task_id key submitted payload)
  Step-Keeps s t (dispatch n limit now max_len epoch) = dispatch-Keeps n limit now max_len epoch s
  Step-Keeps s t (complete task_id result tenant service missed now msg max_len) =
      complete-Keeps task_id result tenant service missed now msg max_len s
  Step-Keeps s t (retry task_id retry_json dead_json is_dead now msg max_len) =
      retry-Keeps task_id retry_json dead_json is_dead now msg max_len s
  Step-Keeps s t (save_state state epoch) =
      guarded-Keeps epoch (save_state_body state) s (save_state_body-same state)
  Step-Keeps s t (acquire owner) = acquire-Keeps owner s
  Step-Keeps s t (release value) = release-Keeps value s
  Step-Keeps s t expires = Keeps-exec s _ refl (omega arith)

  Steps-Keeps : {s t : Store} → Steps s t → Keeps s t
  Steps-Keeps {s} done = Keeps-exec s s refl (omega arith)
  Steps-Keeps {s} (more {t} {u} r st) =
      let first = Steps-Keeps r in
      let last = Step-Keeps t u st in
      record { keep = λ f. last.keep (first.keep f); up = omega (arith, first.up, last.up) }

  -- Whatever the processes do, superseded leaders included, the positive epochs on the execution
  -- stream never go backwards, if they did not at the start and none was above the fence's floor.
  pub dispatches-InOrder : (s t : Store) → Fenced s → Steps s t → InOrder (entries t.exec)
  dispatches-InOrder s t f r = ((Steps-Keeps r).keep f).ordered

  -- A superseded leader stays locked out: after any steps, the scripts that it may call refuse its
  -- epoch and change nothing.
  pub Superseded-stays_out :
      (s t : Store) (epoch : ℤ)
      → Superseded epoch s
      → Steps s t
      → ((task_id : Text) (key : Key) (submitted : ℤ) (payload : Text)
          → admit_script task_id key submitted payload epoch t ≡ (t, fenced_error))
        × ((n limit : ℕ) (now : ℤ) (max_len : ℕ)
            → dispatch_script n limit now max_len epoch t ≡ (t, fenced_error))
        × ((state : List (Text × Text)) → save_state_script state epoch t ≡ (t, fenced_error))
  unfolding admit_script dispatch_script save_state_script
  Superseded-stays_out s t epoch (p, q) r =
      let old : Superseded epoch t = (p, omega (arith, q, (Steps-Keeps r).up)) in
      (
        λ task_id key submitted payload.
            guarded-Superseded epoch (admit_body task_id key submitted payload) t old,
        λ n limit now max_len.
            guarded-Superseded epoch (dispatch_body n limit now max_len epoch) t old,
        λ state. guarded-Superseded epoch (save_state_body state) t old,
      )
