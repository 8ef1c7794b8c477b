-- ===== src/Process/Handover.antt =====
-- restoreState and leadTerm of internal/scheduler/engine.go: what one term saves is what the next
-- one starts from.
use distributed_task_queue_s.Prelude.{
  ℕ, ◌≡◌, refl, sym, ap, ◌∙◌, true, Option, none, some, is_some, List, [], ◌∷◌, ◌++◌, All-map, ℤ,
  Text, text_eq, text_eq_iff, lookup, if◌then◌else◌, arith,
}
use distributed_task_queue_s.Env.Float.{Float64}
use distributed_task_queue_s.Env.Redis.{Redis}
use distributed_task_queue_s.Policy.Interface.{Policy, wfq_policy}
use distributed_task_queue_s.Policy.Wfq
use distributed_task_queue_s.Policy.Wfq.{Wfq, tag_entries, state_virtual_time, state_finish_prefix}
use distributed_task_queue_s.Policy.Wfq.Persist.{
  SameEntries, restore-state, lookup-tag_entries, lookup-state_clock, after_prefix-append,
}
use distributed_task_queue_s.Broker.Store.{Store}
use distributed_task_queue_s.Broker.Scripts.{reply, hset_all, save_state_body, save_state_script}
use distributed_task_queue_s.Broker.Guard.{guarded_cases}
use distributed_task_queue_s.Process.World.{
  World, Trip, Answer, answer, err_fenced, err_other, answer_of, carry, call, call_cases,
}
use distributed_task_queue_s.Process.Serve.{save_scheduler_state, flush_state}

module _ ⦃fl : Float64⦄ ⦃redis : Redis⦄ where
  unfoldable pub load_scheduler_state : World → World × Answer (List (Text × Text))
  unfolding call
  load_scheduler_state w = call (λ s. (s, reply (redis.hgetall s.sched_state))) w

  -- The policy of the term, or an error of the broker or of Restore. With nothing saved the policy
  -- stays as it is.
  unfoldable pub restore_loaded :
      (pol : Policy) → pol.State → World → Answer (List (Text × Text)) → World × Option pol.State
  restore_loaded pol p w (answer []) = (w, some p)
  restore_loaded pol p w (answer (e ∷ entries)) = (w, pol.restore p (e ∷ entries))
  restore_loaded pol p w err_fenced = (w, none)
  restore_loaded pol p w err_other = (w, none)

  unfoldable pub restore_state : (pol : Policy) → pol.State → World → World × Option pol.State
  unfolding load_scheduler_state restore_loaded
  restore_state pol p w = let (w', a) = load_scheduler_state w in restore_loaded pol p w' a

  -- A Go map: no key twice.
  unfoldable pub IsMap {ℓ} : {V : Type ℓ} → List (Text × V) → Type ℓ
  IsMap [] = Unit
  IsMap ((k, v) ∷ m) = (lookup k m ≡ none) × IsMap m

  hget-hset_all :
      (h : redis.Hash Text) (es : List (Text × Text)) (k : Text)
      → IsMap es
      → redis.hget (hset_all h es) k
        ≡ (if is_some (lookup k es) then lookup k es else redis.hget h k)
  unfolding hset_all lookup IsMap
  hget-hset_all h [] k m = refl
  hget-hset_all h ((f, v) ∷ es) k m = ground (
    arith,
    hget-hset_all (redis.hset h f v) es k m.1,
    redis.hget-hset h f v k,
    text_eq_iff f k,
    m.0,
  )

  hget-saved :
      (es : List (Text × Text)) (k : Text)
      → IsMap es
      → redis.hget (hset_all redis.no_hash es) k ≡ lookup k es
  hget-saved es k m =
      ground (arith, hget-hset_all redis.no_hash es k m, redis.hget-no_hash {V = Text} k)

  tag_entries-IsMap : (m : List (Text × fl.F)) → IsMap m → IsMap (tag_entries m)
  unfolding IsMap tag_entries
  tag_entries-IsMap [] h = tt
  tag_entries-IsMap ((t, f) ∷ m) h = (
    rw
        (
          lookup-tag_entries m (state_finish_prefix ++ t),
          after_prefix-append state_finish_prefix t,
          h.0,
        )
        refl,
    tag_entries-IsMap m h.1,
  )

  state-IsMap : (p : Wfq) → IsMap p.last_finish → IsMap (Wfq.state p)
  unfolding IsMap Wfq.state Wfq.after_prefix text_eq
  state-IsMap p h =
      (lookup-tag_entries p.last_finish state_virtual_time, tag_entries-IsMap p.last_finish h)

  saved-SameEntries :
      (p : Wfq)
      → IsMap p.last_finish
      → SameEntries p (redis.hgetall (hset_all redis.no_hash (Wfq.state p)))
  saved-SameEntries p h =
      let saved = hset_all redis.no_hash (Wfq.state p) in
      let m = state-IsMap p h in
      record {
        sound =
            All-map (λ e. redis.hget saved e.0 ≡ some e.1)
              (λ e. lookup e.0 (Wfq.state p) ≡ some e.1) (redis.hgetall saved)
              (λ e g. sym (hget-saved (Wfq.state p) e.0 m) ∙ g) (redis.hgetall_sound saved);
        complete = λ k v g.
            redis.hgetall_complete saved k (rw (hget-saved (Wfq.state p) k m) (ground (arith, g)));
      }

  -- What a flush that answers leaves in the store.
  abbrev Flushed : Wfq → World × Answer ℕ → Type 0
  Flushed p (w, answer n) = w.store.sched_state ≡ hset_all redis.no_hash (Wfq.state p)
  Flushed p (w, err_fenced) = Unit
  Flushed p (w, err_other) = Unit

  flush_state-Flushed :
      (p : Wfq) (epoch : ℤ) (w : World) → Flushed p (flush_state wfq_policy p epoch w)
  unfolding flush_state save_scheduler_state Wfq.state save_state_script save_state_body answer_of
  flush_state-Flushed p epoch w =
      call_cases (Flushed p) (save_state_script (Wfq.state p) epoch) w (λ s ts r. tt) (λ s ts r. tt)
        λ s ts r.
          guarded_cases (λ a. Flushed p (record { store = a.0; trips = ts }, answer_of a.1)) epoch
            (save_state_body (Wfq.state p)) s (λ _. tt) λ c _. refl

  Flushed-answer :
      (p : Wfq) (n : ℕ) (r : World × Answer ℕ)
      → r.1 ≡ answer n
      → Flushed p r
      → r.0.store.sched_state ≡ hset_all redis.no_hash (Wfq.state p)
  Flushed-answer p n (w, answer k) e h = h
  Flushed-answer p n (w, err_fenced) e h = cc
  Flushed-answer p n (w, err_other) e h = cc

  restore_loaded_some :
      (pol : Policy) (q : pol.State) (w : World) (es : List (Text × Text)) (k : Text)
      → is_some (lookup k es) ≡ true
      → restore_loaded pol q w (answer es) ≡ (w, pol.restore q es)
  unfolding restore_loaded lookup
  restore_loaded_some pol q w [] k h = cc
  restore_loaded_some pol q w (e ∷ es) k h = refl

  load_quiet :
      (s : Store) (ts : List Trip)
      → ts ≡ []
      → load_scheduler_state (record { store = s; trips = ts })
        ≡ (record { store = s; trips = ts }, answer (redis.hgetall s.sched_state))
  unfolding load_scheduler_state call carry answer_of
  load_quiet s ts e = rw e refl

  -- The next term's policy has the saved clocks, and its own weights.
  pub record Resumed (p q r : Wfq) : Type 0 where
    pub clock : r.virtual_time ≡ p.virtual_time
    pub tags : (tenant : Text) → lookup tenant r.last_finish ≡ lookup tenant p.last_finish
    pub weights : r.weights ≡ q.weights
    pub default_weight : r.default_weight ≡ q.default_weight

  restore_saved :
      (p q : Wfq) (w : World)
      → IsMap p.last_finish
      → (r : Wfq) × (restore_loaded wfq_policy q w
            (answer (redis.hgetall (hset_all redis.no_hash (Wfq.state p))))
          ≡ (w, some r))
        × Resumed p q r
  restore_saved p q w h =
      let entries = redis.hgetall (hset_all redis.no_hash (Wfq.state p)) in
      let same = saved-SameEntries p h in
      let (r, e, clock, tags, weights, default_weight) = restore-state p q entries same in
      (
        r,
        rw
            (
              restore_loaded_some wfq_policy q w entries state_virtual_time
                  (same.complete state_virtual_time _ (lookup-state_clock p)),
              e,
            )
            refl,
        record { clock = clock; tags = tags; weights = weights; default_weight = default_weight },
      )

  -- A new term resumes where the last one left off: when a flush of one leader's clocks has been
  -- answered and nothing has been saved since, a term that loads undisturbed restores exactly that
  -- virtual clock and every tenant's finish tag, and keeps its own configured weights.
  pub restore_state-flush_state :
      (p q : Wfq) (epoch : ℤ) (n : ℕ) (w v : World)
      → IsMap p.last_finish
      → (flush_state wfq_policy p epoch w).1 ≡ answer n
      → v.store.sched_state ≡ (flush_state wfq_policy p epoch w).0.store.sched_state
      → v.trips ≡ []
      → (r : Wfq) × (restore_state wfq_policy q v ≡ (v, some r)) × Resumed p q r
  unfolding restore_state
  restore_state-flush_state p q epoch n w v h e same quiet =
      let saved =
        same
        ∙ Flushed-answer p n (flush_state wfq_policy p epoch w) e (flush_state-Flushed p epoch w) in
      let (r, f, resumed) = restore_saved p q v h in
      (
        r,
        ap (λ a. restore_loaded wfq_policy q a.0 a.1) (load_quiet v.store v.trips quiet)
            ∙ ap (λ h'. restore_loaded wfq_policy q v (answer (redis.hgetall h'))) saved
            ∙ f,
        resumed,
      )
