-- ===== src/System/Books.antt =====
-- What the scripts of internal/broker/scripts.go write about tasks, whichever process runs them: the
-- payloads, the terminal markers, the counters and the in-flight count.
use distributed_task_queue_s.Prelude.{
  ℕ, ◌≡◌, Bool, true, false, inl, inr, Bool-cases, List, [], ◌∷◌, ℤ, pos, Text, text_eq, is_some,
}
use distributed_task_queue_s.Env.Float.{Float64}
use distributed_task_queue_s.Env.Redis.{Redis}
use distributed_task_queue_s.Policy.Key.{Key}
use distributed_task_queue_s.Broker.Store.{
  Store, stat_admitted, stat_dispatched, stat_completed, stat_retried, stat_dead_lettered,
  stat_deadline_missed, stat_duplicate_completions,
}
use distributed_task_queue_s.Broker.Scripts.{
  admit_body, admit_script, publish, dispatch_body, dispatch_script, ack_old, complete_script,
  record_completion, retry_script, bury, redeliver, save_state_body, save_state_script,
}
use distributed_task_queue_s.Broker.Guard.{guarded_cases}
use distributed_task_queue_s.Broker.Cases.{is_done, complete_cases, retry_cases}
use distributed_task_queue_s.Broker.Loop.{rounds, rounds_rule, round_cases}
use distributed_task_queue_s.Lease.Scripts.{acquire_script, release_script, holds, expire}
use distributed_task_queue_s.System.Steps.{
  Step, submit, ack_ingress, ack_exec, admit, dispatch, complete, retry, save_state, acquire,
  release, expires, done, more, Steps,
}

module _ ⦃fl : Float64⦄ ⦃redis : Redis⦄ where
  open redis use {Cell, Hash, hget, hset, hdel, hincrby, incr, decr}

  pub record Books : Type 0 where
    pub payloads : Hash Text
    pub done : Hash ℤ
    pub stats : Hash ℤ
    pub inflight : Cell ℤ

  abbrev pub books : Store → Books
  books s = record { payloads = s.payloads; done = s.done; stats = s.stats; inflight = s.inflight }

  abbrev pub terminal : Books → Text → Bool
  terminal b task_id = is_some (hget b.done task_id)

  -- One thing that can happen to a task.
  pub data Entry (b : Books) : Books → Type 0 where
    admitted :
        (task_id payload : Text)
        → terminal b task_id ≡ false
        → is_some (hget b.payloads task_id) ≡ false
        → Entry b (record b {
          payloads = hset b.payloads task_id payload;
          stats = hincrby b.stats stat_admitted (pos 1);
        })
    dispatched :
        Entry b
          (record b { stats = hincrby b.stats stat_dispatched (pos 1); inflight = incr b.inflight })
    duplicate : Entry b (record b { stats = hincrby b.stats stat_duplicate_completions (pos 1) })
    completed :
        (task_id : Text) (now : ℤ)
        → terminal b task_id ≡ false
        → Entry b (record {
          payloads = hdel b.payloads task_id;
          done = hset b.done task_id now;
          stats = hincrby b.stats stat_completed (pos 1);
          inflight = decr b.inflight;
        })
    late : Entry b (record b { stats = hincrby b.stats stat_deadline_missed (pos 1) })
    retried :
        (task_id payload : Text)
        → terminal b task_id ≡ false
        → Entry b (record b {
          payloads = hset b.payloads task_id payload;
          stats = hincrby b.stats stat_retried (pos 1);
        })
    buried :
        (task_id : Text) (now : ℤ)
        → terminal b task_id ≡ false
        → Entry b (record {
          payloads = hdel b.payloads task_id;
          done = hset b.done task_id now;
          stats = hincrby b.stats stat_dead_lettered (pos 1);
          inflight = decr b.inflight;
        })

  pub data Entries (b : Books) : Books → Type 0 where
    none_yet : Entries b b
    next : {c d : Books} → Entries b c → Entry c d → Entries b d

  pub Entries_trans : {b c d : Books} → Entries b c → Entries c d → Entries b d
  Entries_trans es none_yet = es
  Entries_trans es (next fs f) = next (Entries_trans es fs) f

  single : {b c : Books} → Entry b c → Entries b c
  single e = next none_yet e

  record Wrote (s t : Store) : Type 0 where
    entries : Entries (books s) (books t)

  ack_old-Wrote : (msg : Text) (s t : Store) → Entries (books s) (books t) → Wrote s (ack_old msg t)
  unfolding ack_old
  ack_old-Wrote msg s t k = elim (Bool-cases (text_eq msg [])) [
    | inl e ↦ rw (ack_old, e) (record { entries = k })
    | inr e ↦ rw (ack_old, e) (record { entries = k })
  ]

  admit-Wrote :
      (task_id : Text) (key : Key) (submitted : ℤ) (payload : Text) (epoch : ℤ) (s : Store)
      → Wrote s (admit_script task_id key submitted payload epoch s).0
  unfolding admit_script admit_body
  admit-Wrote task_id key submitted payload epoch s =
      guarded_cases (λ r. Wrote s r.0) epoch (admit_body task_id key submitted payload) s
        (λ _. record { entries = none_yet })
        λ c _. elim (Bool-cases (is_done s task_id)) [
          | inl e ↦ rw (admit_body, e) (record { entries = none_yet })
          | inr e ↦ elim (Bool-cases (is_some (hget s.payloads task_id))) [
            | inl f ↦ rw (admit_body, e, f) (record { entries = none_yet })
            | inr f ↦
                rw (admit_body, e, f) (record { entries = single (admitted task_id payload e f) })
          ]
        ]

  rounds-Wrote :
      (limit : ℕ) (now : ℤ) (max_len : ℕ) (epoch : ℤ) (n : ℕ) (s : Store)
      → Wrote s (rounds limit now max_len epoch n s).0
  unfolding publish
  rounds-Wrote limit now max_len epoch =
      rounds_rule limit now max_len epoch (λ n s r. Wrote s r.0)
        (λ n s. record { entries = none_yet })
        λ n s k rest more room e.
          round_cases limit now max_len epoch (λ r. Wrote r.0 more.0 → Wrote s more.0) k rest s
            (λ _ g. record { entries = g.entries })
            λ payload _ g. record { entries = Entries_trans (single dispatched) g.entries }

  dispatch-Wrote :
      (n limit : ℕ) (now : ℤ) (max_len : ℕ) (epoch : ℤ) (s : Store)
      → Wrote s (dispatch_script n limit now max_len epoch s).0
  unfolding dispatch_script dispatch_body
  dispatch-Wrote n limit now max_len epoch s =
      guarded_cases (λ r. Wrote s r.0) epoch (dispatch_body n limit now max_len epoch) s
        (λ _. record { entries = none_yet })
        λ c h. record {
          entries = (rounds-Wrote limit now max_len epoch n (record s { fence = c })).entries;
        }

  completion :
      (task_id result tenant : Text) (service : ℤ) (missed : Bool) (now : ℤ) (max_len : ℕ)
      (s : Store)
      → is_done s task_id ≡ false
      → Entries
          (books s)
          (books (record_completion task_id result tenant service missed now max_len s))
  unfolding record_completion
  completion task_id result tenant service true now max_len s e =
      next (single (completed task_id now e)) late
  completion task_id result tenant service false now max_len s e = single (completed task_id now e)

  complete-Wrote :
      (task_id result tenant : Text) (service : ℤ) (missed : Bool) (now : ℤ) (msg : Text)
      (max_len : ℕ) (s : Store)
      → Wrote s (complete_script task_id result tenant service missed now msg max_len s).0
  complete-Wrote task_id result tenant service missed now msg max_len s =
      complete_cases (λ r. Wrote s r.0) task_id result tenant service missed now msg max_len s
        (λ _. ack_old-Wrote msg s _ (single duplicate))
        λ e. ack_old-Wrote msg s _ (completion task_id result tenant service missed now max_len s e)

  retry-Wrote :
      (task_id retry_json dead_json : Text) (is_dead : Bool) (now : ℤ) (msg : Text) (max_len : ℕ)
      (s : Store)
      → Wrote s (retry_script task_id retry_json dead_json is_dead now msg max_len s).0
  unfolding bury redeliver
  retry-Wrote task_id retry_json dead_json is_dead now msg max_len s =
      retry_cases (λ r. Wrote s r.0) task_id retry_json dead_json is_dead now msg max_len s
        (λ _. ack_old-Wrote msg s s none_yet)
        (λ e _. ack_old-Wrote msg s _ (single (buried task_id now e)))
        λ e _. ack_old-Wrote msg s _ (single (retried task_id retry_json e))

  save_state-Wrote :
      (state : List (Text × Text)) (epoch : ℤ) (s : Store)
      → Wrote s (save_state_script state epoch s).0
  unfolding save_state_script save_state_body
  save_state-Wrote [] epoch s =
      guarded_cases (λ r. Wrote s r.0) epoch (save_state_body []) s
        (λ _. record { entries = none_yet }) λ c _. record { entries = none_yet }
  save_state-Wrote (e ∷ state) epoch s =
      guarded_cases (λ r. Wrote s r.0) epoch (save_state_body (e ∷ state)) s
        (λ _. record { entries = none_yet }) λ c _. record { entries = none_yet }

  acquire-Wrote : (owner : Text) (s : Store) → Wrote s (acquire_script owner s).0
  unfolding acquire_script
  acquire-Wrote owner s = elim (Bool-cases (is_some (redis.get s.leader))) [
    | inl e ↦ rw (e, acquire_script) (record { entries = none_yet })
    | inr e ↦ rw (e, acquire_script) (record { entries = none_yet })
  ]

  release-Wrote : (value : Text) (s : Store) → Wrote s (release_script value s).0
  unfolding release_script
  release-Wrote value s = elim (Bool-cases (holds s value)) [
    | inl e ↦ rw (e, release_script) (record { entries = none_yet })
    | inr e ↦ rw (e, release_script) (record { entries = none_yet })
  ]

  Step-Wrote : (s t : Store) → Step s t → Wrote s t
  unfolding expire
  Step-Wrote s t (submit max_len payload) = record { entries = none_yet }
  Step-Wrote s t (ack_ingress id) = record { entries = none_yet }
  Step-Wrote s t (ack_exec id) = record { entries = none_yet }
  Step-Wrote s t (admit task_id key submitted payload epoch) =
      admit-Wrote task_id key submitted payload epoch s
  Step-Wrote s t (dispatch n limit now max_len epoch) = dispatch-Wrote n limit now max_len epoch s
  Step-Wrote s t (complete task_id result tenant service missed now msg max_len) =
      complete-Wrote task_id result tenant service missed now msg max_len s
  Step-Wrote s t (retry task_id retry_json dead_json is_dead now msg max_len) =
      retry-Wrote task_id retry_json dead_json is_dead now msg max_len s
  Step-Wrote s t (save_state state epoch) = save_state-Wrote state epoch s
  Step-Wrote s t (acquire owner) = acquire-Wrote owner s
  Step-Wrote s t (release value) = release-Wrote value s
  Step-Wrote s t expires = record { entries = none_yet }

  -- Every run of the system refines the books: whatever the scripts are called with, and by whom,
  -- the payloads, terminal markers, counters and in-flight count change by these entries only, of
  -- which completion, burial and retry are for tasks that are not terminal, and admission is for
  -- tasks that are neither terminal nor stored.
  pub steps_are_entries : (s t : Store) → Steps s t → Entries (books s) (books t)
  steps_are_entries s t done = none_yet
  steps_are_entries s t (more {t = u} r st) =
      Entries_trans (steps_are_entries s u r) (Step-Wrote u t st).entries
