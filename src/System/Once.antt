-- ===== src/System/Once.antt =====
-- What is once known to the broker stays known, and what is once terminal stays terminal, across
-- the scripts of internal/broker/scripts.go.
use distributed_task_queue_s.Prelude.{
  ℕ, ◌≡◌, refl, ◌⊎◌, inl, inr, Bool, true, Bool-cases, ℤ, pos, Text, text_eq, text_eq_refl, is_some,
  arith,
}
use distributed_task_queue_s.Env.Float.{Float64}
use distributed_task_queue_s.Env.Redis.{Redis}
use distributed_task_queue_s.Policy.Key.{Key}
use distributed_task_queue_s.Broker.Store.{Store, stat_duplicate_completions}
use distributed_task_queue_s.Broker.Scripts.{
  Reply, reply, fenced_error, ack_old, admit_body, admit_script, complete_script, retry_script,
}
use distributed_task_queue_s.Broker.Guard.{guarded_cases}
use distributed_task_queue_s.Broker.Cases.{is_done, complete_cases, retry_cases}
use distributed_task_queue_s.System.Steps.{Steps}
use distributed_task_queue_s.System.Books.{
  Books, books, terminal, Entry, admitted, dispatched, duplicate, completed, late, retried, buried,
  Entries, none_yet, next, steps_are_entries,
}

module _ ⦃fl : Float64⦄ ⦃redis : Redis⦄ where
  open redis use {Hash, hget, hset, hdel}

  has-hset :
      {V : Type 0} (h : Hash V) (f : Text) (v : V) (g : Text)
      → is_some (hget h g) ≡ true
      → is_some (hget (hset h f v) g) ≡ true
  has-hset h f v g e = ground (arith, redis.hget-hset h f v g)

  pub has-hset_self :
      {V : Type 0} (h : Hash V) (f : Text) (v : V) → is_some (hget (hset h f v) f) ≡ true
  has-hset_self h f v = rw (redis.hget-hset h f v f, text_eq_refl f)

  Entry-terminal :
      (b c : Books) (task_id : Text)
      → Entry b c
      → terminal b task_id ≡ true
      → terminal c task_id ≡ true
  Entry-terminal b c task_id (admitted i payload _ _) h = h
  Entry-terminal b c task_id dispatched h = h
  Entry-terminal b c task_id duplicate h = h
  Entry-terminal b c task_id (completed i now _) h = has-hset b.done i now task_id h
  Entry-terminal b c task_id late h = h
  Entry-terminal b c task_id (retried i payload _) h = h
  Entry-terminal b c task_id (buried i now _) h = has-hset b.done i now task_id h

  -- The broker still has the task's payload, or its end.
  abbrev pub Known : Books → Text → Type 0
  Known b task_id = (is_some (hget b.payloads task_id) ≡ true) ⊎ (terminal b task_id ≡ true)

  moved :
      (p : Hash Text) (d : Hash ℤ) (i : Text) (now : ℤ) (task_id : Text)
      → is_some (hget p task_id) ≡ true
      → (is_some (hget (hdel p i) task_id) ≡ true) ⊎ (is_some (hget (hset d i now) task_id) ≡ true)
  moved p d i now task_id h = elim (Bool-cases (text_eq i task_id)) [
    | inl e ↦ inr (rw (redis.hget-hset d i now task_id, e))
    | inr e ↦ inl (rw (redis.hget-hdel p i task_id, e) h)
  ]

  Entry-Known : (b c : Books) (task_id : Text) → Entry b c → Known b task_id → Known c task_id
  Entry-Known b c task_id e (inr h) = inr (Entry-terminal b c task_id e h)
  Entry-Known b c task_id (admitted i payload _ _) (inl h) =
      inl (has-hset b.payloads i payload task_id h)
  Entry-Known b c task_id dispatched (inl h) = inl h
  Entry-Known b c task_id duplicate (inl h) = inl h
  Entry-Known b c task_id (completed i now _) (inl h) = moved b.payloads b.done i now task_id h
  Entry-Known b c task_id late (inl h) = inl h
  Entry-Known b c task_id (retried i payload _) (inl h) =
      inl (has-hset b.payloads i payload task_id h)
  Entry-Known b c task_id (buried i now _) (inl h) = moved b.payloads b.done i now task_id h

  Entries-terminal :
      {b c : Books} (task_id : Text)
      → Entries b c
      → terminal b task_id ≡ true
      → terminal c task_id ≡ true
  Entries-terminal task_id none_yet h = h
  Entries-terminal task_id (next {c} {d} es e) h =
      Entry-terminal c d task_id e (Entries-terminal task_id es h)

  Entries-Known : {b c : Books} (task_id : Text) → Entries b c → Known b task_id → Known c task_id
  Entries-Known task_id none_yet h = h
  Entries-Known task_id (next {c} {d} es e) h =
      Entry-Known c d task_id e (Entries-Known task_id es h)

  pub Steps-terminal :
      (s t : Store) (task_id : Text)
      → Steps s t
      → is_done s task_id ≡ true
      → is_done t task_id ≡ true
  Steps-terminal s t task_id r h = Entries-terminal task_id (steps_are_entries s t r) h

  pub Steps-Known :
      (s t : Store) (task_id : Text) → Steps s t → Known (books s) task_id → Known (books t) task_id
  Steps-Known s t task_id r h = Entries-Known task_id (steps_are_entries s t r) h

  -- A known task is not admitted again, whoever asks: the reply is 0 or the caller is fenced.
  Known-admit_body :
      (task_id : Text) (key : Key) (submitted : ℤ) (payload : Text) (s : Store)
      → Known (books s) task_id
      → admit_body task_id key submitted payload s ≡ (s, reply 0)
  unfolding admit_body
  Known-admit_body task_id key submitted payload s (inr h) = rw (admit_body, h)
  Known-admit_body task_id key submitted payload s (inl h) = elim (Bool-cases (is_done s task_id)) [
    | inl e ↦ rw (admit_body, e)
    | inr e ↦ rw (admit_body, e, h)
  ]

  -- A task that the broker knows is still known after any steps, and admitting it again, by any
  -- scheduler under any key, changes nothing but the fence: the reply is 0, or the caller is fenced.
  pub admitted_at_most_once :
      (s t : Store) (task_id : Text)
      → Known (books s) task_id
      → Steps s t
      → Known (books t) task_id
        × ((key : Key) (submitted : ℤ) (payload : Text) (epoch : ℤ)
            → let r = admit_script task_id key submitted payload epoch t in
              (r.0 ≡ record t { fence = r.0.fence }) × ((r.1 ≡ reply 0) ⊎ (r.1 ≡ fenced_error)))
  unfolding admit_script
  admitted_at_most_once s t task_id h r =
      let k = Entries-Known task_id (steps_are_entries s t r) h in
      (
        k,
        λ key submitted payload epoch.
            guarded_cases
              (λ r.
                (r.0 ≡ record t { fence = r.0.fence }) × ((r.1 ≡ reply 0) ⊎ (r.1 ≡ fenced_error)))
              epoch (admit_body task_id key submitted payload) t (λ _. (refl, inr refl))
              λ c _.
                rw (Known-admit_body task_id key submitted payload (record t { fence = c }) k)
                  (refl, inl refl),
      )

  -- A duplicate completion: counted, and the delivery acknowledged.
  abbrev pub suppressed : Text → Store → Store × Reply ℕ
  suppressed msg s = (
    ack_old msg (record s { stats = redis.hincrby s.stats stat_duplicate_completions (pos 1) }),
    reply 0,
  )

  pub complete-terminal :
      (task_id result tenant : Text) (service : ℤ) (missed : Bool) (now : ℤ) (msg : Text)
      (max_len : ℕ) (s : Store)
      → is_done s task_id ≡ true
      → complete_script task_id result tenant service missed now msg max_len s ≡ suppressed msg s
  complete-terminal task_id result tenant service missed now msg max_len s h =
      complete_cases (λ r. r ≡ suppressed msg s) task_id result tenant service missed now msg
        max_len s (λ _. refl) λ e. absurd (ground arith)

  pub retry-terminal :
      (task_id retry_json dead_json : Text) (is_dead : Bool) (now : ℤ) (msg : Text) (max_len : ℕ)
      (s : Store)
      → is_done s task_id ≡ true
      → retry_script task_id retry_json dead_json is_dead now msg max_len s
        ≡ (ack_old msg s, reply 0)
  retry-terminal task_id retry_json dead_json is_dead now msg max_len s h =
      retry_cases (λ r. r ≡ (ack_old msg s, reply 0)) task_id retry_json dead_json is_dead now msg
        max_len s (λ _. refl) (λ e _. absurd (ground arith)) λ e _. absurd (ground arith)

  -- A task that is terminal, completed or dead-lettered, stays so after any steps: completing it
  -- again only counts a duplicate and acknowledges the delivery, and retrying it only acknowledges,
  -- so there is no second result, dead letter or delivery.
  pub terminal_at_most_once :
      (s t : Store) (task_id : Text)
      → is_done s task_id ≡ true
      → Steps s t
      → ((result tenant : Text) (service : ℤ) (missed : Bool) (now : ℤ) (msg : Text) (max_len : ℕ)
          → complete_script task_id result tenant service missed now msg max_len t
            ≡ suppressed msg t)
        × ((retry_json dead_json : Text) (is_dead : Bool) (now : ℤ) (msg : Text) (max_len : ℕ)
            → retry_script task_id retry_json dead_json is_dead now msg max_len t
              ≡ (ack_old msg t, reply 0))
  terminal_at_most_once s t task_id h r =
      let e : is_done t task_id ≡ true = Steps-terminal s t task_id r h in
      (
        λ result tenant service missed now msg max_len.
            complete-terminal task_id result tenant service missed now msg max_len t e,
        λ retry_json dead_json is_dead now msg max_len.
            retry-terminal task_id retry_json dead_json is_dead now msg max_len t e,
      )
