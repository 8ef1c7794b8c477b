-- ===== src/System/Balance.antt =====
-- The counters of internal/broker/keys.go against each other: where the dispatched tasks are.
use distributed_task_queue_s.Prelude.{
  ◌≡◌, refl, true, false, ℤ, pos, ◌+ℤ◌, ◌-ℤ◌, +ℤ_parts, -ℤ_parts, eq_of_parts, Text, text_eq,
  get_or, arith,
}
use distributed_task_queue_s.Env.Float.{Float64}
use distributed_task_queue_s.Env.Redis.{Redis}
use distributed_task_queue_s.Broker.Store.{
  Store, stat_admitted, stat_dispatched, stat_completed, stat_retried, stat_dead_lettered,
  stat_deadline_missed, stat_duplicate_completions,
}
use distributed_task_queue_s.Broker.Scripts.{get_counter}
use distributed_task_queue_s.System.Steps.{Steps}
use distributed_task_queue_s.System.Books.{
  Books, books, Entry, admitted, dispatched, duplicate, completed, late, retried, buried, Entries,
  none_yet, next, steps_are_entries,
}

module _ ⦃fl : Float64⦄ ⦃redis : Redis⦄ where
  open redis use {Hash, Cell, hget, hincrby, incr, decr}

  -- A counter of the stats hash; a missing one is 0.
  abbrev pub stat : Hash ℤ → Text → ℤ
  stat h name = get_or (hget h name) (pos 0)

  -- What was dispatched is in flight, completed or dead-lettered.
  abbrev AddsUp : ℤ → ℤ → ℤ → ℤ → Type 0
  AddsUp d i c b = d ≡ i +ℤ c +ℤ b

  pub record Balanced (b : Books) : Type 0 where
    pub adds_up :
        stat b.stats stat_dispatched
        ≡ get_counter b.inflight +ℤ stat b.stats stat_completed +ℤ stat b.stats stat_dead_lettered

  stat-hincrby-same :
      (h : Hash ℤ) (name : Text)
      → text_eq name name ≡ true
      → stat (hincrby h name (pos 1)) name ≡ stat h name +ℤ pos 1
  stat-hincrby-same h name e = rw (redis.hget-hincrby h name (pos 1) name, e)

  stat-hincrby-other :
      (h : Hash ℤ) (name other : Text)
      → text_eq name other ≡ false
      → stat (hincrby h name (pos 1)) other ≡ stat h other
  stat-hincrby-other h name other e = rw (redis.hget-hincrby h name (pos 1) other, e)

  get_counter-incr : (c : Cell ℤ) → get_counter (incr c) ≡ get_counter c +ℤ pos 1
  get_counter-incr c = rw (redis.get-incr c)

  get_counter-decr : (c : Cell ℤ) → get_counter (decr c) ≡ get_counter c -ℤ pos 1
  get_counter-decr c = rw (redis.get-decr c)

  -- A counter beside those that the balance reads.
  Balanced-beside :
      (b c : Books) (name : Text)
      → c.stats ≡ hincrby b.stats name (pos 1)
      → c.inflight ≡ b.inflight
      → text_eq name stat_dispatched ≡ false
      → text_eq name stat_completed ≡ false
      → text_eq name stat_dead_lettered ≡ false
      → Balanced b
      → Balanced c
  Balanced-beside b c name s i p q r h = record {
    adds_up =
        rw
          (
            s,
            i,
            stat-hincrby-other b.stats name stat_dispatched p,
            stat-hincrby-other b.stats name stat_completed q,
            stat-hincrby-other b.stats name stat_dead_lettered r,
          )
          h.adds_up;
  }

  add_dispatched : (d i c b : ℤ) → AddsUp d i c b → AddsUp (d +ℤ pos 1) (i +ℤ pos 1) c b
  add_dispatched d i c b h = eq_of_parts _ _ (
      ground (
        arith,
        h,
        +ℤ_parts d (pos 1),
        +ℤ_parts i (pos 1),
        +ℤ_parts i c,
        +ℤ_parts (i +ℤ c) b,
        +ℤ_parts (i +ℤ pos 1) c,
        +ℤ_parts (i +ℤ pos 1 +ℤ c) b,
      ))

  add_completed : (d i c b : ℤ) → AddsUp d i c b → AddsUp d (i -ℤ pos 1) (c +ℤ pos 1) b
  add_completed d i c b h = eq_of_parts _ _ (
      ground (
        arith,
        h,
        -ℤ_parts i (pos 1),
        +ℤ_parts c (pos 1),
        +ℤ_parts i c,
        +ℤ_parts (i +ℤ c) b,
        +ℤ_parts (i -ℤ pos 1) (c +ℤ pos 1),
        +ℤ_parts (i -ℤ pos 1 +ℤ (c +ℤ pos 1)) b,
      ))

  add_buried : (d i c b : ℤ) → AddsUp d i c b → AddsUp d (i -ℤ pos 1) c (b +ℤ pos 1)
  add_buried d i c b h = eq_of_parts _ _ (
      ground (
        arith,
        h,
        -ℤ_parts i (pos 1),
        +ℤ_parts b (pos 1),
        +ℤ_parts i c,
        +ℤ_parts (i +ℤ c) b,
        +ℤ_parts (i -ℤ pos 1) c,
        +ℤ_parts (i -ℤ pos 1 +ℤ c) (b +ℤ pos 1),
      ))

  Entry-Balanced : (b c : Books) → Entry b c → Balanced b → Balanced c
  unfolding text_eq
  Entry-Balanced b c (admitted task_id payload _ _) h =
      Balanced-beside b c stat_admitted refl refl refl refl refl h
  Entry-Balanced b c dispatched h = record {
    adds_up =
        rw
          (
            stat-hincrby-same b.stats stat_dispatched refl,
            stat-hincrby-other b.stats stat_dispatched stat_completed refl,
            stat-hincrby-other b.stats stat_dispatched stat_dead_lettered refl,
            get_counter-incr b.inflight,
          )
          (add_dispatched _ _ _ _ h.adds_up);
  }
  Entry-Balanced b c duplicate h =
      Balanced-beside b c stat_duplicate_completions refl refl refl refl refl h
  Entry-Balanced b c (completed task_id now _) h = record {
    adds_up =
        rw
          (
            stat-hincrby-other b.stats stat_completed stat_dispatched refl,
            stat-hincrby-same b.stats stat_completed refl,
            stat-hincrby-other b.stats stat_completed stat_dead_lettered refl,
            get_counter-decr b.inflight,
          )
          (add_completed _ _ _ _ h.adds_up);
  }
  Entry-Balanced b c late h = Balanced-beside b c stat_deadline_missed refl refl refl refl refl h
  Entry-Balanced b c (retried task_id payload _) h =
      Balanced-beside b c stat_retried refl refl refl refl refl h
  Entry-Balanced b c (buried task_id now _) h = record {
    adds_up =
        rw
          (
            stat-hincrby-other b.stats stat_dead_lettered stat_dispatched refl,
            stat-hincrby-other b.stats stat_dead_lettered stat_completed refl,
            stat-hincrby-same b.stats stat_dead_lettered refl,
            get_counter-decr b.inflight,
          )
          (add_buried _ _ _ _ h.adds_up);
  }

  Entries-Balanced : {b c : Books} → Entries b c → Balanced b → Balanced c
  Entries-Balanced none_yet h = h
  Entries-Balanced (next {c} {d} es e) h = Entry-Balanced c d e (Entries-Balanced es h)

  -- The number of dispatched tasks is the number in flight, completed and dead-lettered together
  -- after any steps, if it was at the start: no delivery, retry, duplicate completion or crash
  -- makes the count of tasks in flight drift.
  pub inflight_never_drifts : (s t : Store) → Balanced (books s) → Steps s t → Balanced (books t)
  inflight_never_drifts s t h r = Entries-Balanced (steps_are_entries s t r) h
