-- ===== src/Process/Replayed.antt =====
-- A replay by Submit of internal/workload/producer.go that nothing disturbs.
use distributed_task_queue_s.Prelude.{
  ℕ, ◌≤◌, ◌≡◌, refl, sym, ap, subst, ◌∙◌, inl, inr, Bool, true, false, Bool-cases, List, [], ◌∷◌,
  ◌++◌, map, append-nil, append_assoc, length, length-append, leb, All, All-append, pos, Text,
  arith,
}
use distributed_task_queue_s.Domain.Time.{Time}
use distributed_task_queue_s.Domain.Task.{Task}
use distributed_task_queue_s.Env.Float.{Float64}
use distributed_task_queue_s.Env.Redis.{Redis}
use distributed_task_queue_s.Env.Codec.{Codec}
use distributed_task_queue_s.Broker.Store.{Store}
use distributed_task_queue_s.Workload.{Spec, task_at}
use distributed_task_queue_s.Process.World.{World}
use distributed_task_queue_s.Process.Replay.{
  SubmitStats, Tick, Replay, flush_batch, enqueue, pace, flush_full, replay, stats_after,
  submit_plan,
}
use distributed_task_queue_s.Process.Flushed.{Marshals, written, Sent, Flushed, flush_batch-Flushed}

-- The tasks of a plan, with the times at which the clock lets them go.
unfoldable pub planned : List Spec → List Tick → List Task
planned [] ticks = []
planned (s ∷ specs) [] = []
planned (s ∷ specs) (t ∷ ticks) = task_at s t.now ∷ planned specs ticks

module _ ⦃fl : Float64⦄ ⦃redis : Redis⦄ ⦃codec : Codec⦄ where
  open redis use {entries}

  module _ (limit : ℕ) (base : List Text) where
    map-append : (xs ys : List Task) → map written (xs ++ ys) ≡ map written xs ++ map written ys
    map-append [] ys = refl
    map-append (x ∷ xs) ys = ap (λ l. written x ∷ l) (map-append xs ys)

    enqueue-Sent :
        (start : Time) (s : Spec) (now : Time) (ts : List Task) (r : Replay 0 limit)
        → Marshals (task_at s now)
        → Sent limit base ts r
        → Sent limit base (ts ++ task_at s now ∷ []) (enqueue 0 limit start s now r)
    unfolding enqueue
    enqueue-Sent start s now ts r m h = record {
      quiet = h.quiet;
      stream =
          let new = written (task_at s now) ∷ [] in
          ap (λ l. entries r.world.store.ingress ++ l) (map-append r.batch (task_at s now ∷ []))
          ∙ sym (append_assoc (entries r.world.store.ingress) (map written r.batch) new)
          ∙ ap (λ l. l ++ new) h.stream
          ∙ append_assoc base (map written ts) new
          ∙ ap (λ l. base ++ l) (sym (map-append ts (task_at s now ∷ [])));
      count = omega (
        arith,
        h.count,
        length-append r.batch (task_at s now ∷ []),
        length-append ts (task_at s now ∷ []),
      );
      marshals = All-append Marshals r.batch (task_at s now ∷ []) h.marshals (m, tt);
    }

    -- The replay goes on, and nothing is missing.
    record GoesOn (ts : List Task) (a : Replay 0 limit × Bool) : Type 0 where
      goes_on : a.1 ≡ true
      sent : Sent limit base ts a.0

    pace-GoesOn :
        (ts : List Task) (tick : Tick) (r : Replay 0 limit)
        → tick.cut_short ≡ false
        → Sent limit base ts r
        → GoesOn ts (pace 0 limit tick r)
    unfolding pace
    pace-GoesOn ts tick r c h =
        let f = flush_batch-Flushed limit base ts r h in
        elim (Bool-cases tick.early) [
          | inl e ↦ rw (e, c) (record { goes_on = rw f.goes_on refl; sent = f.sent })
          | inr e ↦ rw e (record { goes_on = refl; sent = h })
        ]

    flush_full-GoesOn :
        (ts : List Task) (r : Replay 0 limit)
        → Sent limit base ts r
        → GoesOn ts (flush_full 0 limit r)
    unfolding flush_full
    flush_full-GoesOn ts r h =
        let f = flush_batch-Flushed limit base ts r h in
        elim (Bool-cases (leb limit (length r.batch))) [
          | inl e ↦ rw e (record { goes_on = f.goes_on; sent = f.sent })
          | inr e ↦ rw e (record { goes_on = refl; sent = h })
        ]

    replay-Flushed :
        (start : Time) (specs : List Spec) (ticks : List Tick) (ts : List Task) (r : Replay 0 limit)
        → length specs ≤ length ticks
        → All (λ t. t.cut_short ≡ false) ticks
        → All Marshals (planned specs ticks)
        → Sent limit base ts r
        → Flushed limit base (ts ++ planned specs ticks) (replay 0 limit start specs ticks r)
    unfolding replay planned
    replay-Flushed start [] ticks ts r l c m h =
        subst (λ us. Flushed limit base us (flush_batch 0 limit r)) (sym (append-nil ts))
          (flush_batch-Flushed limit base ts r h)
    replay-Flushed start (s ∷ specs) [] ts r l c m h = absurd (omega (arith, l))
    replay-Flushed start (s ∷ specs) (t ∷ ticks) ts r l c m h =
        let p = pace-GoesOn ts t r c.0 h in
        let q =
          flush_full-GoesOn (ts ++ task_at s t.now ∷ []) _
            (enqueue-Sent start s t.now ts (pace 0 limit t r).0 m.0 p.sent) in
        let rest =
          replay-Flushed start specs ticks (ts ++ task_at s t.now ∷ []) _ (omega (arith, l)) c.1 m.1
            q.sent in
        rw (p.goes_on, q.goes_on)
          (subst
            (λ us. Flushed limit base us (
              replay 0 limit start specs ticks
                (flush_full 0 limit (enqueue 0 limit start s t.now (pace 0 limit t r).0)).0))
            (append_assoc ts (task_at s t.now ∷ []) (planned specs ticks)) rest)

    Flushed-stream :
        (ts : List Task) (a : Replay 0 limit × Bool)
        → Flushed limit base ts a
        → entries a.0.world.store.ingress ≡ base ++ map written ts
    Flushed-stream ts a f =
        let sent = entries a.0.world.store.ingress in
        sym (append-nil sent) ∙ ap (λ b. sent ++ map written b) (sym f.empty) ∙ f.sent.stream

    Flushed-count :
        (ts : List Task) (a : Replay 0 limit × Bool)
        → Flushed limit base ts a
        → a.0.submitted ≡ length ts
    Flushed-count ts a f = omega (arith, f.sent.count, ap length f.empty)

  -- The whole plan is on the stream, in its order, behind what was there.
  pub record Replayed (specs : List Spec) (ticks : List Tick) (s : Store)
      (a : World × SubmitStats × Bool) : Type 0 where
    pub succeeds : a.2 ≡ true
    pub stream : entries a.0.store.ingress ≡ entries s.ingress ++ map written (planned specs ticks)
    pub submitted : a.1.submitted ≡ length (planned specs ticks)

  -- A replay that nothing disturbs, on a stream that is not trimmed, is complete: whatever the batch
  -- size and the pace of the clock, if no sleep is cut short and every task marshals, Submit
  -- succeeds, the ingress stream gains exactly the plan's tasks in the plan's order, and the
  -- statistics count them all.
  pub submit_plan-Replayed :
      (limit : ℕ) (start end : Time) (specs : List Spec) (ticks : List Tick) (s : Store)
      → length specs ≤ length ticks
      → All (λ t. t.cut_short ≡ false) ticks
      → All Marshals (planned specs ticks)
      → Replayed specs ticks s
          (submit_plan 0 limit start end specs ticks (record { store = s; trips = [] }))
  unfolding submit_plan stats_after planned
  submit_plan-Replayed limit start end [] ticks s l c m = record {
    succeeds = refl;
    stream = sym (append-nil (entries s.ingress));
    submitted = refl;
  }
  submit_plan-Replayed limit start end (p ∷ specs) ticks s l c m =
      let f =
        replay-Flushed limit (entries s.ingress) start (p ∷ specs) ticks []
          (record {
            world = record { store = s; trips = [] };
            batch = [];
            submitted = 0;
            max_lag = pos 0;
            total_lag = pos 0;
          })
          l c m (record { quiet = refl; stream = refl; count = refl; marshals = tt }) in
      record {
        succeeds = f.goes_on;
        stream = Flushed-stream limit (entries s.ingress) _ _ f;
        submitted = Flushed-count limit (entries s.ingress) _ _ f;
      }
