-- ===== src/Process/Replay.antt =====
-- internal/workload/producer.go: CheckCollisions, and Submit, which replays a plan onto the ingress
-- stream. What the clock reads is an argument: per task, the time left when its turn comes and the
-- time of its submission. A cancelled sleep ends the replay; log lines are left out.
use distributed_task_queue_s.Prelude.{
  ℕ, zero, suc, ◌+◌, Bool, true, false, List, [], ◌∷◌, ◌++◌, ◌&&◌, not, length, leb, ℤ, pos, ◌+ℤ◌,
  ltb_ℤ, Text, if◌then◌else◌,
}
use distributed_task_queue_s.Domain.Time.{Time, sub, zero_time}
use distributed_task_queue_s.Domain.Task.{Task}
use distributed_task_queue_s.Env.Float.{Float64}
use distributed_task_queue_s.Env.Redis.{Redis}
use distributed_task_queue_s.Env.Codec.{Codec}
use distributed_task_queue_s.Lease.Options.{part}
use distributed_task_queue_s.Workload.{Spec, task_at}
use distributed_task_queue_s.Process.World.{World, Answer, answer, err_fenced, err_other}
use distributed_task_queue_s.Process.Calls.{known}
use distributed_task_queue_s.Process.Submit.{submit_batch}

pub record SubmitStats : Type 0 where
  pub submitted : ℕ
  pub start : Time
  pub end : Time
  pub max_lag : ℤ
  pub mean_lag : ℤ

-- What the clock shows for one task: whether it is not due yet, whether the sleep until then is cut
-- short, and when the task is submitted.
pub record Tick : Type 0 where
  pub early : Bool
  pub cut_short : Bool
  pub now : Time

abbrev pub spec_ids : List Spec → List Text
spec_ids [] = []
spec_ids (s ∷ specs) = s.id ∷ spec_ids specs

-- NewProducer's batch size.
unfoldable pub batch_size : ℤ → ℕ
batch_size (pos zero) = 64
batch_size (pos (suc n)) = suc n
batch_size n = 64

module _ ⦃fl : Float64⦄ ⦃redis : Redis⦄ where
  -- CheckCollisions, by its chunks of task ids: the count so far and the error, if any.
  unfoldable pub check_collisions : ℕ → List (List Spec) → World → World × ℕ × Answer ℕ
  unfolding known
  check_collisions collisions [] w = (w, collisions, answer collisions)
  check_collisions collisions (chunk ∷ chunks) w =
      let (w', a) = known (spec_ids chunk) w in
      elim a [
        | answer ids ↦ check_collisions (collisions + length ids) chunks w'
        | err_fenced ↦ (w', collisions, err_fenced)
        | err_other ↦ (w', collisions, err_other)
      ]

  module _ ⦃codec : Codec⦄ (max_len batch_limit : ℕ) where
    -- Where a replay stands: the tasks that wait to be sent, how many were sent, and the lags.
    pub record Replay : Type 0 where
      pub world : World
      pub batch : List Task
      pub submitted : ℕ
      pub max_lag : ℤ
      pub total_lag : ℤ

    -- `flush`; `none` goes on with the replay.
    unfoldable pub flush_batch : Replay → Replay × Bool
    unfolding submit_batch
    flush_batch r = elim r.batch [
      | [] ↦ (r, true)
      | t ∷ ts ↦
          let (w, a) = submit_batch max_len (t ∷ ts) r.world in
          elim a [
            | answer n ↦ (
              record r { world = w; batch = []; submitted = r.submitted + length (t ∷ ts) },
              true,
            )
            | err_fenced ↦ (record r { world = w }, false)
            | err_other ↦ (record r { world = w }, false)
          ]
    ]

    -- A task joins the batch.
    unfoldable pub enqueue : Time → Spec → Time → Replay → Replay
    unfolding task_at sub
    enqueue start spec now r =
        let late = sub now (start +ℤ spec.offset) in
        let lag = if ltb_ℤ late (pos 0) then pos 0 else late in
        record r {
          batch = r.batch ++ task_at spec now ∷ [];
          max_lag = if ltb_ℤ r.max_lag lag then lag else r.max_lag;
          total_lag = r.total_lag +ℤ lag;
        }

    -- Flushes first if a wait is due; false if the replay ends here.
    unfoldable pub pace : Tick → Replay → Replay × Bool
    unfolding flush_batch
    pace tick r =
        let (r', sent) = flush_batch r in
        if tick.early then (r', sent && not tick.cut_short) else (r, true)

    -- Flushes a full batch.
    unfoldable pub flush_full : Replay → Replay × Bool
    unfolding flush_batch
    flush_full r = if leb batch_limit (length r.batch) then flush_batch r else (r, true)

    -- The loop of Submit and the last flush. Beyond the ticks given the replay stands still.
    unfoldable pub replay : Time → List Spec → List Tick → Replay → Replay × Bool
    unfolding pace enqueue flush_full flush_batch
    replay start [] ticks r = flush_batch r
    replay start (s ∷ specs) [] r = (r, false)
    replay start (s ∷ specs) (t ∷ ticks) r =
        let (r1, on) = pace t r in
        let (r2, sent) = flush_full (enqueue start s t.now r1) in
        let rest = replay start specs ticks r2 in
        if not on then (r1, false) else if not sent then (r2, false) else rest

    -- A failed replay has neither an end nor a mean lag.
    unfoldable pub stats_after : Time → Time → ℕ → Bool → Replay → SubmitStats
    unfolding part
    stats_after start end planned done r = record {
      submitted = r.submitted;
      start = start;
      end = if done then end else zero_time;
      max_lag = r.max_lag;
      mean_lag = if done then part r.total_lag planned else pos 0;
    }

    -- Submit: the statistics, and whether it succeeded.
    unfoldable pub submit_plan :
        Time → Time → List Spec → List Tick → World → World × SubmitStats × Bool
    unfolding replay stats_after
    submit_plan start end [] ticks w = (
      w,
      record { submitted = 0; start = start; end = start; max_lag = pos 0; mean_lag = pos 0 },
      true,
    )
    submit_plan start end (s ∷ specs) ticks w =
        let (r, done) =
          replay start (s ∷ specs) ticks
            (record { world = w; batch = []; submitted = 0; max_lag = pos 0; total_lag = pos 0 }) in
        (r.world, stats_after start end (length (s ∷ specs)) done r, done)
