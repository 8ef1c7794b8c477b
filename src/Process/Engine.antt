-- ===== src/Process/Engine.antt =====
-- A leadership term of internal/scheduler/engine.go: a round of ingestLoop, of reclaimIngressLoop and
-- of observeLoop, serveLoops, leadTerm and the part of Run that needs no lease. The loops share the
-- policy and the store; their rounds are taken one after another, in any order. What Redis replies
-- to a read is an argument, `none` for an error. Gauges and log lines are left out.
use distributed_task_queue_s.Prelude.{
  ℕ, Bool, true, false, Option, none, some, List, [], ◌∷◌, ℤ, pos, Text, if◌then◌else◌,
}
use distributed_task_queue_s.Domain.Time.{Time}
use distributed_task_queue_s.Env.Float.{Float64}
use distributed_task_queue_s.Env.Redis.{Redis}
use distributed_task_queue_s.Env.Codec.{Codec}
use distributed_task_queue_s.Policy.Interface.{Policy}
use distributed_task_queue_s.Lease.Campaign.{Leadership, set_leadership}
use distributed_task_queue_s.Process.World.{World, Answer, answer, err_fenced, err_other}
use distributed_task_queue_s.Process.Calls.{IngressMessage}
use distributed_task_queue_s.Process.Ingest.{admit_batch}
use distributed_task_queue_s.Process.Serve.{
  Turn, stop_fenced, idle, again, flush_state, dispatch_pass,
}
use distributed_task_queue_s.Process.Handover.{restore_state}
use distributed_task_queue_s.Process.Claim.{origin, next_cursor, read_ingress, claim_ingress}

-- A round of one of the four loops, with what it reads.
pub data Round : Type 0 where
  ingest : Option (List (Text × Text)) → Round
  reclaim : Option (List (Text × Text) × Text) → Round
  serve : Time → Round
  flush : Round

-- Whether a loop goes on: an error that is no fence is logged.
abbrev pub turn_of {ℓ} : {A : Type ℓ} → Answer A → Turn
turn_of (answer a) = again
turn_of err_fenced = stop_fenced
turn_of err_other = again

module _ ⦃fl : Float64⦄ ⦃redis : Redis⦄ ⦃codec : Codec⦄ (pol : Policy) (epoch : ℤ) where
  -- The policy, the store, the cursor of the reclaim loop, and whether a loop was refused.
  pub record Serving : Type 0 where
    pub clocks : pol.State
    pub world : World
    pub cursor : Text
    pub fenced_out : Bool

  -- admitBatch on what a loop has read, if anything.
  unfoldable pub admit_read : List IngressMessage → Serving → Serving × Turn
  unfolding admit_batch
  admit_read [] s = (s, again)
  admit_read (m ∷ ms) s =
      let (p, w, a) = admit_batch pol (m ∷ ms) epoch s.clocks s.world in
      (record s { clocks = p; world = w }, turn_of a)

  -- A read that fails after some messages drops them: they stay unacknowledged.
  unfoldable pub ingest_read : Serving → World × List IngressMessage × Answer ℕ → Serving × Turn
  unfolding admit_read
  ingest_read s (w, msgs, answer n) = admit_read msgs (record s { world = w })
  ingest_read s (w, msgs, err_fenced) = (record s { world = w }, idle)
  ingest_read s (w, msgs, err_other) = (record s { world = w }, idle)

  unfoldable pub ingest_round : Option (List (Text × Text)) → Serving → Serving × Turn
  unfolding read_ingress ingest_read
  ingest_round none s = (s, idle)
  ingest_round (some msgs) s = ingest_read s (read_ingress msgs s.world)

  -- The cursor is kept between rounds.
  unfoldable pub reclaim_round : Option (List (Text × Text) × Text) → Serving → Serving × Turn
  unfolding claim_ingress next_cursor admit_read
  reclaim_round none s = (s, idle)
  reclaim_round (some (entries, next)) s =
      let (w, msgs) = claim_ingress entries s.world in
      admit_read msgs (record s { world = w; cursor = next_cursor next })

  unfoldable pub flush_round : Serving → Serving × Turn
  unfolding flush_state
  flush_round s =
      let (w, a) = flush_state pol s.clocks epoch s.world in (record s { world = w }, turn_of a)

  module _ (batch max_in_flight max_len : ℕ) where
    unfoldable pub serve_round : Time → Serving → Serving × Turn
    unfolding dispatch_pass
    serve_round now s =
        let (p, w, t) = dispatch_pass pol batch max_in_flight now max_len epoch s.clocks s.world in
        (record s { clocks = p; world = w }, t)

    unfoldable pub round : Round → Serving → Serving × Turn
    unfolding ingest_round reclaim_round serve_round flush_round
    round (ingest msgs) s = ingest_round msgs s
    round (reclaim claimed) s = reclaim_round claimed s
    round (serve now) s = serve_round now s
    round flush s = flush_round s

    -- The rounds until the context ends; a refusal demotes, and no further round starts.
    unfoldable pub rounds_of_term : List Round → Serving → Serving
    unfolding round
    rounds_of_term [] s = s
    rounds_of_term (r ∷ rs) s =
        let (s', turn) = round r s in
        let rest = rounds_of_term rs s' in
        elim turn [ stop_fenced ↦ record s' { fenced_out = true } | idle ↦ rest | again ↦ rest ]

    -- The final flush, whose error is only logged, is left out after a refusal.
    unfoldable pub serve_loops : List Round → pol.State → World → Serving
    unfolding rounds_of_term flush_state
    serve_loops rs p w =
        let s =
          rounds_of_term rs
            (record { clocks = p; world = w; cursor = origin; fenced_out = false }) in
        if s.fenced_out then s else record s { world = (flush_state pol s.clocks epoch s.world).0 }

    -- The error of restoreState, or what the loops leave behind.
    unfoldable pub lead_term : List Round → pol.State → World → World × Option Serving
    unfolding restore_state serve_loops
    lead_term rs p w =
        let (w', restored) = restore_state pol p w in
        elim restored [
          | none ↦ (w', none)
          | some q ↦ (let s = serve_loops rs q w' in (s.world, some s))
        ]

    -- Run without a lease, once the streams exist: it leads under NoEpoch until its loops return.
    unfoldable pub run_alone :
        List Round → pol.State → World → Leadership → World × Option Serving × Leadership
    unfolding lead_term set_leadership
    run_alone rs p w shown =
        let (w', served) = lead_term rs p w in
        elim served [
          | none ↦ (w', none, shown)
          | some s ↦
              (w', some s, set_leadership (false, pos 0) (set_leadership (true, pos 0) shown))
        ]
