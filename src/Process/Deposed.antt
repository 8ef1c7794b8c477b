-- ===== src/Process/Deposed.antt =====
-- A term of internal/scheduler/engine.go that is led under an epoch which a newer leader has
-- superseded, with nobody else at work.
use distributed_task_queue_s.Prelude.{
  ℕ, Bool, true, false, Option, none, some, List, [], ◌∷◌, ℤ, if◌then◌else◌,
}
use distributed_task_queue_s.Env.Float.{Float64}
use distributed_task_queue_s.Env.Redis.{Redis}
use distributed_task_queue_s.Env.Codec.{Codec}
use distributed_task_queue_s.Policy.Interface.{Policy}
use distributed_task_queue_s.Broker.Store.{Store}
use distributed_task_queue_s.Broker.Guard.{Superseded}
use distributed_task_queue_s.Process.World.{World, Answer, answer, err_fenced, err_other}
use distributed_task_queue_s.Process.Calls.{IngressMessage}
use distributed_task_queue_s.Process.Ingest.{admit_batch}
use distributed_task_queue_s.Process.Claim.{origin, read_ingress, claim_ingress}
use distributed_task_queue_s.Process.Serve.{
  Turn, stop_fenced, idle, again, dispatch_pass, flush_state,
}
use distributed_task_queue_s.Process.Handover.{restore_state}
use distributed_task_queue_s.Process.Engine.{
  Round, ingest, reclaim, serve, flush, Serving, admit_read, ingest_read, ingest_round,
  reclaim_round, flush_round, serve_round, round, rounds_of_term, serve_loops, lead_term,
}
use distributed_task_queue_s.Process.Idle.{
  undisturbed, IsLeft, next-IsLeft, admit_batch-IsLeft, read_ingress-IsLeft, claim_ingress-IsLeft,
  flush_state-IsLeft, restore_state-IsLeft, dispatch_pass-IsLeft,
}

module _ ⦃fl : Float64⦄ ⦃redis : Redis⦄ where
  module _ ⦃codec : Codec⦄ (pol : Policy) (epoch : ℤ) where
    admit_read-IsLeft :
        (ms : List IngressMessage) (q : Serving pol epoch) (s : Store)
        → Superseded epoch s
        → IsLeft s q.world
        → IsLeft s (admit_read pol epoch ms q).0.world
    unfolding admit_read
    admit_read-IsLeft [] q s old h = h
    admit_read-IsLeft (m ∷ ms) q s old h =
        next-IsLeft epoch s q.world (λ w. (admit_batch pol (m ∷ ms) epoch q.clocks w).1) old h
          λ t old. admit_batch-IsLeft pol epoch (m ∷ ms) q.clocks t old

    ingest_read-IsLeft :
        (q : Serving pol epoch) (r : World × List IngressMessage × Answer ℕ) (s : Store)
        → Superseded epoch s
        → IsLeft s r.0
        → IsLeft s (ingest_read pol epoch q r).0.world
    unfolding ingest_read
    ingest_read-IsLeft q (w, ms, answer n) s old h =
        admit_read-IsLeft ms (record q { world = w }) s old h
    ingest_read-IsLeft q (w, ms, err_fenced) s old h = h
    ingest_read-IsLeft q (w, ms, err_other) s old h = h

    module _ (batch max_in_flight max_len : ℕ) where
      round-IsLeft :
          (r : Round) (q : Serving pol epoch) (s : Store)
          → Superseded epoch s
          → IsLeft s q.world
          → IsLeft s (round pol epoch batch max_in_flight max_len r q).0.world
      unfolding round ingest_round reclaim_round serve_round flush_round
      round-IsLeft (ingest none) q s old h = h
      round-IsLeft (ingest (some msgs)) q s old h =
          ingest_read-IsLeft q (read_ingress msgs q.world) s old (
            next-IsLeft epoch s q.world (λ w. (read_ingress msgs w).0) old h
              λ t old. read_ingress-IsLeft pol epoch msgs t)
      round-IsLeft (reclaim none) q s old h = h
      round-IsLeft (reclaim (some (msgs, next))) q s old h =
          admit_read-IsLeft (claim_ingress msgs q.world).1 _ s old (
            next-IsLeft epoch s q.world (λ w. (claim_ingress msgs w).0) old h
              λ t old. claim_ingress-IsLeft pol epoch msgs t old)
      round-IsLeft (serve now) q s old h =
          next-IsLeft epoch s q.world
            (λ w. (dispatch_pass pol batch max_in_flight now max_len epoch q.clocks w).1) old h
            λ t old. dispatch_pass-IsLeft pol epoch batch max_in_flight now max_len q.clocks t old
      round-IsLeft flush q s old h =
          next-IsLeft epoch s q.world (λ w. (flush_state pol q.clocks epoch w).0) old h
            λ t old. flush_state-IsLeft pol epoch q.clocks t old

      rounds_of_term-IsLeft :
          (rs : List Round) (q : Serving pol epoch) (s : Store)
          → Superseded epoch s
          → IsLeft s q.world
          → IsLeft s (rounds_of_term pol epoch batch max_in_flight max_len rs q).world
      unfolding rounds_of_term
      rounds_of_term-IsLeft [] q s old h = h
      rounds_of_term-IsLeft (r ∷ rs) q s old h =
          let g = round-IsLeft r q s old h in
          let x = round pol epoch batch max_in_flight max_len r q in
          by_turn x.1 x.0 g (rounds_of_term-IsLeft rs x.0 s old g)
        where
          by_turn :
              (turn : Turn) (q' : Serving pol epoch)
              → IsLeft s q'.world
              → IsLeft s (rounds_of_term pol epoch batch max_in_flight max_len rs q').world
              → IsLeft s
                  (elim turn as (λ t. Serving pol epoch) [
                    | stop_fenced ↦ record q' { fenced_out = true }
                    | idle ↦ rounds_of_term pol epoch batch max_in_flight max_len rs q'
                    | again ↦ rounds_of_term pol epoch batch max_in_flight max_len rs q'
                  ]).world
          by_turn stop_fenced q' g k = g
          by_turn idle q' g k = k
          by_turn again q' g k = k

      -- A leader that a newer one has superseded does no harm: a whole term under its epoch, with any
      -- rounds of all four loops and the final flush, undisturbed, changes nothing in the store but
      -- which ingress entries are acknowledged. It admits, dispatches and saves nothing.
      pub Superseded-lead_term :
          (rs : List Round) (p : pol.State) (s : Store)
          → Superseded epoch s
          → IsLeft s (lead_term pol epoch batch max_in_flight max_len rs p (undisturbed s)).0
      unfolding lead_term serve_loops
      Superseded-lead_term rs p s old =
          by_restored (restore_state pol p (undisturbed s)) (restore_state-IsLeft pol epoch p s)
        where
          final :
              (b : Bool) (q : Serving pol epoch)
              → IsLeft s q.world
              → IsLeft s
                  (if b
                    then q
                    else record q { world = (flush_state pol q.clocks epoch q.world).0 }).world
          final true q h = h
          final false q h =
              next-IsLeft epoch s q.world (λ w. (flush_state pol q.clocks epoch w).0) old h
                λ t old. flush_state-IsLeft pol epoch q.clocks t old

          by_restored :
              (r : World × Option pol.State)
              → IsLeft s r.0
              → IsLeft s
                  (elim r.1 as (λ o. World × Option (Serving pol epoch)) [
                    | none ↦ (r.0, none)
                    | some q ↦
                        (let x = serve_loops pol epoch batch max_in_flight max_len rs q r.0 in
                          (x.world, some x))
                  ]).0
          by_restored (w, none) h = h
          by_restored (w, some q) h =
              let start : Serving pol epoch = record {
                clocks = q;
                world = w;
                cursor = origin;
                fenced_out = false;
              } in
              let x = rounds_of_term pol epoch batch max_in_flight max_len rs start in
              final x.fenced_out x (rounds_of_term-IsLeft rs start s old h)
