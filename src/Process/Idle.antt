-- ===== src/Process/Idle.antt =====
-- What the calls of internal/scheduler/engine.go leave behind under an epoch that a newer leader has
-- superseded, with nobody else at work.
use distributed_task_queue_s.Prelude.{
  ℕ, ◌≡◌, refl, sym, subst, ◌∙◌, inl, inr, Bool, Bool-cases, Option-cases, some, List, [], ◌∷◌, ℤ,
  Text,
}
use distributed_task_queue_s.Domain.Time.{Time, unix_milli}
use distributed_task_queue_s.Domain.Task.{Task, validate, submitted_at_millis}
use distributed_task_queue_s.Env.Float.{Float64}
use distributed_task_queue_s.Env.Redis.{Redis}
use distributed_task_queue_s.Env.Codec.{Codec}
use distributed_task_queue_s.Policy.Key.{Key}
use distributed_task_queue_s.Policy.Interface.{Policy}
use distributed_task_queue_s.Broker.Store.{Store}
use distributed_task_queue_s.Broker.Guard.{Superseded}
use distributed_task_queue_s.System.Steps.{done}
use distributed_task_queue_s.System.Fencing.{Superseded-stays_out}
use distributed_task_queue_s.Process.World.{
  World, Answer, answer, err_fenced, err_other, answer_of, call,
}
use distributed_task_queue_s.Process.Calls.{IngressMessage, has, known, admit, ack_all, ack_ingress}
use distributed_task_queue_s.Process.Ingest.{
  Intake, push_ack, task_ids, or_empty, admit_loop, take_in, admit_batch,
}
use distributed_task_queue_s.Process.Claim.{with_message, read_ingress, claim_ingress}
use distributed_task_queue_s.Process.Serve.{
  parsed, dispatch, after_dispatch, dispatch_pass, save_scheduler_state, flush_state,
}
use distributed_task_queue_s.Process.Handover.{restore_state, restore_loaded, load_scheduler_state}

module _ ⦃fl : Float64⦄ ⦃redis : Redis⦄ where
  open redis use {Stream, entries}

  -- A world in which nobody else moves and no call is lost.
  abbrev pub undisturbed : Store → World
  undisturbed s = record { store = s; trips = [] }

  -- The store `s` with other acknowledgements of ingress entries, and nothing else.
  abbrev pub IsLeft : Store → World → Type 0
  IsLeft s w =
      (i : Stream Text) × (w ≡ undisturbed (record s { ingress = i }))
      × (entries i ≡ entries s.ingress)

  same : (s : Store) → IsLeft s (undisturbed s)
  same s = (s.ingress, refl, refl)

  -- One thing after the other, under a superseded epoch.
  pub next-IsLeft :
      (epoch : ℤ) (s : Store) (w : World) (f : World → World)
      → Superseded epoch s
      → IsLeft s w
      → ((t : Store) → Superseded epoch t → IsLeft t (f (undisturbed t)))
      → IsLeft s (f w)
  next-IsLeft epoch s w f old (i, e, k) h =
      subst (λ w. IsLeft s (f w)) (sym e)
        (let (j, e', k') = h (record s { ingress = i }) old in (j, e', k' ∙ k))

  ack_all-IsLeft : (ids : List Text) (s : Store) → IsLeft s (undisturbed (ack_all ids s))
  unfolding ack_all
  ack_all-IsLeft [] s = same s
  ack_all-IsLeft (id ∷ ids) s =
      let (i, e, k) = ack_all-IsLeft ids (record s { ingress = redis.xack s.ingress id }) in
      (i, e, k ∙ redis.entries-xack s.ingress id)

  ack_ingress-IsLeft : (ids : List Text) (s : Store) → IsLeft s (ack_ingress ids (undisturbed s)).0
  unfolding ack_ingress call
  ack_ingress-IsLeft [] s = same s
  ack_ingress-IsLeft (id ∷ ids) s = ack_all-IsLeft (id ∷ ids) s

  known_same : (ids : List Text) (s : Store) → (known ids (undisturbed s)).0 ≡ undisturbed s
  unfolding known call
  known_same [] s = refl
  known_same (id ∷ ids) s = refl

  module _ ⦃codec : Codec⦄ (pol : Policy) (epoch : ℤ) where
    admit_same :
        (t : Task) (key : Key) (s : Store)
        → Superseded epoch s
        → (admit t key epoch (undisturbed s)).0 ≡ undisturbed s
    unfolding admit call
    admit_same t key s old = elim (Option-cases (codec.marshal_task t)) [
      | inl e ↦ rw (admit, e) refl
      | inr (payload, e) ↦
          rw
            (
              admit,
              e,
              (Superseded-stays_out s s epoch old done).0 t.id key (submitted_at_millis t) payload,
            )
            refl
    ]

    admit_loop_same :
        (seen : List Text) (ms : List IngressMessage) (p : pol.State) (s : Store)
        → Superseded epoch s
        → (admit_loop pol seen epoch ms p (undisturbed s)).world ≡ undisturbed s
    unfolding admit_loop push_ack
    admit_loop_same seen [] p s old = refl
    admit_loop_same seen (m ∷ ms) p s old = elim (Bool-cases (has m.task.id seen)) [
      | inl e ↦ rw (admit_loop, e) (admit_loop_same seen ms p s old)
      | inr e ↦ elim (Option-cases (validate m.task)) [
        | inr (why, f) ↦ rw (admit_loop, e, f) (admit_loop_same seen ms p s old)
        | inl f ↦
            let (key, p') = pol.rank p m.task in
            rw (admit_loop, e, f)
              (by_answer p' (admit m.task key epoch (undisturbed s)) (admit_same m.task key s old)
                λ q. admit_loop_same seen ms q s old)
      ]
    ]
      where
        by_answer :
            (p' : pol.State) (a : World × Answer Bool)
            → a.0 ≡ undisturbed s
            → ((q : pol.State)
                → (admit_loop pol seen epoch ms q (undisturbed s)).world ≡ undisturbed s)
            → (elim a.1 as (λ b. Intake pol) [
              | answer b ↦ push_ack pol m.id (admit_loop pol seen epoch ms p' a.0)
              | err_fenced ↦ record { clocks = p'; world = a.0; acks = []; error = some err_fenced }
              | err_other ↦ record { clocks = p'; world = a.0; acks = []; error = some err_other }
            ]).world
              ≡ undisturbed s
        by_answer p' (w, answer b) h ih = rw h (ih p')
        by_answer p' (w, err_fenced) h ih = h
        by_answer p' (w, err_other) h ih = h

    pub admit_batch-IsLeft :
        (ms : List IngressMessage) (p : pol.State) (s : Store)
        → Superseded epoch s
        → IsLeft s (admit_batch pol ms epoch p (undisturbed s)).1
    unfolding admit_batch take_in
    admit_batch-IsLeft ms p s old =
        let k = known (task_ids ms) (undisturbed s) in
        let r = admit_loop pol (or_empty k.1) epoch ms p k.0 in
        let kept : r.world ≡ undisturbed s =
          subst (λ w. (admit_loop pol (or_empty k.1) epoch ms p w).world ≡ undisturbed s)
            (sym (known_same (task_ids ms) s)) (admit_loop_same (or_empty k.1) ms p s old) in
        subst (λ w. IsLeft s (ack_ingress r.acks w).0) (sym kept) (ack_ingress-IsLeft r.acks s)

    pub read_ingress-IsLeft :
        (msgs : List (Text × Text)) (s : Store) → IsLeft s (read_ingress msgs (undisturbed s)).0
    unfolding read_ingress with_message
    read_ingress-IsLeft [] s = same s
    read_ingress-IsLeft ((id, raw) ∷ msgs) s = elim (Option-cases (codec.unmarshal_task raw)) [
      | inl e ↦ rw (read_ingress, e) (ack_ingress-IsLeft (id ∷ []) s)
      | inr (task, e) ↦ rw (read_ingress, e) (read_ingress-IsLeft msgs s)
    ]

    pub claim_ingress-IsLeft :
        (msgs : List (Text × Text)) (s : Store)
        → Superseded epoch s
        → IsLeft s (claim_ingress msgs (undisturbed s)).0
    unfolding claim_ingress
    claim_ingress-IsLeft [] s old = same s
    claim_ingress-IsLeft ((id, raw) ∷ msgs) s old = elim (Option-cases (codec.unmarshal_task raw)) [
      | inl e ↦
          rw (claim_ingress, e)
            (next-IsLeft epoch s (ack_ingress (id ∷ []) (undisturbed s)).0
              (λ w. (claim_ingress msgs w).0) old (ack_ingress-IsLeft (id ∷ []) s)
              λ t h. claim_ingress-IsLeft msgs t h)
      | inr (task, e) ↦ rw (claim_ingress, e) (claim_ingress-IsLeft msgs s old)
    ]

    pub flush_state-IsLeft :
        (p : pol.State) (s : Store)
        → Superseded epoch s
        → IsLeft s (flush_state pol p epoch (undisturbed s)).0
    unfolding flush_state save_scheduler_state call
    flush_state-IsLeft p s old = saved (pol.state p)
      where
        saved :
            (state : List (Text × Text))
            → IsLeft s (save_scheduler_state state epoch (undisturbed s)).0
        saved [] = same s
        saved (e ∷ state) = rw ((Superseded-stays_out s s epoch old done).2 (e ∷ state)) (same s)

    pub restore_state-IsLeft :
        (p : pol.State) (s : Store) → IsLeft s (restore_state pol p (undisturbed s)).0
    unfolding restore_state restore_loaded load_scheduler_state call answer_of
    restore_state-IsLeft p s = restored (redis.hgetall s.sched_state)
      where
        restored :
            (es : List (Text × Text))
            → IsLeft s (restore_loaded pol p (undisturbed s) (answer es)).0
        restored [] = same s
        restored (e ∷ es) = same s

    pub dispatch_pass-IsLeft :
        (batch limit : ℕ) (now : Time) (max_len : ℕ) (p : pol.State) (s : Store)
        → Superseded epoch s
        → IsLeft s (dispatch_pass pol batch limit now max_len epoch p (undisturbed s)).1
    unfolding dispatch_pass dispatch after_dispatch parsed answer_of call
    dispatch_pass-IsLeft batch limit now max_len p s old =
        rw ((Superseded-stays_out s s epoch old done).1 batch limit (unix_milli now) max_len)
          (same s)
