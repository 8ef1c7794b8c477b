-- ===== src/Process/Precheck.antt =====
-- What Known of internal/broker/broker.go says, read while others write.
use distributed_task_queue_s.Prelude.{
  ◌≡◌, refl, ◌⊎◌, inl, inr, true, List, [], ◌∷◌, ◌++◌, Text, text_eq_iff, is_some, arith,
}
use distributed_task_queue_s.Env.Float.{Float64}
use distributed_task_queue_s.Env.Redis.{Redis}
use distributed_task_queue_s.Broker.Store.{Store}
use distributed_task_queue_s.Broker.Scripts.{Reply, reply}
use distributed_task_queue_s.System.Steps.{Steps, done, Steps-trans}
use distributed_task_queue_s.System.Books.{books}
use distributed_task_queue_s.System.Once.{Known, Steps-Known}
use distributed_task_queue_s.Process.World.{
  World, Answer, answer, err_fenced, err_other, answer_of, call, call_cases,
}
use distributed_task_queue_s.Process.Calls.{
  has, fields_of, read_payloads, read_done, either_known, known,
}
use distributed_task_queue_s.Process.Ingest.{or_empty}

has-append :
    (id : Text) (p d : List Text) → has id (p ++ d) ≡ true → (has id p ≡ true) ⊎ (has id d ≡ true)
unfolding has
has-append id [] d e = inr e
has-append id (j ∷ p) d e = ground (arith, has-append id p d)

module _ ⦃fl : Float64⦄ ⦃redis : Redis⦄ where
  fields_of-hget :
      {V : Type 0} (h : redis.Hash V) (ids : List Text) (id : Text)
      → has id (fields_of h ids) ≡ true
      → is_some (redis.hget h id) ≡ true
  unfolding has fields_of
  fields_of-hget h [] id e = cc
  fields_of-hget h (j ∷ ids) id e = ground (arith, fields_of-hget h ids id, text_eq_iff j id)

  -- What an answer claims to be known is known.
  abbrev pub Truthful : World × Answer (List Text) → Type 0
  Truthful r = (id : Text) → has id (or_empty r.1) ≡ true → Known (books r.0.store) id

  either_known-Truthful :
      (p d : Answer (List Text)) (w w' : World)
      → Steps w.store w'.store
      → Truthful (w, p)
      → Truthful (w', d)
      → Truthful (w', either_known p d)
  unfolding or_empty either_known has
  either_known-Truthful (answer p) (answer d) w w' r hp hd id e = elim (has-append id p d e) [
    | inl f ↦ Steps-Known w.store w'.store id r (hp id f)
    | inr f ↦ hd id f
  ]
  either_known-Truthful (answer p) err_fenced w w' r hp hd id e = cc
  either_known-Truthful (answer p) err_other w w' r hp hd id e = cc
  either_known-Truthful err_fenced d w w' r hp hd id e = cc
  either_known-Truthful err_other d w w' r hp hd id e = cc

  -- A call that only reads, and reads the truth.
  pub record Reads (w : World) (r : World × Answer (List Text)) : Type 0 where
    pub steps : Steps w.store r.0.store
    pub truth : Truthful r

  read-Reads :
      (script : Store → Store × Reply (List Text)) (ids : Store → List Text) (w : World)
      → ((s : Store) → script s ≡ (s, reply (ids s)))
      → ((s : Store) (id : Text) → has id (ids s) ≡ true → Known (books s) id)
      → Reads w (call script w)
  unfolding or_empty answer_of has
  read-Reads script ids w same truth =
      call_cases (Reads w) script w (λ s ts r. record { steps = r; truth = λ id h. cc })
        (λ s ts r. rw (same s) (record { steps = r; truth = λ id h. cc }))
        λ s ts r. rw (same s) (record { steps = r; truth = λ id h. truth s id h })

  pub known-Reads : (ids : List Text) (w : World) → Reads w (known ids w)
  unfolding known or_empty has
  known-Reads [] w = record { steps = done; truth = λ id h. cc }
  known-Reads (i ∷ ids) w =
      let ps =
        read-Reads (read_payloads (i ∷ ids)) (λ s. fields_of s.payloads (i ∷ ids)) w (λ s. refl)
          (λ s id h. inl (fields_of-hget s.payloads (i ∷ ids) id h)) in
      let (w', p) = call (read_payloads (i ∷ ids)) w in
      let ds =
        read-Reads (read_done (i ∷ ids)) (λ s. fields_of s.done (i ∷ ids)) w' (λ s. refl)
          (λ s id h. inr (fields_of-hget s.done (i ∷ ids) id h)) in
      let (w'', d) = call (read_done (i ∷ ids)) w' in
      record {
        steps = Steps-trans ps.steps ds.steps;
        truth = either_known-Truthful p d w' w'' ds.steps ps.truth ds.truth;
      }
