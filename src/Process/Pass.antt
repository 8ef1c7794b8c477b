-- ===== src/Process/Pass.antt =====
-- A whole recovery pass, Once of internal/recovery/recovery.go.
use distributed_task_queue_s.Prelude.{
  ℕ, ◌≡◌, refl, ap, subst, inl, inr, none, some, Option-cases, List, [], ◌∷◌, All, length, ℤ, Text,
  arith,
}
use distributed_task_queue_s.Env.Float.{Float64}
use distributed_task_queue_s.Env.Redis.{Redis}
use distributed_task_queue_s.Env.Codec.{Codec}
use distributed_task_queue_s.Broker.Store.{ExecEntry}
use distributed_task_queue_s.System.Steps.{Steps, done, more, ack_exec, Steps-trans}
use distributed_task_queue_s.System.Books.{books}
use distributed_task_queue_s.System.Once.{Known}
use distributed_task_queue_s.Process.World.{World, Answer, answer, call, call_cases}
use distributed_task_queue_s.Process.Finish.{ExecMessage, parse_exec_message}
use distributed_task_queue_s.Process.Worker.{Clock, reclaim}
use distributed_task_queue_s.Process.Reclaim.{reclaim-Handled}
use distributed_task_queue_s.Process.Claim.{ack_one, claim_exec, once}

-- The entries that can be read, whatever happens to the store.
unfoldable pub readable : ⦃codec : Codec⦄ → List (Text × ExecEntry) → List ExecMessage
readable [] = []
readable ((id, entry) ∷ entries) = elim (parse_exec_message id entry) [
  | none ↦ readable entries
  | some m ↦ m ∷ readable entries
]

module _ ⦃fl : Float64⦄ ⦃redis : Redis⦄ ⦃codec : Codec⦄ where
  record Claimed (entries : List (Text × ExecEntry)) (w : World) (r : World × List ExecMessage)
      : Type 0 where
    steps : Steps w.store r.0.store
    out : r.1 ≡ readable entries

  ack_one-Steps : (id : Text) (w : World) → Steps w.store (call (ack_one id) w).0.store
  ack_one-Steps id w =
      call_cases (λ r. Steps w.store r.0.store) (ack_one id) w (λ s ts r. r)
        (λ s ts r. more r (ack_exec id)) λ s ts r. more r (ack_exec id)

  claim_exec-Claimed :
      (entries : List (Text × ExecEntry)) (w : World) → Claimed entries w (claim_exec entries w)
  unfolding claim_exec readable
  claim_exec-Claimed [] w = record { steps = done; out = refl }
  claim_exec-Claimed ((id, entry) ∷ entries) w = elim (Option-cases (parse_exec_message id entry)) [
    | inl e ↦
        let h = claim_exec-Claimed entries (call (ack_one id) w).0 in
        rw (e, claim_exec)
          (record {
            steps = Steps-trans (ack_one-Steps id w) h.steps;
            out = rw (e, readable) h.out;
          })
    | inr (m, e) ↦
        let h = claim_exec-Claimed entries w in
        rw (e, claim_exec)
          (record { steps = h.steps; out = rw (e, readable) (ap (λ ms. m ∷ ms) h.out) })
  ]

  -- What a pass over claimed entries leaves.
  pub record Passed (entries : List (Text × ExecEntry)) (w : World) (r : Text × World × Answer ℕ)
      : Type 0 where
    pub steps : Steps w.store r.1.store
    pub counted : (n : ℕ) → r.2 ≡ answer n → n ≡ length (readable entries)
    pub known :
        (n : ℕ) → r.2 ≡ answer n → All (λ m. Known (books r.1.store) m.task.id) (readable entries)

  -- A recovery pass moves the store by steps of the system only, whatever others do and whichever
  -- calls are lost; if it answers without an error, it has handled every claimed entry that can be
  -- read, and the broker knows the task of each: it is stored or terminal.
  pub once-Passed :
      (max_len : ℕ) (configured : ℤ) (reason : Text) (clock : ℕ → Clock)
      (entries : List (Text × ExecEntry)) (next cursor : Text) (w : World)
      → Passed entries w (once max_len configured reason clock (some (entries, next)) cursor w)
  unfolding once
  once-Passed max_len configured reason clock entries next cursor w =
      let (w', msgs) = claim_exec entries w in
      let c = claim_exec-Claimed entries w in
      let h = reclaim-Handled max_len configured reason clock 0 msgs w' in
      record {
        steps = Steps-trans c.steps h.steps;
        counted = λ n e. omega (arith, h.counted n e, ap length c.out);
        known = λ n e.
            subst
              (All (λ m.
                Known (books (reclaim max_len configured reason clock 0 msgs w').0.store)
                  m.task.id))
              c.out (h.known n e);
      }
