-- ===== src/Process/Claim.antt =====
-- Reading entries and taking them back: ReadIngress, AutoClaimIngress and AutoClaim of
-- internal/broker/broker.go and Once of internal/recovery/recovery.go. What Redis replies to
-- XREADGROUP and XAUTOCLAIM is an argument: the entries with their ids, and the next cursor.
use distributed_task_queue_s.Prelude.{
  ℕ, Option, none, some, List, [], ◌∷◌, ℤ, Text, text_eq, if◌then◌else◌,
}
use distributed_task_queue_s.Env.Float.{Float64}
use distributed_task_queue_s.Env.Redis.{Redis}
use distributed_task_queue_s.Env.Codec.{Codec}
use distributed_task_queue_s.Broker.Store.{Store, ExecEntry}
use distributed_task_queue_s.Broker.Scripts.{Reply, reply}
use distributed_task_queue_s.Process.World.{World, Answer, answer, err_other, call}
use distributed_task_queue_s.Process.Calls.{IngressMessage, ack_ingress}
use distributed_task_queue_s.Process.Finish.{ExecMessage, parse_exec_message}
use distributed_task_queue_s.Process.Worker.{Clock, reclaim}

-- "0-0", where a scan starts.
abbrev pub origin : Text
origin = b'0' ∷ b'-' ∷ b'0' ∷ []

-- The cursor for the next pass: an empty one would not be valid.
unfoldable pub next_cursor : Text → Text
next_cursor cursor = if text_eq cursor [] then origin else cursor

module _ ⦃fl : Float64⦄ ⦃redis : Redis⦄ ⦃codec : Codec⦄ where
  abbrev pub ack_one : Text → Store → Store × Reply ℕ
  ack_one id s = (record s { exec = redis.xack s.exec id }, reply 0)

  unfoldable pub with_message :
      IngressMessage
      → World × List IngressMessage × Answer ℕ
      → World × List IngressMessage × Answer ℕ
  with_message m (w, out, a) = (w, m ∷ out, a)

  -- ReadIngress: the messages before the first malformed entry, which is acknowledged and reported.
  unfoldable pub read_ingress : List (Text × Text) → World → World × List IngressMessage × Answer ℕ
  unfolding ack_ingress with_message
  read_ingress [] w = (w, [], answer 0)
  read_ingress ((id, raw) ∷ msgs) w = elim (codec.unmarshal_task raw) [
    | none ↦ ((ack_ingress (id ∷ []) w).0, [], err_other)
    | some task ↦ with_message (record { id = id; task = task }) (read_ingress msgs w)
  ]

  -- AutoClaimIngress: every well formed entry; the others are acknowledged.
  unfoldable pub claim_ingress : List (Text × Text) → World → World × List IngressMessage
  unfolding ack_ingress
  claim_ingress [] w = (w, [])
  claim_ingress ((id, raw) ∷ msgs) w = elim (codec.unmarshal_task raw) [
    | none ↦ claim_ingress msgs (ack_ingress (id ∷ []) w).0
    | some task ↦
        let (w', out) = claim_ingress msgs w in (w', record { id = id; task = task } ∷ out)
  ]

  -- AutoClaim, in the same way.
  unfoldable pub claim_exec : List (Text × ExecEntry) → World → World × List ExecMessage
  unfolding call parse_exec_message
  claim_exec [] w = (w, [])
  claim_exec ((id, entry) ∷ msgs) w = elim (parse_exec_message id entry) [
    | none ↦ claim_exec msgs (call (ack_one id) w).0
    | some m ↦ let (w', out) = claim_exec msgs w in (w', m ∷ out)
  ]

  -- Once: the cursor kept for the next pass, and how many entries were handled. `none` is an
  -- error of XAUTOCLAIM.
  unfoldable pub once :
      ℕ
      → ℤ
      → Text
      → (ℕ → Clock)
      → Option (List (Text × ExecEntry) × Text)
      → Text
      → World
      → Text × World × Answer ℕ
  unfolding claim_exec reclaim next_cursor
  once max_len configured reason clock none cursor w = (cursor, w, err_other)
  once max_len configured reason clock (some (entries, next)) cursor w =
      let (w', msgs) = claim_exec entries w in
      let (w'', n, a) = reclaim max_len configured reason clock 0 msgs w' in
      (next_cursor next, w'', a)
