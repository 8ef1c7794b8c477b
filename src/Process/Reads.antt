-- ===== src/Process/Reads.antt =====
-- Methods of internal/broker/broker.go that only read: streams, gauges and the lease. What Redis
-- replies to a read of a stream is an argument, the entries with their ids.
use distributed_task_queue_s.Prelude.{
  ℕ, ◌==◌, Bool, true, false, leb, ◌+◌, Option, none, some, List, [], ◌∷◌, ◌++◌, length, ℤ, pos,
  ltb_ℤ, Text, codes, text_eq, ◌||◌, get_or, if◌then◌else◌,
}
use distributed_task_queue_s.Domain.Result.{Result, DeadLetter}
use distributed_task_queue_s.Env.Float.{Float64}
use distributed_task_queue_s.Env.Redis.{Redis}
use distributed_task_queue_s.Env.Codec.{Codec}
use distributed_task_queue_s.Broker.Store.{ExecEntry}
use distributed_task_queue_s.Broker.Scripts.{reply}
use distributed_task_queue_s.Process.World.{
  World, Answer, answer, err_fenced, err_other, map_answer, call,
}
use distributed_task_queue_s.Process.Finish.{ExecMessage, parse_exec_message}
use distributed_task_queue_s.Process.Claim.{origin}

-- Text before and after the last bar.
unfoldable pub cut_last : Text → Option (Text × Text)
cut_last [] = none
cut_last (c ∷ s) = elim (cut_last s) [
  | some (before, behind) ↦ some (c ∷ before, behind)
  | none ↦ if c == b'|' then some ([], s) else none
]

-- Who holds the lease.
pub record Holder : Type 0 where
  pub owner : Text
  pub epoch : ℤ
  pub ttl : ℤ

-- `parse_int` is the value that strconv.ParseInt returns, its error ignored. A value without a bar
-- names the owner only.
unfoldable pub split_holder : (Text → ℤ) → Text → Text × ℤ
unfolding cut_last
split_holder parse_int val = elim (cut_last val) [
  | none ↦ (val, pos 0)
  | some (owner, epoch) ↦ (owner, parse_int epoch)
]

-- The id from which a scan goes on.
unfoldable pub exclusive : Text → Text
exclusive id =
    if text_eq id [] || text_eq id (codes "0") || text_eq id origin then b'-' ∷ [] else b'(' ∷ id

module _ ⦃codec : Codec⦄ where
  -- The messages before the first malformed entry, and whether there is one.
  unfoldable pub parse_exec_messages : List (Text × ExecEntry) → List ExecMessage × Bool
  unfolding parse_exec_message
  parse_exec_messages [] = ([], false)
  parse_exec_messages ((id, entry) ∷ msgs) = elim (parse_exec_message id entry) [
    | none ↦ ([], true)
    | some m ↦ let (out, bad) = parse_exec_messages msgs in (m ∷ out, bad)
  ]

  -- ReadExec; `none` is an error of XREADGROUP.
  unfoldable pub read_exec : Option (List (Text × ExecEntry)) → List ExecMessage × Bool
  unfolding parse_exec_messages
  read_exec none = ([], true)
  read_exec (some msgs) = parse_exec_messages msgs

  -- ReadResults: the results before the first malformed entry, the cursor behind them, and whether
  -- there was an error.
  unfoldable pub results_from : Text → List (Text × Text) → List Result × Text × Bool
  results_from cursor [] = ([], cursor, false)
  results_from cursor ((id, raw) ∷ msgs) = elim (codec.unmarshal_result raw) [
    | none ↦ ([], cursor, true)
    | some r ↦ let (out, next, bad) = results_from id msgs in (r ∷ out, next, bad)
  ]

  unfoldable pub read_results : Option (List (Text × Text)) → Text → List Result × Text × Bool
  unfolding results_from
  read_results none start = ([], start, true)
  read_results (some msgs) start = results_from start msgs

  unfoldable pub read_dead_letters : List Text → List DeadLetter × Bool
  read_dead_letters [] = ([], false)
  read_dead_letters (raw ∷ msgs) = elim (codec.unmarshal_dead_letter raw) [
    | none ↦ ([], true)
    | some d ↦ let (out, bad) = read_dead_letters msgs in (d ∷ out, bad)
  ]

  abbrev before_rest : List Result → Option (List Result) → Option (List Result)
  before_rest page none = none
  before_rest page (some rest) = some (page ++ rest)

  -- The pages that collectResults asks for, one reply for each, up to an empty page. `none`
  -- is an error, or more pages to come.
  unfoldable pub collect_results : Text → List (Option (List (Text × Text))) → Option (List Result)
  unfolding read_results
  collect_results cursor [] = none
  collect_results cursor (r ∷ rs) =
      let (page, next, bad) = read_results r cursor in
      let rest = collect_results next rs in
      if bad then none else elim page [ [] ↦ some [] | x ∷ xs ↦ before_rest (x ∷ xs) rest ]

module _ ⦃fl : Float64⦄ ⦃redis : Redis⦄ where
  open redis use {entries, get, hgetall}

  unfoldable pub in_flight : World → World × Answer ℤ
  unfolding call
  in_flight w = call (λ s. (s, reply (get_or (get s.inflight) (pos 0)))) w

  unfoldable pub stats : World → World × Answer (List (Text × ℤ))
  unfolding call
  stats w = call (λ s. (s, reply (hgetall s.stats))) w

  unfoldable pub dead_letter_count : World → World × Answer ℕ
  unfolding call
  dead_letter_count w = call (λ s. (s, reply (length (entries s.dead_letter)))) w

  unfoldable pub result_count : World → World × Answer ℕ
  unfolding call
  result_count w = call (λ s. (s, reply (length (entries s.results)))) w

  -- Service and count of the tenants; no count is read if the service could not be.
  unfoldable pub tenant_service : World → World × Answer (List (Text × ℤ) × List (Text × ℤ))
  unfolding call map_answer
  tenant_service w =
      let (w', a) = call (λ s. (s, reply (hgetall s.tenant_service))) w in
      let (w'', b) = call (λ s. (s, reply (hgetall s.tenant_count))) w' in
      elim a [
        | answer service ↦ (w'', map_answer (λ count. (service, count)) b)
        | err_fenced ↦ (w', err_other)
        | err_other ↦ (w', err_other)
      ]

  -- `ttl` is the reply of PTTL.
  unfoldable pub holder_of : (Text → ℤ) → ℤ → Option Text → Option Holder
  unfolding split_holder
  holder_of parse_int ttl none = none
  holder_of parse_int ttl (some val) =
      let (owner, epoch) = split_holder parse_int val in
      some (record { owner = owner; epoch = epoch; ttl = if ltb_ℤ (pos 0) ttl then ttl else pos 0 })

  unfoldable pub leadership : (Text → ℤ) → ℤ → World → World × Answer (Option Holder)
  unfolding call holder_of
  leadership parse_int ttl w = call (λ s. (s, reply (holder_of parse_int ttl (get s.leader)))) w

-- What a failed read leaves: zero.
abbrev pub count_of : Answer ℕ → ℕ
count_of (answer n) = n
count_of err_fenced = 0
count_of err_other = 0

-- waitForCompletion of internal/bench/runner.go: one poll, whose failed reads count as nothing, by
-- the number of tasks that are to end.
unfoldable pub all_ended : ℕ → Answer ℕ → Answer ℕ → Bool
all_ended expected completed dead = leb expected (count_of completed + count_of dead)
