-- ===== src/Broker/Scripts.antt =====
-- The Lua scripts of internal/broker/scripts.go, each one atomic step on the store.
use distributed_task_queue_s.Prelude.{
  ℕ, zero, suc, Bool, true, false, ◌&&◌, Option, none, some, List, [], ◌∷◌, ◌++◌, ℤ, pos, ltb_ℤ,
  leb_ℤ, Text, text_eq, ltb, if◌then◌else◌, is_some, get_or, length,
}
use distributed_task_queue_s.Env.Float.{Float64}
use distributed_task_queue_s.Env.Redis.{Redis}
use distributed_task_queue_s.Policy.Key.{Key, task_id_from_member}
use distributed_task_queue_s.Broker.Store.{
  Store, stat_admitted, stat_dispatched, stat_completed, stat_retried, stat_dead_lettered,
  stat_deadline_missed, stat_duplicate_completions,
}

-- What a script replies: a value, or the error FencedError.
pub data Reply {ℓ} (A : Type ℓ) : Type ℓ where
  reply : A → Reply A
  fenced_error : Reply A

module _ ⦃fl : Float64⦄ ⦃redis : Redis⦄ where
  open redis use {
    Cell, get, set, incr, decr, Hash, hget, hset, hdel, hincrby, zadd, zrem, zpopmin, Stream, xadd,
    xack,
  }

  -- One entry of the dispatch script's reply, {member, score, payload}.
  abbrev pub Triple : Type 0
  Triple = Key × Text

  -- GET of a counter `or '0'`.
  abbrev pub get_counter : Cell ℤ → ℤ
  get_counter c = get_or (get c) (pos 0)

  -- fenceGuard: the new floor, and whether the epoch is refused.
  unfoldable pub fenced : Cell ℤ → ℤ → Cell ℤ × Bool
  fenced fence epoch =
      let cur = get_counter fence in
      if leb_ℤ epoch (pos 0)
      then (fence, false)
      else if ltb_ℤ epoch cur
      then (fence, true)
      else (if ltb_ℤ cur epoch then set fence epoch else fence, false)

  -- A script behind the guard.
  unfoldable pub guarded {ℓ} :
      {A : Type ℓ} → ℤ → (Store → Store × Reply A) → Store → Store × Reply A
  unfolding fenced
  guarded epoch body s =
      let (floor, refused) = fenced s.fence epoch in
      if refused
      then (record s { fence = floor }, fenced_error)
      else body (record s { fence = floor })

  unfoldable pub admit_body : Text → Key → ℤ → Text → Store → Store × Reply ℕ
  admit_body task_id key submitted payload s =
      if is_some (hget s.done task_id)
      then (s, reply 0)
      else if is_some (hget s.payloads task_id)
      then (s, reply 0)
      else (
        record s {
          payloads = hset s.payloads task_id payload;
          pending = zadd s.pending key.score key.member;
          pending_age = zadd s.pending_age (fl.of_int submitted) key.member;
          stats = hincrby s.stats stat_admitted (pos 1);
        },
        reply 1,
      )

  unfoldable pub admit_script : Text → Key → ℤ → Text → ℤ → Store → Store × Reply ℕ
  unfolding admit_body guarded
  admit_script task_id key submitted payload epoch =
      guarded epoch (admit_body task_id key submitted payload)

  -- `if maxInFlight > 0 then ... if cur >= maxInFlight then break`.
  unfoldable pub at_limit : Store → ℕ → Bool
  at_limit s max_in_flight =
      ltb 0 max_in_flight && leb_ℤ (pos max_in_flight) (get_counter s.inflight)

  -- The payload of a popped member, if the member is well formed and the payload still there.
  unfoldable pub payload_of : Store → Text → Option Text
  payload_of s member = elim (task_id_from_member member) [
    | none ↦ none
    | some task_id ↦ hget s.payloads task_id
  ]

  unfoldable pub publish : Text → ℤ → ℕ → ℤ → Store → Store
  publish payload now_millis max_len epoch s = record s {
    exec =
        xadd s.exec max_len
          (record { task = payload; dispatched_at_ms = now_millis; epoch = some epoch });
    stats = hincrby s.stats stat_dispatched (pos 1);
    inflight = incr s.inflight;
  }

  -- The body of the loop once a member is popped.
  unfoldable pub deliver : Key → redis.ZSet → ℤ → ℕ → ℤ → Store → Store × List Triple
  unfolding payload_of publish
  deliver k rest now_millis max_len epoch s =
      let s' = record s { pending = rest; pending_age = zrem s.pending_age k.member } in
      elim (payload_of s k.member) [
        | none ↦ (s', [])
        | some payload ↦ (publish payload now_millis max_len epoch s', (k, payload) ∷ [])
      ]

  -- `for i = 1, maxCount do`, with the rounds left.
  unfoldable pub dispatch_loop : ℕ → ℕ → ℤ → ℕ → ℤ → Store → Store × List Triple
  dispatch_loop zero max_in_flight now_millis max_len epoch s = (s, [])
  dispatch_loop (suc rounds) max_in_flight now_millis max_len epoch s =
      elim (at_limit s max_in_flight) [
        | true ↦ (s, [])
        | false ↦ elim (zpopmin s.pending) [
          | none ↦ (s, [])
          | some (k, rest) ↦
              let (s', out) = deliver k rest now_millis max_len epoch s in
              let (s'', more) = dispatch_loop rounds max_in_flight now_millis max_len epoch s' in
              (s'', out ++ more)
        ]
      ]

  unfoldable pub dispatch_body : ℕ → ℕ → ℤ → ℕ → ℤ → Store → Store × Reply (List Triple)
  unfolding dispatch_loop deliver at_limit
  dispatch_body max_count max_in_flight now_millis max_len epoch s =
      let (s', out) = dispatch_loop max_count max_in_flight now_millis max_len epoch s in
      (s', reply out)

  unfoldable pub dispatch_script : ℕ → ℕ → ℤ → ℕ → ℤ → Store → Store × Reply (List Triple)
  unfolding dispatch_body guarded
  dispatch_script max_count max_in_flight now_millis max_len epoch =
      guarded epoch (dispatch_body max_count max_in_flight now_millis max_len epoch)

  -- `if msgID ~= '' then XACK`.
  unfoldable pub ack_old : Text → Store → Store
  ack_old msg_id s = if text_eq msg_id [] then s else record s { exec = xack s.exec msg_id }

  unfoldable pub record_completion : Text → Text → Text → ℤ → Bool → ℤ → ℕ → Store → Store
  record_completion task_id result_json tenant_id service_ms missed now_millis max_len s =
      let stats' = hincrby s.stats stat_completed (pos 1) in
      record s {
        done = hset s.done task_id now_millis;
        payloads = hdel s.payloads task_id;
        results = xadd s.results max_len result_json;
        stats = if missed then hincrby stats' stat_deadline_missed (pos 1) else stats';
        tenant_service = hincrby s.tenant_service tenant_id service_ms;
        tenant_count = hincrby s.tenant_count tenant_id (pos 1);
        inflight = decr s.inflight;
      }

  -- HSETNX sets the field, and replies 1, only if it is missing.
  unfoldable pub complete_script :
      Text → Text → Text → ℤ → Bool → ℤ → Text → ℕ → Store → Store × Reply ℕ
  unfolding record_completion ack_old
  complete_script task_id result_json tenant_id service_ms missed now_millis msg_id max_len s =
      if is_some (hget s.done task_id)
      then (
        ack_old msg_id (record s { stats = hincrby s.stats stat_duplicate_completions (pos 1) }),
        reply 0,
      )
      else (
        ack_old msg_id (
            record_completion task_id result_json tenant_id service_ms missed now_millis max_len s),
        reply 1,
      )

  unfoldable pub bury : Text → Text → ℤ → Store → Store
  bury task_id dead_json now_millis s = record s {
    dead_letter = xadd s.dead_letter 0 dead_json;
    payloads = hdel s.payloads task_id;
    done = hset s.done task_id now_millis;
    stats = hincrby s.stats stat_dead_lettered (pos 1);
    inflight = decr s.inflight;
  }

  unfoldable pub redeliver : Text → Text → ℤ → ℕ → Store → Store
  redeliver task_id retry_json now_millis max_len s = record s {
    payloads = hset s.payloads task_id retry_json;
    exec =
        xadd s.exec max_len
          (record { task = retry_json; dispatched_at_ms = now_millis; epoch = none });
    stats = hincrby s.stats stat_retried (pos 1);
  }

  -- The HSETNX of the dead branch always sets: the task was not done.
  unfoldable pub retry_script : Text → Text → Text → Bool → ℤ → Text → ℕ → Store → Store × Reply ℕ
  unfolding bury redeliver ack_old
  retry_script task_id retry_json dead_json is_dead now_millis old_msg_id max_len s =
      if is_some (hget s.done task_id)
      then (ack_old old_msg_id s, reply 0)
      else if is_dead
      then (ack_old old_msg_id (bury task_id dead_json now_millis s), reply 2)
      else (ack_old old_msg_id (redeliver task_id retry_json now_millis max_len s), reply 1)

  unfoldable pub hset_all : Hash Text → List (Text × Text) → Hash Text
  hset_all h [] = h
  hset_all h ((field, value) ∷ state) = hset_all (hset h field value) state

  -- `#ARGV < 3` holds when no field is given; DEL comes before the fields are set.
  unfoldable pub save_state_body : List (Text × Text) → Store → Store × Reply ℕ
  unfolding hset_all
  save_state_body [] s = (s, reply 0)
  save_state_body (entry ∷ state) s = (
    record s { sched_state = hset_all redis.no_hash (entry ∷ state) },
    reply (length (entry ∷ state)),
  )

  unfoldable pub save_state_script : List (Text × Text) → ℤ → Store → Store × Reply ℕ
  unfolding save_state_body guarded
  save_state_script state epoch = guarded epoch (save_state_body state)
