-- ===== src/Broker/Store.antt =====
-- The keys of one namespace, internal/broker/keys.go, with what Redis holds under each.
use distributed_task_queue_s.Prelude.{ℤ, Text, Option, [], ◌∷◌}
use distributed_task_queue_s.Env.Float.{Float64}
use distributed_task_queue_s.Env.Redis.{Redis}

-- An entry of the execution stream. A retry carries no epoch.
pub record ExecEntry : Type 0 where
  pub task : Text
  pub dispatched_at_ms : ℤ
  pub epoch : Option ℤ

module _ ⦃fl : Float64⦄ ⦃redis : Redis⦄ where
  open redis use {Cell, Hash, ZSet, Stream, no_cell, no_hash, no_zset, no_stream}

  pub record Store : Type 0 where
    pub ingress : Stream Text
    pub exec : Stream ExecEntry
    pub results : Stream Text
    pub dead_letter : Stream Text
    pub pending : ZSet
    pub pending_age : ZSet
    pub payloads : Hash Text
    pub done : Hash ℤ
    pub sched_state : Hash Text
    pub leader : Cell Text
    pub leader_epoch : Cell ℤ
    pub fence : Cell ℤ
    pub stats : Hash ℤ
    pub tenant_service : Hash ℤ
    pub tenant_count : Hash ℤ
    pub inflight : Cell ℤ

  -- A namespace that nothing has written yet.
  abbrev pub no_store : Store
  no_store = record {
    ingress = no_stream;
    exec = no_stream;
    results = no_stream;
    dead_letter = no_stream;
    pending = no_zset;
    pending_age = no_zset;
    payloads = no_hash;
    done = no_hash;
    sched_state = no_hash;
    leader = no_cell;
    leader_epoch = no_cell;
    fence = no_cell;
    stats = no_hash;
    tenant_service = no_hash;
    tenant_count = no_hash;
    inflight = no_cell;
  }

  -- Reset deletes every key of All: all but the epoch counter and the fence.
  unfoldable pub reset : Store → Store
  reset s = record no_store { leader_epoch = s.leader_epoch; fence = s.fence }

-- The counter names of the stats hash.
abbrev pub stat_admitted : Text
stat_admitted = b'a' ∷ b'd' ∷ b'm' ∷ b'i' ∷ b't' ∷ b't' ∷ b'e' ∷ b'd' ∷ []

abbrev pub stat_dispatched : Text
stat_dispatched = b'd' ∷ b'i' ∷ b's' ∷ b'p' ∷ b'a' ∷ b't' ∷ b'c' ∷ b'h' ∷ b'e' ∷ b'd' ∷ []

abbrev pub stat_completed : Text
stat_completed = b'c' ∷ b'o' ∷ b'm' ∷ b'p' ∷ b'l' ∷ b'e' ∷ b't' ∷ b'e' ∷ b'd' ∷ []

abbrev pub stat_retried : Text
stat_retried = b'r' ∷ b'e' ∷ b't' ∷ b'r' ∷ b'i' ∷ b'e' ∷ b'd' ∷ []

abbrev pub stat_dead_lettered : Text
stat_dead_lettered =
    b'd' ∷ b'e' ∷ b'a' ∷ b'd' ∷ b'_' ∷ b'l' ∷ b'e' ∷ b't' ∷ b't' ∷ b'e' ∷ b'r' ∷ b'e' ∷ b'd' ∷ []

abbrev pub stat_deadline_missed : Text
stat_deadline_missed =
    b'd' ∷ b'e' ∷ b'a' ∷ b'd' ∷ b'l' ∷ b'i' ∷ b'n' ∷ b'e' ∷ b'_' ∷ b'm' ∷ b'i' ∷ b's' ∷ b's' ∷ b'e'
    ∷ b'd' ∷ []

abbrev pub stat_duplicate_completions : Text
stat_duplicate_completions =
    b'd' ∷ b'u' ∷ b'p' ∷ b'l' ∷ b'i' ∷ b'c' ∷ b'a' ∷ b't' ∷ b'e' ∷ b'_' ∷ b'c' ∷ b'o' ∷ b'm' ∷ b'p'
    ∷ b'l' ∷ b'e' ∷ b't' ∷ b'i' ∷ b'o' ∷ b'n' ∷ b's' ∷ []
