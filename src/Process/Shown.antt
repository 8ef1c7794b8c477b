-- ===== src/Process/Shown.antt =====
-- Leadership of internal/broker/broker.go shows the grant that Acquire of internal/lease/lease.go
-- wrote.
use distributed_task_queue_s.Prelude.{
  ◌≡◌, refl, false, none, some, [], ◌∷◌, ◌++◌, ℤ, pos, ltb_ℤ, Text, is_some, if◌then◌else◌, arith,
}
use distributed_task_queue_s.Env.Float.{Float64}
use distributed_task_queue_s.Env.Redis.{Redis}
use distributed_task_queue_s.Policy.Key.{zero_padded}
use distributed_task_queue_s.Policy.Member.{Clean, zero_padded-Clean}
use distributed_task_queue_s.Broker.Store.{Store}
use distributed_task_queue_s.Broker.Scripts.{get_counter}
use distributed_task_queue_s.Lease.Scripts.{grant_value, acquire_script}
use distributed_task_queue_s.Process.World.{answer, call, carry, answer_of}
use distributed_task_queue_s.Process.Reads.{cut_last, split_holder, holder_of, leadership}

cut_last-Clean : (d : Text) → Clean d → cut_last d ≡ none
unfolding cut_last
cut_last-Clean [] h = refl
cut_last-Clean (c ∷ d) h = rw (cut_last-Clean d h.1) (ground (arith, h.0))

-- An owner's name may hold bars itself.
cut_last-append : (s d : Text) → Clean d → cut_last (s ++ b'|' ∷ d) ≡ some (s, d)
unfolding cut_last
cut_last-append [] d h = rw (cut_last-Clean d h) refl
cut_last-append (c ∷ s) d h = rw (cut_last-append s d h) refl

split_holder-grant_value :
    (parse_int : Text → ℤ) (owner : Text) (epoch : ℤ)
    → split_holder parse_int (grant_value owner epoch) ≡ (owner, parse_int (zero_padded 1 epoch))
unfolding split_holder grant_value
split_holder-grant_value parse_int owner epoch =
    rw (split_holder, cut_last-append owner (zero_padded 1 epoch) (zero_padded-Clean 1 epoch)) refl

module _ ⦃fl : Float64⦄ ⦃redis : Redis⦄ where
  -- Leadership reads back what Acquire wrote: after a successful acquisition, an undisturbed read
  -- answers the new holder's own name, whatever bytes it has, and the epoch that was handed out, if
  -- ParseInt reads that number.
  pub leadership-acquire_script :
      (parse_int : Text → ℤ) (ttl : ℤ) (owner : Text) (s : Store)
      → is_some (redis.get s.leader) ≡ false
      → parse_int (zero_padded 1 (acquire_script owner s).1.0) ≡ (acquire_script owner s).1.0
      → (leadership parse_int ttl (record { store = (acquire_script owner s).0; trips = [] })).1
        ≡ answer (
            some (record {
              owner = owner;
              epoch = (acquire_script owner s).1.0;
              ttl = if ltb_ℤ (pos 0) ttl then ttl else pos 0;
            }))
  unfolding leadership holder_of acquire_script call carry answer_of
  leadership-acquire_script parse_int ttl owner s free =
      let epoch = get_counter (redis.incr s.leader_epoch) in
      rw free λ parses.
        rw
          (
            redis.get-set s.leader (grant_value owner epoch),
            holder_of,
            split_holder-grant_value parse_int owner epoch,
            parses,
          )
          refl
