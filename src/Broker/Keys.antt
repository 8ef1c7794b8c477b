-- ===== src/Broker/Keys.antt =====
-- NewKeys of internal/broker/keys.go: the names of the keys in Redis that a namespace uses.
use distributed_task_queue_s.Prelude.{
  ◌≡◌, ◌≢◌, refl, List, [], ◌∷◌, ◌++◌, All, All-map, Text, codes, arith, append_assoc,
}
use distributed_task_queue_s.Config.{Streams}

pub record Keys : Type 0 where
  pub ingress : Text
  pub exec : Text
  pub results : Text
  pub dead_letter : Text
  pub pending : Text
  pub pending_age : Text
  pub payloads : Text
  pub done : Text
  pub sched_state : Text
  pub leader : Text
  pub leader_epoch : Text
  pub fence : Text
  pub stats : Text
  pub tenant_service : Text
  pub tenant_count : Text
  pub in_flight : Text

-- What NewKeys calls `p`.
unfoldable pub key : Text → List Text → Text
key out [] = out
key out (part ∷ parts) = key (out ++ b':' ∷ part) parts

unfoldable pub new_keys : Streams → Keys
unfolding key
new_keys s = record {
  ingress = key s.namespace (codes "stream" ∷ s.ingress_stream ∷ []);
  exec = key s.namespace (codes "stream" ∷ s.exec_stream ∷ []);
  results = key s.namespace (codes "stream" ∷ s.results_stream ∷ []);
  dead_letter = key s.namespace (codes "stream" ∷ s.dead_letter_stream ∷ []);
  pending = key s.namespace (codes "pending" ∷ []);
  pending_age = key s.namespace (codes "pending_age" ∷ []);
  payloads = key s.namespace (codes "payloads" ∷ []);
  done = key s.namespace (codes "done" ∷ []);
  sched_state = key s.namespace (codes "sched_state" ∷ []);
  leader = key s.namespace (codes "leader" ∷ []);
  leader_epoch = key s.namespace (codes "leader_epoch" ∷ []);
  fence = key s.namespace (codes "fence" ∷ []);
  stats = key s.namespace (codes "stats" ∷ []);
  tenant_service = key s.namespace (codes "tenant_service" ∷ []);
  tenant_count = key s.namespace (codes "tenant_count" ∷ []);
  in_flight = key s.namespace (codes "inflight" ∷ []);
}

-- All, with the two counters that it leaves out.
unfoldable pub all_keys : Keys → List Text
all_keys k =
    k.ingress ∷ k.exec ∷ k.results ∷ k.dead_letter ∷ k.pending ∷ k.pending_age ∷ k.payloads ∷ k.done
    ∷ k.sched_state ∷ k.stats ∷ k.tenant_service ∷ k.tenant_count ∷ k.in_flight ∷ k.leader
    ∷ k.leader_epoch ∷ k.fence ∷ []

-- A namespace without a colon.
abbrev pub IsPlain : Text → Type 0
IsPlain = All (λ c. c ≢ b':')

-- A key of a namespace: the namespace, a colon and more.
IsUnder : Text → Text → Type 0
IsUnder ns k = (rest : Text) × (k ≡ ns ++ b':' ∷ rest)

key-IsUnder : (ns rest : Text) (parts : List Text) → IsUnder ns (key (ns ++ b':' ∷ rest) parts)
unfolding key IsUnder
key-IsUnder ns rest [] = (rest, refl)
key-IsUnder ns rest (p ∷ parts) =
    rw (append_assoc ns (b':' ∷ rest) (b':' ∷ p)) (key-IsUnder ns (rest ++ b':' ∷ p) parts)

key_first-IsUnder : (ns part : Text) (parts : List Text) → IsUnder ns (key ns (part ∷ parts))
unfolding key
key_first-IsUnder ns part parts = key-IsUnder ns part parts

all_keys-IsUnder : (s : Streams) → All (IsUnder s.namespace) (all_keys (new_keys s))
unfolding all_keys new_keys
all_keys-IsUnder s = search key_first-IsUnder

plain_prefix :
    (ns ns' r r' : Text) → IsPlain ns → IsPlain ns' → ns ++ b':' ∷ r ≡ ns' ++ b':' ∷ r' → ns ≡ ns'
plain_prefix [] [] r r' p p' e = refl
plain_prefix [] (c ∷ ns') r r' p p' e = ground arith
plain_prefix (c ∷ ns) [] r r' p p' e = ground arith
plain_prefix (c ∷ ns) (d ∷ ns') r r' p p' e = ground (arith, plain_prefix ns ns' r r')

under_apart :
    (ns ns' k : Text)
    → IsPlain ns
    → IsPlain ns'
    → ns ≢ ns'
    → IsUnder ns k
    → (ks : List Text) → All (IsUnder ns') ks
    → All (λ j. k ≢ j) ks
unfolding IsUnder
under_apart ns ns' k p p' apart u [] h = tt
under_apart ns ns' k p p' apart u (j ∷ ks) h =
    (λ e. apart (plain_prefix ns ns' u.0 h.0.0 p p' (cc)), under_apart ns ns' k p p' apart u ks h.1)

-- Two different namespaces without a colon share no key, whatever their streams are called: neither
-- experiment can touch the other's tasks, its lease or its fence.
pub all_keys-new_keys :
    (s t : Streams)
    → IsPlain s.namespace
    → IsPlain t.namespace
    → s.namespace ≢ t.namespace
    → All (λ k. All (λ j. k ≢ j) (all_keys (new_keys t))) (all_keys (new_keys s))
all_keys-new_keys s t p p' apart =
    All-map (IsUnder s.namespace) (λ k. All (λ j. k ≢ j) (all_keys (new_keys t)))
      (all_keys (new_keys s))
      (λ k u.
        under_apart s.namespace t.namespace k p p' apart u (all_keys (new_keys t))
          (all_keys-IsUnder t))
      (all_keys-IsUnder s)
