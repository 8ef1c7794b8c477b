-- ===== src/Broker/Loop.antt =====
-- The loop of the dispatch script of internal/broker/scripts.go: the rule for what every round
-- keeps.
use distributed_task_queue_s.Prelude.{
  ℕ, zero, suc, ◌≡◌, false, inl, inr, Bool-cases, Option-cases, none, some, List, [], ◌∷◌, ◌++◌, ℤ,
  Text,
}
use distributed_task_queue_s.Env.Float.{Float64}
use distributed_task_queue_s.Env.Redis.{Redis}
use distributed_task_queue_s.Policy.Key.{Key}
use distributed_task_queue_s.Broker.Store.{Store}
use distributed_task_queue_s.Broker.Scripts.{
  Triple, at_limit, payload_of, publish, deliver, dispatch_loop,
}

module _ ⦃fl : Float64⦄ ⦃redis : Redis⦄ (limit : ℕ) (now : ℤ) (max_len : ℕ) (epoch : ℤ) where
  -- One round that delivers or drops the popped member `k`.
  abbrev pub round : Key → redis.ZSet → Store → Store × List Triple
  round k rest s = deliver k rest now max_len epoch s

  abbrev pub rounds : ℕ → Store → Store × List Triple
  rounds n s = dispatch_loop n limit now max_len epoch s

  -- A relation between the store before, what was handed out and the store after holds of the loop
  -- if it holds of no round at all and is extended by a round in front.
  pub rounds_rule {κ} :
      (R : ℕ → Store → Store × List Triple → Type κ)
      → ((n : ℕ) (s : Store) → R n s (s, []))
      → ((n : ℕ) (s : Store) (k : Key) (rest : redis.ZSet) (more : Store × List Triple)
          → at_limit s limit ≡ false
          → redis.zpopmin s.pending ≡ some (k, rest)
          → R n (round k rest s).0 more
          → R (suc n) s (more.0, (round k rest s).1 ++ more.1))
      → (n : ℕ) (s : Store) → R n s (rounds n s)
  unfolding dispatch_loop
  rounds_rule R stop step zero s = stop zero s
  rounds_rule R stop step (suc n) s = elim (Bool-cases (at_limit s limit)) [
    | inl full ↦ rw (full, dispatch_loop) (stop (suc n) s)
    | inr room ↦ elim (Option-cases (redis.zpopmin s.pending)) [
      | inl e ↦ rw (room, dispatch_loop, e) (stop (suc n) s)
      | inr ((k, rest), e) ↦
          rw (room, dispatch_loop, e)
            (step n s k rest (rounds n (round k rest s).0) room e
              (rounds_rule R stop step n (round k rest s).0))
    ]
  ]

  -- What a round does with the popped member: it is delivered if its payload is there, and dropped
  -- otherwise.
  pub round_cases {κ} :
      (P : Store × List Triple → Type κ) (k : Key) (rest : redis.ZSet) (s : Store)
      → let popped = record s { pending = rest; pending_age = redis.zrem s.pending_age k.member } in
        (payload_of s k.member ≡ none → P (popped, []))
        → ((payload : Text)
            → payload_of s k.member ≡ some payload
            → P (publish payload now max_len epoch popped, (k, payload) ∷ []))
        → P (round k rest s)
  unfolding deliver
  round_cases P k rest s dropped delivered = elim (Option-cases (payload_of s k.member)) [
    | inl e ↦ rw (deliver, e) (dropped e)
    | inr (payload, e) ↦ rw (deliver, e) (delivered payload e)
  ]
