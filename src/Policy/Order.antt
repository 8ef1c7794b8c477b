-- ===== src/Policy/Order.antt =====
-- Key.Less of internal/scheduler/policy/policy.go is a strict total order.
use distributed_task_queue_s.Prelude.{
  ◌≡◌, ◌⊎◌, true, false, arith, text_ltb_irrefl, text_ltb_trans, text_ltb_total,
}
use distributed_task_queue_s.Env.Float.{Float64}
use distributed_task_queue_s.Policy.Key.{Key, less}

module _ ⦃fl : Float64⦄ where
  pub less_irrefl : (k : Key) → less k k ≡ false
  unfolding less
  less_irrefl k = ground (arith, fl.ltf_irrefl k.score, text_ltb_irrefl k.member)

  pub less_trans : (a b c : Key) → less a b ≡ true → less b c ≡ true → less a c ≡ true
  unfolding less
  less_trans a b c p q = ground (
    arith,
    fl.ltf_trans a.score b.score c.score,
    fl.ltf_total a.score b.score,
    fl.ltf_total b.score c.score,
    fl.ltf_irrefl a.score,
    fl.ltf_irrefl b.score,
    text_ltb_trans a.member b.member c.member,
  )

  pub less_total : (a b : Key) → (less a b ≡ true) ⊎ ((a ≡ b) ⊎ (less b a ≡ true))
  unfolding less
  less_total a b =
      ground (
        arith,
        fl.ltf_total a.score b.score,
        fl.ltf_irrefl a.score,
        text_ltb_total a.member b.member,
      )
