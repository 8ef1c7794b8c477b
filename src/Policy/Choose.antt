-- ===== src/Policy/Choose.antt =====
-- internal/scheduler/scheduler.go and internal/scheduler/policy/names.go: choosing a policy by name.
use distributed_task_queue_s.Prelude.{
  ◌≡◌, Bool, true, false, ◌&&◌, ◌||◌, not, Option, none, some, is_some, List, [], ◌∷◌, Text,
  text_eq, text_eq_iff, if◌then◌else◌, arith,
}
use distributed_task_queue_s.Env.Float.{Float64}
use distributed_task_queue_s.Policy.Interface.{
  Policy, fifo_policy, priority_policy, edf_policy, wfq_policy,
}
use distributed_task_queue_s.Policy.Wfq
use distributed_task_queue_s.Policy.Wfq.{ok, err}

abbrev pub fifo_name : Text
fifo_name = b'f' ∷ b'i' ∷ b'f' ∷ b'o' ∷ []

abbrev pub priority_name : Text
priority_name = b'p' ∷ b'r' ∷ b'i' ∷ b'o' ∷ b'r' ∷ b'i' ∷ b't' ∷ b'y' ∷ []

abbrev pub edf_name : Text
edf_name = b'e' ∷ b'd' ∷ b'f' ∷ []

abbrev pub wfq_name : Text
wfq_name = b'w' ∷ b'f' ∷ b'q' ∷ []

-- Names, sorted.
abbrev pub names : List Text
names = edf_name ∷ fifo_name ∷ priority_name ∷ wfq_name ∷ []

unfoldable pub listed : Text → List Text → Bool
listed name [] = false
listed name (n ∷ ns) = if text_eq n name then true else listed name ns

unfoldable pub valid : Text → Bool
unfolding listed
valid name = listed name names

module _ ⦃fl : Float64⦄ where
  -- A policy and the state that it starts in.
  pub record Chosen : Type 1 where
    pub policy : Policy
    pub start : policy.State

  -- New; `none` is an error.
  unfoldable pub choose : Text → List (Text × fl.F) → fl.F → Option Chosen
  choose name weights default_weight =
      if text_eq name fifo_name
      then some (record { policy = fifo_policy; start = tt })
      else if text_eq name priority_name
      then some (record { policy = priority_policy; start = tt })
      else if text_eq name edf_name
      then some (record { policy = edf_policy; start = tt })
      else if text_eq name wfq_name
      then (elim (Wfq.new weights default_weight) [
        | ok p ↦ some (record { policy = wfq_policy; start = p })
        | err e ↦ none
      ])
      else none

  abbrev pub usable : Wfq.Result → Bool
  usable (ok p) = true
  usable (err e) = false

  -- New succeeds exactly for the names that configuration validation accepts, wfq only if its
  -- weights are usable: validation and New know the same policies.
  pub choose-valid :
      (name : Text) (weights : List (Text × fl.F)) (default_weight : fl.F)
      → is_some (choose name weights default_weight)
        ≡ (valid name && (not (text_eq name wfq_name) || usable (Wfq.new weights default_weight)))
  unfolding choose valid listed
  choose-valid name weights default_weight = ground (
    arith,
    text_eq_iff name fifo_name,
    text_eq_iff name priority_name,
    text_eq_iff name edf_name,
    text_eq_iff name wfq_name,
    text_eq_iff fifo_name name,
    text_eq_iff priority_name name,
    text_eq_iff edf_name name,
    text_eq_iff wfq_name name,
  )
