-- ===== src/Policy/Key.antt =====
-- internal/scheduler/policy/policy.go: the ordering key of a pending task.
use distributed_task_queue_s.Prelude.{
  ℕ, zero, suc, ◌+◌, ◌-◌, ◌/◌, ◌%◌, Bool, Option, none, some, [], ◌∷◌, ◌++◌, ◌&&◌, ◌||◌, Text,
  text_ltb, ℤ, pos, negsuc, ◌==◌, if◌then◌else◌,
}
use distributed_task_queue_s.Env.Float.{Float64}
use distributed_task_queue_s.Domain.Task.{Task, submitted_at_millis}

-- The digits of `n` put before `acc`, at least `width` of them. `n` has at most `n` digits, so
-- `width + n` rounds are enough.
unfoldable pub digits : ℕ → ℕ → ℕ → Text → Text
digits zero width n acc = acc
digits (suc fuel) width n acc =
    let rest = digits fuel (width - 1) (n / 10) ((48 + n % 10) ∷ acc) in
    if n == 0 && width == 0 then acc else rest

-- `%0<width>d`: the sign counts as one of the places.
unfoldable pub zero_padded : ℕ → ℤ → Text
unfolding digits
zero_padded width (pos n) = digits (width + n) width n []
zero_padded width (negsuc n) = b'-' ∷ digits (width + suc n) (width - 1) (suc n) []

unfoldable pub member_for : Task → Text
unfolding zero_padded
member_for t = zero_padded 13 (submitted_at_millis t) ++ b'|' ∷ t.id

-- `none` is the error "malformed pending member".
unfoldable pub task_id_from_member : Text → Option Text
task_id_from_member [] = none
task_id_from_member (c ∷ member) = if c == b'|' then some member else task_id_from_member member

module _ ⦃fl : Float64⦄ where
  pub record Key : Type 0 where
    pub score : fl.F
    pub member : Text

  -- `k.Score != other.Score` holds when either score is below the other.
  unfoldable pub less : Key → Key → Bool
  less k other =
      if fl.ltf k.score other.score || fl.ltf other.score k.score
      then fl.ltf k.score other.score
      else text_ltb k.member other.member
