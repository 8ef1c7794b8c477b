-- ===== src/Lease/Scripts.antt =====
-- The Lua scripts of internal/lease/lease.go. A key's time to live is not part of the store: that
-- it has run out is a step of its own.
use distributed_task_queue_s.Prelude.{
  ℕ, Bool, false, none, some, [], ◌∷◌, ◌++◌, ℤ, pos, Text, text_eq, if◌then◌else◌, is_some,
}
use distributed_task_queue_s.Env.Float.{Float64}
use distributed_task_queue_s.Env.Redis.{Redis}
use distributed_task_queue_s.Policy.Key.{zero_padded}
use distributed_task_queue_s.Broker.Store.{Store}
use distributed_task_queue_s.Broker.Scripts.{get_counter}

-- `owner .. '|' .. epoch`; Lua prints an integer below 10^14 in plain decimal.
unfoldable pub grant_value : Text → ℤ → Text
grant_value owner epoch = owner ++ b'|' ∷ zero_padded 1 epoch

module _ ⦃fl : Float64⦄ ⦃redis : Redis⦄ where
  open redis use {get, set, incr, Cell, no_cell}

  -- `GET holder == value`.
  unfoldable pub holds : Store → Text → Bool
  holds s value = elim (get s.leader) [ none ↦ false | some v ↦ text_eq v value ]

  -- Replies the epoch and the value of the new grant, or 0 and the empty text.
  unfoldable pub acquire_script : Text → Store → Store × (ℤ × Text)
  unfolding grant_value
  acquire_script owner s =
      let counter = incr s.leader_epoch in
      let epoch = get_counter counter in
      let value = grant_value owner epoch in
      if is_some (get s.leader)
      then (s, (pos 0, []))
      else (record s { leader_epoch = counter; leader = set s.leader value }, (epoch, value))

  -- PEXPIRE changes the time to live only.
  unfoldable pub renew_script : Text → Store → Store × ℕ
  unfolding holds
  renew_script value s = if holds s value then (s, 1) else (s, 0)

  unfoldable pub release_script : Text → Store → Store × ℕ
  unfolding holds
  release_script value s = if holds s value then (record s { leader = no_cell }, 1) else (s, 0)

  -- Redis deletes the holder key when its time to live has run out.
  unfoldable pub expire : Store → Store
  expire s = record s { leader = no_cell }
