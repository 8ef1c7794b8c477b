-- ===== src/Policy/Wfq.antt =====
-- internal/scheduler/wfq: weighted fair queuing by self-clocked virtual finish times.
pub mod Clock
pub mod Tenant
pub mod Persist
pub mod Fair
use distributed_task_queue_s.Prelude.{
  Bool, true, false, ◌&&◌, ◌||◌, Option, none, some, List, [], ◌∷◌, ◌++◌, Text, text_eq, ℤ, pos,
  lookup, insert, if◌then◌else◌, is_some, get_or,
}
use distributed_task_queue_s.Env.Float.{Float64}
use distributed_task_queue_s.Domain.Task.{Task}
use distributed_task_queue_s.Policy.Key.{Key, member_for}

-- "vtime" and "lf:".
abbrev pub state_virtual_time : Text
state_virtual_time = b'v' ∷ b't' ∷ b'i' ∷ b'm' ∷ b'e' ∷ []

abbrev pub state_finish_prefix : Text
state_finish_prefix = b'l' ∷ b'f' ∷ b':' ∷ []

pub data Error : Type 0 where
  default_weight_not_positive : Error
  weight_not_positive : Text → Error
  bad_value : Text → Error
  unknown_key : Text → Error

-- The text after a prefix: `strings.HasPrefix` and `strings.TrimPrefix` in one.
unfoldable pub after_prefix : Text → Text → Option Text
after_prefix [] s = some s
after_prefix (p ∷ ps) [] = none
after_prefix (p ∷ ps) (c ∷ s) = if text_eq (p ∷ []) (c ∷ []) then after_prefix ps s else none

module _ ⦃fl : Float64⦄ where
  abbrev pub zero_f : fl.F
  zero_f = fl.of_int (pos 0)

  abbrev pub one_f : fl.F
  one_f = fl.of_int (pos 1)

  pub record Wfq : Type 0 where
    pub weights : List (Text × fl.F)
    pub default_weight : fl.F
    pub virtual_time : fl.F
    pub last_finish : List (Text × fl.F)

  -- A Go function that returns a policy and an error.
  pub data Result : Type 0 where
    ok : Wfq → Result
    err : Error → Result

  -- The loop over the configured weights; Go takes the entries in no fixed order.
  unfoldable pub check_weights : List (Text × fl.F) → Option Text
  check_weights [] = none
  check_weights ((tenant, w) ∷ ws) = if fl.ltf zero_f w then check_weights ws else some tenant

  unfoldable pub new : List (Text × fl.F) → fl.F → Result
  unfolding check_weights
  new weights default_weight =
      let def =
        if fl.ltf default_weight zero_f || fl.ltf zero_f default_weight
        then default_weight
        else one_f in
      if fl.ltf zero_f def
      then (elim (check_weights weights) [
        | some tenant ↦ err (weight_not_positive tenant)
        | none ↦ ok (record {
          weights = weights;
          default_weight = def;
          virtual_time = zero_f;
          last_finish = [];
        })
      ])
      else err default_weight_not_positive

  unfoldable pub weight : Wfq → Text → fl.F
  weight p tenant = get_or (lookup tenant p.weights) p.default_weight

  -- The later of the virtual clock and the tenant's last finish tag.
  unfoldable pub start_tag : Wfq → Text → fl.F
  start_tag p tenant = elim (lookup tenant p.last_finish) [
    | none ↦ p.virtual_time
    | some lf ↦ if fl.ltf p.virtual_time lf then lf else p.virtual_time
  ]

  unfoldable pub cost : Task → fl.F
  cost t = let c = fl.of_int t.exec_millis in if fl.ltf zero_f c then c else one_f

  unfoldable pub rank : Wfq → Task → Key × Wfq
  rank p t =
      let w = weight p t.tenant_id in
      let finish = fl.addf (start_tag p t.tenant_id) (fl.divf (cost t) w) in
      (
        record { score = finish; member = member_for t },
        record p { last_finish = insert t.tenant_id finish p.last_finish },
      )

  unfoldable pub notify : Wfq → Key → Wfq
  notify p k = if fl.ltf p.virtual_time k.score then record p { virtual_time = k.score } else p

  unfoldable pub tag_entries : List (Text × fl.F) → List (Text × Text)
  tag_entries [] = []
  tag_entries ((tenant, f) ∷ m) = (state_finish_prefix ++ tenant, fl.format_float f) ∷ tag_entries m

  unfoldable pub state : Wfq → List (Text × Text)
  unfolding tag_entries
  state p = (state_virtual_time, fl.format_float p.virtual_time) ∷ tag_entries p.last_finish

  -- One round of the loop of Restore, over the entries in the order of their keys.
  unfoldable pub restore_entry : Wfq → Text → Text → Result
  restore_entry p k text = elim (fl.parse_float text) [
    | none ↦ err (bad_value k)
    | some v ↦
        if text_eq k state_virtual_time
        then ok (record p { virtual_time = v })
        else (elim (after_prefix state_finish_prefix k) [
          | some tenant ↦ ok (record p { last_finish = insert tenant v p.last_finish })
          | none ↦ err (unknown_key k)
        ])
  ]

  unfoldable pub restore_loop : Wfq → List (Text × Text) → Result
  restore_loop p [] = ok p
  restore_loop p ((k, text) ∷ entries) = elim (restore_entry p k text) [
    | ok q ↦ restore_loop q entries
    | err e ↦ err e
  ]

  unfoldable pub restore : Wfq → List (Text × Text) → Result
  unfolding restore_loop restore_entry after_prefix
  restore p entries = restore_loop (record p { virtual_time = zero_f; last_finish = [] }) entries
