-- ===== src/Bench/Failover.antt =====
-- The measurements of cmd/failoverbench/main.go on the execution stream: epochInversions, the gaps
-- between dispatches, and the arrival plan. A dispatch is read with the entry's own time and epoch.
use distributed_task_queue_s.Prelude.{
  ℕ, suc, ◌≡◌, ◌↔◌, refl, inl, inr, Bool-cases, not, Option, none, some, List, [], ◌∷◌, All,
  All-map, ℤ, pos, ◌*ℤ◌, ◌<ℤ◌, ◌≤ℤ◌, ltb_ℤ, leb_ℤ, if◌then◌else◌, get_or, arith,
}
use distributed_task_queue_s.Domain.Time.{Time, sub, after, is_zero, zero_time}
use distributed_task_queue_s.Env.Float.{Float64}
use distributed_task_queue_s.Broker.Store.{ExecEntry}
use distributed_task_queue_s.System.Terms.{InOrder, NotBefore, term}
use distributed_task_queue_s.Config.Defaults.{float}
use distributed_task_queue_s.Workload.{duration_seconds}

pub record DispatchEntry : Type 0 where
  pub at : Time
  pub epoch : ℤ

-- The loop of dispatchRecord over the entries of a page.
unfoldable pub dispatch_record : List ExecEntry → List DispatchEntry
dispatch_record [] = []
dispatch_record (e ∷ es) =
    record { at = e.dispatched_at_ms *ℤ pos 1000000; epoch = get_or e.epoch (pos 0) }
    ∷ dispatch_record es

-- The loop of epochInversions, with the highest epoch so far.
unfoldable pub inversions_above : ℤ → List DispatchEntry → ℕ
inversions_above high [] = 0
inversions_above high (e ∷ es) =
    let below = inversions_above high es in
    let next = inversions_above e.epoch es in
    if leb_ℤ e.epoch (pos 0) then below else if ltb_ℤ e.epoch high then suc below else next

unfoldable pub epoch_inversions : List DispatchEntry → ℕ
unfolding inversions_above
epoch_inversions entries = inversions_above (pos 0) entries

-- No stamped entry is below the highest epoch so far.
abbrev AllAbove : ℤ → List ExecEntry → Type 0
AllAbove high es = All (λ e. pos 0 <ℤ term e → high ≤ℤ term e) es

All-always {ℓ κ} : {A : Type ℓ} (P : A → Type κ) (xs : List A) → ((x : A) → P x) → All P xs
All-always P [] h = tt
All-always P (x ∷ xs) h = (h x, All-always P xs h)

-- The count over an entry, by what the code tests.
step_cases {κ} :
    (P : ℕ → Type κ) (high : ℤ) (e : ExecEntry) (es : List ExecEntry)
    → (term e ≤ℤ pos 0 → P (inversions_above high (dispatch_record es)))
    → (pos 0 <ℤ term e → term e <ℤ high → P (suc (inversions_above high (dispatch_record es))))
    → (pos 0 <ℤ term e → high ≤ℤ term e → P (inversions_above (term e) (dispatch_record es)))
    → P (inversions_above high (dispatch_record (e ∷ es)))
unfolding inversions_above dispatch_record
step_cases P high e es retry inversion next = elim (Bool-cases (leb_ℤ (term e) (pos 0))) [
  | inl a ↦ rw a (retry (ground (arith, a)))
  | inr a ↦ elim (Bool-cases (ltb_ℤ (term e) high)) [
    | inl b ↦ rw (a, b) (inversion (ground (arith, a)) (ground (arith, b)))
    | inr b ↦ rw (a, b) (next (ground (arith, a)) (ground (arith, b)))
  ]
]

inversions_above_ordered :
    (high : ℤ) (es : List ExecEntry)
    → AllAbove high es
    → InOrder es
    → inversions_above high (dispatch_record es) ≡ 0
unfolding inversions_above dispatch_record
inversions_above_ordered high [] a o = refl
inversions_above_ordered high (e ∷ es) a o =
    step_cases (λ n. n ≡ 0) high e es (λ _. inversions_above_ordered high es a.1 o.1)
      (λ p q. absurd (omega (arith, a.0 p, q)))
      λ p q.
        inversions_above_ordered (term e) es
          (All-map (NotBefore e) (λ f. pos 0 <ℤ term f → term e ≤ℤ term f) es (λ f h. h p) o.0) o.1

ordered_inversions_above :
    (high : ℤ) (es : List ExecEntry)
    → inversions_above high (dispatch_record es) ≡ 0
    → AllAbove high es × InOrder es
ordered_inversions_above high [] h = (tt, tt)
ordered_inversions_above high (e ∷ es) h =
    step_cases (λ n. n ≡ 0 → AllAbove high (e ∷ es) × InOrder (e ∷ es)) high e es
      (λ p z.
        let (a, o) = ordered_inversions_above high es z in
        (
          ((λ q. omega (arith, p, q)), a),
          (All-always (NotBefore e) es (λ f q r. omega (arith, p, q)), o),
        ))
      (λ p q z. absurd (omega (arith, z)))
      (λ p q z.
        let (a, o) = ordered_inversions_above (term e) es z in
        (
          (
            (λ _. q),
            All-map (λ f. pos 0 <ℤ term f → term e ≤ℤ term f)
                (λ f. pos 0 <ℤ term f → high ≤ℤ term f) es (λ f g r. omega (arith, g r, q)) a,
          ),
          (
            All-map (λ f. pos 0 <ℤ term f → term e ≤ℤ term f) (NotBefore e) es (λ f g _ r. g r) a,
            o,
          ),
        ))
      h

-- The measurement is right: it reports no inversion exactly when the positive epochs on the stream
-- never go backwards.
pub epoch_inversions-dispatch_record :
    (es : List ExecEntry) → (epoch_inversions (dispatch_record es) ≡ 0) ↔ InOrder es
unfolding epoch_inversions
epoch_inversions-dispatch_record es = (
  λ h. (ordered_inversions_above (pos 0) es h).1,
  λ o.
      inversions_above_ordered (pos 0) es
        (All-always (λ e. pos 0 <ℤ term e → pos 0 ≤ℤ term e) es λ e p. omega (arith, p)) o,
)

-- outageAround after the last stamp that is not after the kill, and before the first that is.
unfoldable pub bracket : Time → Time → List Time → Time × Time
bracket kill before [] = (before, zero_time)
bracket kill before (s ∷ ss) =
    let rest = bracket kill s ss in if not (after s kill) then rest else (before, s)

module _ ⦃fl : Float64⦄ where
  abbrev pub gap_millis : Time → Time → fl.F
  gap_millis later earlier = fl.mulf (duration_seconds (sub later earlier)) (float 1000)

  unfoldable pub worst_gap : fl.F → Time → List Time → fl.F
  unfolding duration_seconds
  worst_gap worst s [] = worst
  worst_gap worst s (t ∷ ts) =
      let g = gap_millis t s in worst_gap (if fl.ltf worst g then g else worst) t ts

  unfoldable pub max_gap_ms : List Time → fl.F
  unfolding worst_gap
  max_gap_ms [] = float 0
  max_gap_ms (s ∷ ss) = worst_gap (float 0) s ss

  -- `none` is a dispatch that never followed.
  unfoldable pub outage_around : List Time → Time → Option fl.F
  unfolding bracket duration_seconds
  outage_around stamps kill =
      let (before, first) = bracket kill zero_time stamps in
      if is_zero first
      then none
      else some (gap_millis first (if is_zero before then kill else before))
