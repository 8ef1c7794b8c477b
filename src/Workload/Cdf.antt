-- ===== src/Workload/Cdf.antt =====
-- A draw picks an entry of the distribution.
use distributed_task_queue_s.Prelude.{
  ℕ, zero, suc, ◌+◌, ◌<◌, ◌≡◌, refl, ap, some, List, [], ◌∷◌, length, All, ℤ, pos, negsuc, sub_ℕ,
  ◌≤ℤ◌, ◌<ℤ◌, arith,
}
use distributed_task_queue_s.Env.Float.{Float64}
use distributed_task_queue_s.Workload.{build_cdf, accumulate, set_last, pick, pick_from, at, index}

-- An index of a list of this length.
abbrev pub IsIndex : ℕ → ℤ → Type 0
IsIndex n k = (pos 0 ≤ℤ k) × (k <ℤ pos n)

module _ ⦃fl : Float64⦄ where
  length-accumulate :
      (total acc : fl.F) (ws : List fl.F) → length (accumulate total acc ws) ≡ length ws
  unfolding accumulate
  length-accumulate total acc [] = refl
  length-accumulate total acc (w ∷ ws) =
      ap (λ n. suc n) (length-accumulate total (fl.addf acc w) ws)

  length-set_last : (x : fl.F) (cs : List fl.F) → length (set_last x cs) ≡ length cs
  unfolding set_last
  length-set_last x [] = refl
  length-set_last x (c ∷ []) = refl
  length-set_last x (c ∷ d ∷ cs) = ap (λ n. suc n) (length-set_last x (d ∷ cs))

  pub length-build_cdf : (ws : List fl.F) → length (build_cdf ws) ≡ length ws
  unfolding build_cdf
  length-build_cdf ws = rw (length-set_last, length-accumulate) refl

  pick_from-IsIndex :
      (i n : ℕ) (last : ℤ) (u : fl.F) (cs : List fl.F)
      → i + length cs ≡ n
      → IsIndex n last
      → IsIndex n (pick_from i last u cs)
  unfolding pick_from
  pick_from-IsIndex i n last u [] e h = h
  pick_from-IsIndex i n last u (c ∷ cs) e h =
      ground (arith, pick_from-IsIndex (suc i) n last u cs (omega (arith, e)) h)

  pub pick-IsIndex : (u : fl.F) (cs : List fl.F) → 0 < length cs → IsIndex (length cs) (pick u cs)
  unfolding pick
  pick-IsIndex u cs h =
      pick_from-IsIndex 0 (length cs) (sub_ℕ (length cs) 1) u cs (omega arith) (ground arith)

pub at-All {ℓ κ} :
    {A : Type ℓ} (P : A → Type κ) (xs : List A) (i : ℕ)
    → i < length xs
    → All P xs
    → (x : A) × (at xs i ≡ some x) × P x
unfolding at
at-All P [] i h ps = ground arith
at-All P (x ∷ xs) zero h ps = (x, refl, ps.0)
at-All P (x ∷ xs) (suc i) h ps = at-All P xs i (omega (arith, h)) ps.1

pub index-All {ℓ κ} :
    {A : Type ℓ} (P : A → Type κ) (xs : List A) (k : ℤ)
    → IsIndex (length xs) k
    → All P xs
    → (x : A) × (index xs k ≡ some x) × P x
unfolding index
index-All P xs (pos i) h ps = at-All P xs i (ground arith) ps
index-All P xs (negsuc i) h ps = ground arith
