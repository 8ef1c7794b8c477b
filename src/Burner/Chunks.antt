-- ===== src/Burner/Chunks.antt =====
-- burnFor ends, and burns what it was asked for.
use distributed_task_queue_s.Prelude.{
  ℕ, zero, suc, ◌+◌, ◌-◌, ◌≤◌, ◌<◌, ◌≡◌, refl, false, Bool-cases, inl, inr, some, List, [], ◌∷◌,
  ltb, leb, All, if◌then◌else◌, arith,
}
use distributed_task_queue_s.Burner.{chunk, burn_loop, burn_for}

unfoldable pub sum : List ℕ → ℕ
sum [] = 0
sum (n ∷ ns) = n + sum ns

-- Chunks of at most 2000 that add up to what is left.
abbrev pub IsSplit : ℕ → List ℕ → Type 0
IsSplit left ns = (sum ns ≡ left) × All (λ n. n ≤ chunk) ns

burn_loop-IsSplit :
    (fuel total done : ℕ)
    → total - done < fuel
    → (ns : List ℕ) × (burn_loop fuel (λ d. false) total done ≡ some ns) × IsSplit (total - done) ns
unfolding burn_loop sum
burn_loop-IsSplit zero total done h = ground arith
burn_loop-IsSplit (suc fuel) total done h = elim (Bool-cases (leb total done)) [
  | inl e ↦ ([], rw e refl, (ground arith, tt))
  | inr e ↦
      let (ns, r, split) = burn_loop-IsSplit fuel total (done + chunk) (ground arith) in
      (
        (if ltb (total - done) chunk then total - done else chunk) ∷ ns,
        rw (e, r) refl,
        (ground (arith, split.0), (ground arith, split.1)),
      )
]

-- Without a cancellation burnFor ends within its fuel, in chunks of at most 2000 iterations that
-- add up to exactly the iterations asked for.
pub burn_for-IsSplit :
    (total : ℕ) → (ns : List ℕ) × (burn_for (λ d. false) total ≡ some ns) × IsSplit total ns
unfolding burn_for
burn_for-IsSplit total =
    let (ns, r, split) = burn_loop-IsSplit (suc total) total 0 (omega arith) in
    (ns, r, (omega (arith, split.0), split.1))
