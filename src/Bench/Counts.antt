-- ===== src/Bench/Counts.antt =====
-- TenantCounts against counting the results of one tenant.
use distributed_task_queue_s.Prelude.{
  ℕ, suc, ◌+◌, ◌≡◌, ◌⊎◌, refl, inl, inr, true, false, Bool-cases, ◌||◌, is_some, List, [], ◌∷◌,
  Text, text_eq, text_eq_iff, lookup, insert, lookup-insert, get_or, if◌then◌else◌, arith,
}
use distributed_task_queue_s.Domain.Result.{Result}
use distributed_task_queue_s.Process.Calls.{has}
use distributed_task_queue_s.Bench.{seed_counts, count_results, tenant_counts}

-- The results of a tenant, one by one.
unfoldable pub results_of : Text → List Result → ℕ
results_of t [] = 0
results_of t (r ∷ rs) =
    let rest = results_of t rs in if text_eq r.tenant_id t then suc rest else rest

get_or-count_results :
    (t : Text) (rs : List Result) (out : List (Text × ℕ))
    → get_or (lookup t (count_results rs out)) 0 ≡ results_of t rs + get_or (lookup t out) 0
unfolding count_results results_of
get_or-count_results t [] out = omega arith
get_or-count_results t (r ∷ rs) out = ground (
  arith,
  get_or-count_results t rs (insert r.tenant_id (suc (get_or (lookup r.tenant_id out) 0)) out),
  lookup-insert r.tenant_id t (suc (get_or (lookup r.tenant_id out) 0)) out,
  text_eq_iff r.tenant_id t,
)

is_some-count_results :
    (t : Text) (rs : List Result) (out : List (Text × ℕ))
    → is_some (lookup t out) ≡ true
    → is_some (lookup t (count_results rs out)) ≡ true
unfolding count_results
is_some-count_results t [] out h = h
is_some-count_results t (r ∷ rs) out h =
    is_some-count_results t rs _
      (ground (arith, h, lookup-insert r.tenant_id t (suc (get_or (lookup r.tenant_id out) 0)) out))

get_or-seed_counts :
    (t : Text) (ts : List Text) (out : List (Text × ℕ))
    → get_or (lookup t out) 0 ≡ 0
    → get_or (lookup t (seed_counts ts out)) 0 ≡ 0
unfolding seed_counts
get_or-seed_counts t [] out h = h
get_or-seed_counts t (u ∷ ts) out h =
    get_or-seed_counts t ts _ (ground (arith, h, lookup-insert u t 0 out))

is_some-seed_counts :
    (t : Text) (ts : List Text) (out : List (Text × ℕ))
    → (is_some (lookup t out) || has t ts) ≡ true
    → is_some (lookup t (seed_counts ts out)) ≡ true
unfolding seed_counts has
is_some-seed_counts t [] out h = ground (arith, h)
is_some-seed_counts t (u ∷ ts) out h =
    is_some-seed_counts t ts _ (ground (arith, h, lookup-insert u t 0 out))

lookup-nothing : (t : Text) → get_or (lookup {V = ℕ} t []) 0 ≡ 0
unfolding lookup
lookup-nothing t = refl

-- TenantCounts gives every tenant the number of its results, and has an entry for each listed
-- tenant, so that one that got nothing appears with a zero.
pub tenant_counts-results_of :
    (rs : List Result) (tenants : List Text) (t : Text)
    → (get_or (lookup t (tenant_counts rs tenants)) 0 ≡ results_of t rs)
      × ((has t tenants ≡ false) ⊎ (is_some (lookup t (tenant_counts rs tenants)) ≡ true))
unfolding tenant_counts
tenant_counts-results_of rs tenants t = (
  omega (
    arith,
    get_or-count_results t rs (seed_counts tenants []),
    get_or-seed_counts t tenants [] (lookup-nothing t),
  ),
  elim (Bool-cases (has t tenants)) [
    | inr e ↦ inl e
    | inl e ↦ inr (
        is_some-count_results t rs (seed_counts tenants [])
          (is_some-seed_counts t tenants [] (ground (arith, e))))
  ],
)
