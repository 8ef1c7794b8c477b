-- ===== src/Broker/Guard.antt =====
-- fenceGuard of internal/broker/scripts.go: when a write is refused, and what becomes of the floor.
use distributed_task_queue_s.Prelude.{
  ◌≡◌, refl, Bool, true, false, ◌⊎◌, inl, inr, Bool-cases, ℤ, pos, ◌≤ℤ◌, ◌<ℤ◌, ltb_ℤ, leb_ℤ,
  if◌then◌else◌, arith, eq_of_parts,
}
use distributed_task_queue_s.Env.Float.{Float64}
use distributed_task_queue_s.Env.Redis.{Redis}
use distributed_task_queue_s.Broker.Store.{Store}
use distributed_task_queue_s.Broker.Scripts.{
  Reply, reply, fenced_error, get_counter, fenced, guarded,
}

module _ ⦃fl : Float64⦄ ⦃redis : Redis⦄ where
  open redis use {Cell, get, set, get-set}

  -- The highest epoch that has written.
  abbrev pub floor : Store → ℤ
  floor s = get_counter s.fence

  -- An epoch of an election term that a newer term has superseded.
  abbrev pub Superseded : ℤ → Store → Type 0
  Superseded epoch s = (pos 0 <ℤ epoch) × (epoch <ℤ floor s)

  -- The floor `c` that the guard leaves when it lets a write through: untouched without an
  -- election, and the writer's own epoch otherwise.
  abbrev pub Entered : ℤ → Store → Cell ℤ → Type 0
  Entered epoch s c =
      ((epoch ≤ℤ pos 0) × (c ≡ s.fence))
      ⊎ ((pos 0 <ℤ epoch) × (floor s ≤ℤ epoch) × (get_counter c ≡ epoch))

  raised :
      (c : Cell ℤ) (epoch : ℤ) (b : Bool)
      → ltb_ℤ (get_counter c) epoch ≡ b
      → ltb_ℤ epoch (get_counter c) ≡ false
      → get_counter (if b then set c epoch else c) ≡ epoch
  raised c epoch true e h = rw (get-set c epoch)
  raised c epoch false e h = eq_of_parts (get_counter c) epoch (ground arith)

  -- What a guarded script does: refuse a superseded epoch and change nothing, or run its body.
  pub guarded_cases {ℓ κ} :
      {A : Type ℓ} (P : Store × Reply A → Type κ) (epoch : ℤ) (body : Store → Store × Reply A)
      (s : Store)
      → (Superseded epoch s → P (s, fenced_error))
      → ((c : Cell ℤ) → Entered epoch s c → P (body (record s { fence = c })))
      → P (guarded epoch body s)
  unfolding guarded fenced
  guarded_cases P epoch body s no_entry entry = elim (Bool-cases (leb_ℤ epoch (pos 0))) [
    | inl low ↦ rw low (entry s.fence (inl (ground arith, refl)))
    | inr high ↦ elim (Bool-cases (ltb_ℤ epoch (floor s))) [
      | inl old ↦ rw (high, old) (no_entry (ground arith, ground arith))
      | inr fresh ↦
          rw (high, fresh)
            (entry _ (inr (ground arith, ground arith, raised s.fence epoch _ refl fresh)))
    ]
  ]

  -- A write under a superseded epoch is refused and changes nothing, whatever the script does.
  pub guarded-Superseded {ℓ} :
      {A : Type ℓ} (epoch : ℤ) (body : Store → Store × Reply A) (s : Store)
      → Superseded epoch s
      → guarded epoch body s ≡ (s, fenced_error)
  unfolding guarded fenced
  guarded-Superseded epoch body s (p, q) = ground arith

  -- A write that the guard lets through never lowers the floor.
  pub Entered-floor :
      (epoch : ℤ) (s : Store) (c : Cell ℤ) → Entered epoch s c → floor s ≤ℤ get_counter c
  Entered-floor epoch s c (inl (p, e)) = rw e (omega arith)
  Entered-floor epoch s c (inr (p, q, e)) = rw e q

  -- A guarded script that replies has run its body on the store with the new floor.
  pub guarded_reply {ℓ} :
      {A : Type ℓ} (epoch : ℤ) (body : Store → Store × Reply A) (s s' : Store) (a : A)
      → guarded epoch body s ≡ (s', reply a)
      → (c : Cell ℤ) × Entered epoch s c × (body (record s { fence = c }) ≡ (s', reply a))
  guarded_reply epoch body s s' a =
      guarded_cases
        (λ r.
          r ≡ (s', reply a)
          → (c : Cell ℤ) × Entered epoch s c × (body (record s { fence = c }) ≡ (s', reply a)))
        epoch body s (λ _ e. cc) λ c h e. (c, h, e)
