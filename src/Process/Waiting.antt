-- ===== src/Process/Waiting.antt =====
-- Ping, WaitReady and EnsureStreams of internal/broker/broker.go: a process waits for Redis, then
-- creates what it reads from. What each attempt meets is an argument.
use distributed_task_queue_s.Prelude.{
  ◌*◌, ◌≡◌, ◌≢◌, inl, inr, Bool, true, false, Bool-cases, List, [], ◌∷◌, length, ℤ, pos, ◌+ℤ◌,
  +ℤ_parts, ◌*ℤ◌, negsuc, ◌≤ℤ◌, ◌<ℤ◌, leb_ℤ, ltb_ℤ, if◌then◌else◌, arith,
}
use distributed_task_queue_s.Domain.Time.{Time, after}

-- One attempt: whether the ping is answered, whether the context has ended, the time after it, and
-- whether the context ends during the sleep.
pub record Attempt : Type 0 where
  pub reached : Bool
  pub ended : Bool
  pub now : Time
  pub interrupted : Bool

pub data Waited : Type 0 where
  reachable interrupted unreachable waiting : Waited

abbrev pub first_backoff : ℤ
first_backoff = pos 100000000

abbrev pub max_backoff : ℤ
max_backoff = pos 3000000000

unfoldable pub next_backoff : ℤ → ℤ
next_backoff b =
    let doubled = b *ℤ pos 2 in
    if ltb_ℤ b max_backoff then if ltb_ℤ max_backoff doubled then max_backoff else doubled else b

-- The loop of WaitReady; `waiting` if it goes on behind the attempts given.
unfoldable pub wait_loop : Time → ℤ → List Attempt → Waited
unfolding next_backoff
wait_loop deadline backoff [] = waiting
wait_loop deadline backoff (a ∷ rest) =
    let later = wait_loop deadline (next_backoff backoff) rest in
    if a.reached
    then reachable
    else if a.ended
    then interrupted
    else if after a.now deadline
    then unreachable
    else if a.interrupted
    then interrupted
    else later

-- Without a timeout it is one ping.
unfoldable pub wait_ready : Time → ℤ → Bool → List Attempt → Waited
unfolding wait_loop
wait_ready start timeout ping rest =
    if leb_ℤ timeout (pos 0)
    then if ping then reachable else unreachable
    else wait_loop (start +ℤ timeout) first_backoff rest

-- What the creation of a consumer group meets; a group that exists is as good as a new one.
pub data Grouped : Type 0 where
  created busy_group refused : Grouped

abbrev pub is_refused : Grouped → Bool
is_refused created = false
is_refused busy_group = false
is_refused refused = true

-- Whether both groups exist afterwards.
unfoldable pub ensure_streams : Grouped → Grouped → Bool
ensure_streams ingress exec =
    if is_refused ingress then false else if is_refused exec then false else true

-- A timer sleeps at least as long as it is told to.
unfoldable pub IsPaced : Time → ℤ → List Attempt → Type 0
IsPaced t backoff [] = Unit
IsPaced t backoff (a ∷ rest) = (t ≤ℤ a.now) × IsPaced (a.now +ℤ backoff) (next_backoff backoff) rest

-- No pause is shorter than the first or longer than the longest.
next_backoff_bounds :
    (b : ℤ)
    → first_backoff ≤ℤ b
    → b ≤ℤ max_backoff
    → (first_backoff ≤ℤ next_backoff b) × (next_backoff b ≤ℤ max_backoff)
unfolding next_backoff ◌*ℤ◌
next_backoff_bounds (pos b) p q = (ground (arith, p, q), ground (arith, p, q))
next_backoff_bounds (negsuc b) p q = absurd (omega (arith, p))

-- An attempt that goes on has not passed the deadline.
attempt_ends :
    (deadline : Time) (backoff : ℤ) (a : Attempt) (rest : List Attempt)
    → (after a.now deadline ≡ false → wait_loop deadline (next_backoff backoff) rest ≢ waiting)
    → wait_loop deadline backoff (a ∷ rest) ≢ waiting
unfolding wait_loop
attempt_ends deadline backoff a rest h = elim (Bool-cases a.reached) [
  | inl e ↦ rw e λ z. cc
  | inr e ↦ elim (Bool-cases a.ended) [
    | inl f ↦ rw (e, f) λ z. cc
    | inr f ↦ elim (Bool-cases (after a.now deadline)) [
      | inl g ↦ rw (e, f, g) λ z. cc
      | inr g ↦ elim (Bool-cases a.interrupted) [
        | inl i ↦ rw (e, f, g, i) λ z. cc
        | inr i ↦ rw (e, f, g, i) (h g)
      ]
    ]
  ]
]

not_after : (a b : Time) → after a b ≡ false → a ≤ℤ b
unfolding after
not_after a b h = ground (arith, h)

wait_loop-ends :
    (deadline t : Time) (backoff : ℤ) (a : Attempt) (rest : List Attempt)
    → first_backoff ≤ℤ backoff
    → backoff ≤ℤ max_backoff
    → IsPaced t backoff (a ∷ rest)
    → deadline <ℤ t +ℤ pos (length rest * 100000000)
    → wait_loop deadline backoff (a ∷ rest) ≢ waiting
unfolding IsPaced
wait_loop-ends deadline t backoff a [] p q h l =
    attempt_ends deadline backoff a []
      λ e. absurd (omega (arith, not_after a.now deadline e, h.0, l, +ℤ_parts t (pos 0)))
wait_loop-ends deadline t backoff a (b ∷ rest) p q h l =
    attempt_ends deadline backoff a (b ∷ rest) λ e.
      let (low, high) = next_backoff_bounds backoff p q in
      wait_loop-ends deadline (a.now +ℤ backoff) (next_backoff backoff) b rest low high h.1 (
        omega (
          arith,
          h.0,
          p,
          l,
          +ℤ_parts t (pos (length (b ∷ rest) * 100000000)),
          +ℤ_parts a.now backoff,
          +ℤ_parts (a.now +ℤ backoff) (pos (length rest * 100000000)),
        ))

-- The wait is bounded: on a clock whose sleeps are at least as long as asked, once the attempts
-- behind the first, at a tenth of a second each, add up to more than the timeout, WaitReady has
-- returned: Redis answered, the context ended, or the deadline passed.
pub wait_ready-ends :
    (start : Time) (timeout : ℤ) (ping : Bool) (a : Attempt) (rest : List Attempt)
    → IsPaced start first_backoff (a ∷ rest)
    → timeout <ℤ pos (length rest * 100000000)
    → wait_ready start timeout ping (a ∷ rest) ≢ waiting
unfolding wait_ready
wait_ready-ends start timeout ping a rest h l = elim (Bool-cases (leb_ℤ timeout (pos 0))) [
  | inl e ↦ elim (Bool-cases ping) [ inl f ↦ rw (e, f) λ z. cc | inr f ↦ rw (e, f) λ z. cc ]
  | inr e ↦ rw e (
      wait_loop-ends (start +ℤ timeout) start first_backoff a rest (omega arith) (omega arith) h
        (omega (arith, l, +ℤ_parts start timeout, +ℤ_parts start (pos (length rest * 100000000)))))
]
