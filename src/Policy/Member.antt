-- ===== src/Policy/Member.antt =====
-- The tie-break member of internal/scheduler/policy/policy.go: it gives the task id back, and its
-- byte order is the order of submission times and then of task ids.
use distributed_task_queue_s.Prelude.{
  ℕ, zero, suc, ◌+◌, ◌-◌, ◌/◌, ◌%◌, ◌^◌, ◌≤◌, ◌<◌, ◌≡◌, ◌≢◌, refl, ◌∙◌, ap, Bool, some, [], ◌∷◌,
  ◌++◌, All, Text, text_ltb, ℤ, pos, negsuc, ◌==◌, ltb, if◌then◌else◌, arith,
}
use native.Mathlib.Nat.{pow-suc}
use distributed_task_queue_s.Domain.Task.{Task, submitted_at_millis}
use distributed_task_queue_s.Policy.Key.{digits, zero_padded, member_for, task_id_from_member}

-- No byte is the separator.
abbrev pub Clean : Text → Type 0
Clean = All (λ c. c ≢ b'|')

digits-Clean : (fuel width n : ℕ) (acc : Text) → Clean acc → Clean (digits fuel width n acc)
unfolding digits
digits-Clean zero width n acc h = h
digits-Clean (suc fuel) width n acc h =
    ground (arith, digits-Clean fuel (width - 1) (n / 10) ((48 + n % 10) ∷ acc))

pub zero_padded-Clean : (width : ℕ) (a : ℤ) → Clean (zero_padded width a)
unfolding zero_padded
zero_padded-Clean width (pos n) = digits-Clean (width + n) width n [] tt
zero_padded-Clean width (negsuc n) =
    (omega arith, digits-Clean (width + suc n) (width - 1) (suc n) [] tt)

task_id-append : (s id : Text) → Clean s → task_id_from_member (s ++ b'|' ∷ id) ≡ some id
unfolding task_id_from_member
task_id-append [] id h = refl
task_id-append (c ∷ s) id h = ground (arith, task_id-append s id h.1)

-- The member of any task gives the task's id back, also when the id holds the separator itself.
pub task_id_from_member-member_for : (t : Task) → task_id_from_member (member_for t) ≡ some t.id
unfolding member_for
task_id_from_member-member_for t =
    task_id-append (zero_padded 13 (submitted_at_millis t)) t.id
      (zero_padded-Clean 13 (submitted_at_millis t))

-- The last `width` digits of `n`, put before `acc`.
padded : ℕ → ℕ → Text → Text
padded zero n acc = acc
padded (suc width) n acc = padded width (n / 10) ((48 + n % 10) ∷ acc)

digits-padded :
    (fuel width n : ℕ) (acc : Text)
    → width ≤ fuel
    → n < 10 ^ width
    → digits fuel width n acc ≡ padded width n acc
unfolding digits padded
digits-padded zero zero n acc h k = refl
digits-padded zero (suc width) n acc h k = absurd (omega arith)
digits-padded (suc fuel) zero n acc h k = ground arith
digits-padded (suc fuel) (suc width) n acc h k =
    ground (arith, pow-suc 10 width, digits-padded fuel width (n / 10) ((48 + n % 10) ∷ acc))

padded-append :
    (width n : ℕ) (acc rest : Text) → padded width n acc ++ rest ≡ padded width n (acc ++ rest)
unfolding padded
padded-append zero n acc rest = refl
padded-append (suc width) n acc rest = padded-append width (n / 10) ((48 + n % 10) ∷ acc) rest

zero_padded-append :
    (width n : ℕ) (rest : Text)
    → n < 10 ^ width
    → zero_padded width (pos n) ++ rest ≡ padded width n rest
unfolding zero_padded
zero_padded-append width n rest h =
    ap (λ s. s ++ rest) (digits-padded (width + n) width n [] (omega arith) h)
    ∙ padded-append width n [] rest

-- The last digit decides where the others agree.
last_digit :
    (a b : ℕ) (s t : Text)
    → (if a / 10 == b / 10
        then text_ltb ((48 + a % 10) ∷ s) ((48 + b % 10) ∷ t)
        else ltb (a / 10) (b / 10))
      ≡ (if a == b then text_ltb s t else ltb a b)
unfolding text_ltb
last_digit a b s t = ground arith

-- Digits of one width compare like numbers.
text_ltb-padded :
    (width a b : ℕ) (s t : Text)
    → a < 10 ^ width
    → b < 10 ^ width
    → text_ltb (padded width a s) (padded width b t) ≡ (if a == b then text_ltb s t else ltb a b)
unfolding padded
text_ltb-padded zero a b s t ha hb = ground arith
text_ltb-padded (suc width) a b s t ha hb =
    text_ltb-padded width (a / 10) (b / 10) _ _ (omega (arith, pow-suc 10 width))
      (omega (arith, pow-suc 10 width))
    ∙ last_digit a b s t

-- The first task was submitted in an earlier millisecond, or in the same one and its id is lower.
abbrev pub earlier : ℕ → ℕ → Task → Task → Bool
earlier m n t u = if m == n then text_ltb t.id u.id else ltb m n

-- Two tasks submitted from 1970 up to the year 2286: their members are in the byte order that
-- Redis and Go share exactly when the first was submitted in an earlier millisecond, or in the
-- same one and its id comes first.
pub text_ltb-member_for :
    (t u : Task) (m n : ℕ)
    → submitted_at_millis t ≡ pos m
    → submitted_at_millis u ≡ pos n
    → m < 10 ^ 13
    → n < 10 ^ 13
    → text_ltb (member_for t) (member_for u) ≡ earlier m n t u
unfolding member_for text_ltb
text_ltb-member_for t u m n p q hm hn = rw (
  p,
  q,
  zero_padded-append 13 m (b'|' ∷ t.id) hm,
  zero_padded-append 13 n (b'|' ∷ u.id) hn,
  text_ltb-padded 13 m n (b'|' ∷ t.id) (b'|' ∷ u.id) hm hn,
)
