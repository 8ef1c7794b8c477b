-- ===== src/Tests/Memory.antt =====
-- A store in memory satisfies the laws of Env/Redis.antt.
use distributed_task_queue_s.Prelude.{
  ◌≡◌, refl, ap, ◌∙◌, inl, inr, Bool, true, false, Option, none, some, List, [], ◌∷◌, ◌++◌, Text,
  text_eq, text_eq_iff, text_eq_refl, All, ℤ, pos, ◌+ℤ◌, ◌-ℤ◌, lookup, insert, remove,
  lookup-insert, lookup-remove, is_some, get_or, if◌then◌else◌, arith, Option-cases, Bool-cases,
}
use distributed_task_queue_s.Env.Redis.{Redis}
use distributed_task_queue_s.Policy.Key.{Key, less}
use distributed_task_queue_s.Policy.Order.{less_irrefl, less_trans, less_total}
use distributed_task_queue_s.Tests.Numbers.{integers}

pub record Log (V : Type 0) : Type 0 where
  pub kept : List V
  pub waiting : List Text

abbrev pub Scores : Type 0
Scores = List (Text × ℤ)

-- The lesser of two keys.
abbrev pub lesser : Key → Option Key → Key
lesser k none = k
lesser k (some j) = if less j k then j else k

-- The least key among some members of `z`.
unfoldable pub least : Scores → Scores → Option Key
least z [] = none
least z ((m, _) ∷ ms) = elim (lookup m z) [
  | none ↦ least z ms
  | some x ↦ some (lesser (record { score = x; member = m }) (least z ms))
]

abbrev pub pop : Scores → Option (Key × Scores)
pop z = elim (least z z) [ none ↦ none | some k ↦ some (k, remove k.member z) ]

not_less_trans : (i j k : Key) → less j i ≡ false → less k j ≡ false → less k i ≡ false
not_less_trans i j k p q =
    ground (arith, less_total i j, less_total j k, less_trans k i j, less_trans j k i)

not_less_of_less : (i j : Key) → less i j ≡ true → less j i ≡ false
not_less_of_less i j h = ground (arith, less_trans i j i, less_irrefl i)

least_score : (z ms : Scores) (k : Key) → least z ms ≡ some k → lookup k.member z ≡ some k.score
unfolding least
least_score z [] k e = cc
least_score z ((m, w) ∷ ms) k e = ground (arith, least_score z ms k)

lesser_self : (j : Key) (r : Option Key) → less j (lesser j r) ≡ false
lesser_self j none = less_irrefl j
lesser_self j (some i) = ground (arith, not_less_of_less i j, less_irrefl j)

lesser_under : (j k i : Key) → less j k ≡ false → less j (lesser i (some k)) ≡ false
lesser_under j k i h = ground (arith, not_less_trans i k j, h)

least_at :
    (z : Scores) (j : Key) (w : ℤ) (ms : Scores)
    → lookup j.member z ≡ some j.score
    → least z ((j.member, w) ∷ ms) ≡ some (lesser j (least z ms))
unfolding least
least_at z j w ms h = rw (least, h)

least_head :
    (z : Scores) (m : Text) (w : ℤ) (ms : Scores) (j : Key)
    → m ≡ j.member
    → lookup j.member z ≡ some j.score
    → least z ((m, w) ∷ ms) ≡ some (lesser j (least z ms))
least_head z m w ms j own h = ap (λ n. least z ((n, w) ∷ ms)) own ∙ least_at z j w ms h

least_le :
    (z ms : Scores) (j : Key)
    → lookup j.member z ≡ some j.score
    → is_some (lookup j.member ms) ≡ true
    → (k : Key) × (least z ms ≡ some k) × (less j k ≡ false)
unfolding least lookup
least_le z [] j h p = cc
least_le z ((m, w) ∷ ms) j h p = elim (Bool-cases (text_eq m j.member)) [
  | inl same ↦
      let own : m ≡ j.member = (text_eq_iff m j.member).0 same in
      (lesser j (least z ms), least_head z m w ms j own h, lesser_self j (least z ms))
  | inr other ↦
      let (k, e, l) = least_le z ms j h (rw other at p) in
      elim (Option-cases (lookup m z)) [
        | inl g ↦ (k, rw (g, least) e, l)
        | inr (x, g) ↦
            let i : Key = record { score = x; member = m } in
            (lesser i (some k), rw (g, least, e), lesser_under j k i l)
      ]
]

pub pop_score :
    (z : Scores) (k : Key) (rest : Scores)
    → pop z ≡ some (k, rest)
    → lookup k.member z ≡ some k.score
pop_score z k rest e = ground (arith, least_score z z k)

pub pop_least :
    (z : Scores) (k : Key) (rest : Scores)
    → pop z ≡ some (k, rest)
    → (j : Key) → lookup j.member z ≡ some j.score
    → less j k ≡ false
pop_least z k rest e j h = let (i, f, l) = least_le z z j h (rw h refl) in ground (arith, f, l)

pub pop_rest :
    (z : Scores) (k : Key) (rest : Scores)
    → pop z ≡ some (k, rest)
    → (m : Text) → lookup m rest ≡ (if text_eq k.member m then none else lookup m z)
pop_rest z k rest e m = ground (arith, lookup-remove k.member m z)

pub pop_empty : (z : Scores) → pop z ≡ none → (m : Text) → lookup m z ≡ none
pop_empty z e m = elim (Option-cases (lookup m z)) [
  | inl g ↦ g
  | inr (x, g) ↦
      let (i, f, l) = least_le z z (record { score = x; member = m }) g (rw g refl) in
      ground (arith, f)
]

pub lookup-nil : {V : Type 0} (f : Text) → lookup {V = V} f [] ≡ none
unfolding lookup
lookup-nil f = refl

-- The entries that a lookup finds.
unfoldable pub firsts : {V : Type 0} → List (Text × V) → List (Text × V)
firsts [] = []
firsts ((f, v) ∷ h) = (f, v) ∷ remove f (firsts h)

lookup-firsts : {V : Type 0} (f : Text) (h : List (Text × V)) → lookup f (firsts h) ≡ lookup f h
unfolding firsts lookup
lookup-firsts f [] = refl
lookup-firsts f ((g, v) ∷ h) = ground (arith, lookup-remove g f (firsts h), lookup-firsts f h)

All_remove :
    {V : Type 0} (f : Text) (v : V) (h m : List (Text × V))
    → All (λ e. lookup e.0 h ≡ some e.1) m
    → All (λ e. lookup e.0 ((f, v) ∷ h) ≡ some e.1) (remove f m)
unfolding remove lookup
All_remove f v h [] a = tt
All_remove f v h ((g, x) ∷ m) a = elim (Bool-cases (text_eq g f)) [
  | inl e ↦ rw e (All_remove f v h m a.1)
  | inr e ↦ rw e (ground (arith, e, text_eq_iff g f, text_eq_iff f g, a.0), All_remove f v h m a.1)
]

pub firsts_sound :
    {V : Type 0} (h : List (Text × V)) → All (λ e. lookup e.0 h ≡ some e.1) (firsts h)
unfolding firsts lookup
firsts_sound [] = tt
firsts_sound ((f, v) ∷ h) = (rw (text_eq_refl f) refl, All_remove f v h (firsts h) (firsts_sound h))

pub firsts_complete :
    {V : Type 0} (h : List (Text × V)) (f : Text)
    → is_some (lookup f h) ≡ true
    → is_some (lookup f (firsts h)) ≡ true
firsts_complete h f e = rw (lookup-firsts f h) e

-- Whether an entry is unacknowledged.
abbrev pub mem : Text → List Text → Bool
mem id [] = false
mem id (j ∷ js) = if text_eq j id then true else mem id js

abbrev pub without : Text → List Text → List Text
without id [] = []
without id (j ∷ js) = if text_eq j id then without id js else j ∷ without id js

pub mem-without :
    (id j : Text) (js : List Text)
    → mem j (without id js) ≡ (if text_eq id j then false else mem j js)
mem-without id j [] = ground arith
mem-without id j (k ∷ js) =
    ground (arith, text_eq_iff k id, text_eq_iff k j, text_eq_iff id j, mem-without id j js)

abbrev pub count_of : Option ℤ → ℤ
count_of c = get_or c (pos 0)

instance abbrev pub memory : Redis
memory = record {
  Cell = Option;
  no_cell = none;
  get = λ c. c;
  set = λ c v. some v;
  incr = λ c. some (count_of c +ℤ pos 1);
  decr = λ c. some (count_of c -ℤ pos 1);
  get-no_cell = refl;
  get-set = λ c v. refl;
  get-incr = λ c. refl;
  get-decr = λ c. refl;
  Hash = λ V. List (Text × V);
  no_hash = [];
  hget = λ h f. lookup f h;
  hset = λ h f v. insert f v h;
  hdel = λ h f. remove f h;
  hincrby = λ h f n. insert f (count_of (lookup f h) +ℤ n) h;
  hget-no_hash = lookup-nil;
  hget-hset = λ h f v g. lookup-insert f g v h;
  hget-hdel = λ h f g. lookup-remove f g h;
  hget-hincrby = λ h f n g. lookup-insert f g _ h;
  hgetall = firsts;
  hgetall_sound = firsts_sound;
  hgetall_complete = firsts_complete;
  ZSet = Scores;
  no_zset = [];
  zscore = λ z m. lookup m z;
  zadd = λ z x m. insert m x z;
  zrem = λ z m. remove m z;
  zpopmin = pop;
  zscore-no_zset = lookup-nil;
  zscore-zadd = λ z x m n. lookup-insert m n x z;
  zscore-zrem = λ z m n. lookup-remove m n z;
  zpopmin_empty = pop_empty;
  zpopmin_score = pop_score;
  zpopmin_least = pop_least;
  zpopmin_rest = pop_rest;
  Stream = Log;
  no_stream = record { kept = []; waiting = [] };
  entries = λ s. s.kept;
  xadd = λ s n v. record s { kept = s.kept ++ v ∷ [] };
  xack = λ s id. record s { waiting = without id s.waiting };
  unacked = λ s id. mem id s.waiting;
  entries-no_stream = refl;
  entries-xadd = λ s v. refl;
  entries-xadd_trim = λ s n v. ([], refl);
  entries-xack = λ s id. refl;
  unacked-xadd = λ s n v id. refl;
  unacked-xack = λ s id j. mem-without id j s.waiting;
}
