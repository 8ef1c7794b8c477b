-- ===== src/Env/Redis.antt =====
-- The Redis data types that the broker and the lease use, as operations with the laws that the
-- Redis documentation gives. A value that a key does not hold is the empty one of its type. Numbers
-- that Redis keeps as text stand as numbers here; FormatFloat with 17 digits loses nothing.
use distributed_task_queue_s.Prelude.{
  ℕ, ◌≡◌, Bool, true, false, Option, none, some, List, [], ◌∷◌, ◌++◌, ℤ, pos, ◌+ℤ◌, ◌-ℤ◌, Text,
  text_eq, if◌then◌else◌, get_or, is_some, lookup, All,
}
use distributed_task_queue_s.Env.Float.{Float64}
use distributed_task_queue_s.Policy.Key.{Key, less}

pub record Redis ⦃fl : Float64⦄ : Type 1 where
  -- Strings: GET, SET, DEL, INCR, DECR. INCR and DECR count a missing key as 0.
  pub Cell : Type 0 → Type 0
  pub no_cell : {V : Type 0} → Cell V
  pub get : {V : Type 0} → Cell V → Option V
  pub set : {V : Type 0} → Cell V → V → Cell V
  pub incr : Cell ℤ → Cell ℤ
  pub decr : Cell ℤ → Cell ℤ
  pub get-no_cell : {V : Type 0} → get (no_cell {V = V}) ≡ none
  pub get-set : {V : Type 0} (c : Cell V) (v : V) → get (set c v) ≡ some v
  pub get-incr : (c : Cell ℤ) → get (incr c) ≡ some (get_or (get c) (pos 0) +ℤ pos 1)
  pub get-decr : (c : Cell ℤ) → get (decr c) ≡ some (get_or (get c) (pos 0) -ℤ pos 1)
  -- Hashes: HGET, HSET, HDEL, HINCRBY.
  pub Hash : Type 0 → Type 0
  pub no_hash : {V : Type 0} → Hash V
  pub hget : {V : Type 0} → Hash V → Text → Option V
  pub hset : {V : Type 0} → Hash V → Text → V → Hash V
  pub hdel : {V : Type 0} → Hash V → Text → Hash V
  pub hincrby : Hash ℤ → Text → ℤ → Hash ℤ
  pub hget-no_hash : {V : Type 0} (f : Text) → hget (no_hash {V = V}) f ≡ none
  pub hget-hset :
      {V : Type 0} (h : Hash V) (f : Text) (v : V) (g : Text)
      → hget (hset h f v) g ≡ (if text_eq f g then some v else hget h g)
  pub hget-hdel :
      {V : Type 0} (h : Hash V) (f g : Text)
      → hget (hdel h f) g ≡ (if text_eq f g then none else hget h g)
  pub hget-hincrby :
      (h : Hash ℤ) (f : Text) (n : ℤ) (g : Text)
      → hget (hincrby h f n) g
        ≡ (if text_eq f g then some (get_or (hget h f) (pos 0) +ℤ n) else hget h g)
  -- HGETALL: each field once, in any order.
  pub hgetall : {V : Type 0} → Hash V → List (Text × V)
  pub hgetall_sound : {V : Type 0} (h : Hash V) → All (λ e. hget h e.0 ≡ some e.1) (hgetall h)
  pub hgetall_complete :
      {V : Type 0} (h : Hash V) (f : Text)
      → is_some (hget h f) ≡ true
      → is_some (lookup f (hgetall h)) ≡ true
  -- Sorted sets: ZSCORE, ZADD, ZREM, ZPOPMIN with a count of 1. The least member by score, and by
  -- bytes among equal scores, is popped.
  pub ZSet : Type 0
  pub no_zset : ZSet
  pub zscore : ZSet → Text → Option fl.F
  pub zadd : ZSet → fl.F → Text → ZSet
  pub zrem : ZSet → Text → ZSet
  pub zpopmin : ZSet → Option (Key × ZSet)
  pub zscore-no_zset : (m : Text) → zscore no_zset m ≡ none
  pub zscore-zadd :
      (z : ZSet) (x : fl.F) (m n : Text)
      → zscore (zadd z x m) n ≡ (if text_eq m n then some x else zscore z n)
  pub zscore-zrem :
      (z : ZSet) (m n : Text) → zscore (zrem z m) n ≡ (if text_eq m n then none else zscore z n)
  pub zpopmin_empty : (z : ZSet) → zpopmin z ≡ none → (m : Text) → zscore z m ≡ none
  pub zpopmin_score :
      (z : ZSet) (k : Key) (rest : ZSet)
      → zpopmin z ≡ some (k, rest)
      → zscore z k.member ≡ some k.score
  pub zpopmin_least :
      (z : ZSet) (k : Key) (rest : ZSet)
      → zpopmin z ≡ some (k, rest)
      → (j : Key) → zscore z j.member ≡ some j.score
      → less j k ≡ false
  pub zpopmin_rest :
      (z : ZSet) (k : Key) (rest : ZSet)
      → zpopmin z ≡ some (k, rest)
      → (m : Text) → zscore rest m ≡ (if text_eq k.member m then none else zscore z m)
  -- Streams with one consumer group: XADD with MAXLEN (0 for no trimming), XRANGE, XACK, and
  -- whether the group still waits for an acknowledgement of an entry.
  pub Stream : Type 0 → Type 0
  pub no_stream : {V : Type 0} → Stream V
  pub entries : {V : Type 0} → Stream V → List V
  pub xadd : {V : Type 0} → Stream V → ℕ → V → Stream V
  pub xack : {V : Type 0} → Stream V → Text → Stream V
  pub unacked : {V : Type 0} → Stream V → Text → Bool
  pub entries-no_stream : {V : Type 0} → entries (no_stream {V = V}) ≡ []
  pub entries-xadd :
      {V : Type 0} (s : Stream V) (v : V) → entries (xadd s 0 v) ≡ entries s ++ v ∷ []
  -- Trimming drops entries from the front only.
  pub entries-xadd_trim :
      {V : Type 0} (s : Stream V) (max_len : ℕ) (v : V)
      → (dropped : List V) × (dropped ++ entries (xadd s max_len v) ≡ entries s ++ v ∷ [])
  pub entries-xack : {V : Type 0} (s : Stream V) (id : Text) → entries (xack s id) ≡ entries s
  pub unacked-xadd :
      {V : Type 0} (s : Stream V) (max_len : ℕ) (v : V) (id : Text)
      → unacked (xadd s max_len v) id ≡ unacked s id
  pub unacked-xack :
      {V : Type 0} (s : Stream V) (id j : Text)
      → unacked (xack s id) j ≡ (if text_eq id j then false else unacked s j)
