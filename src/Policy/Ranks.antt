-- ===== src/Policy/Ranks.antt =====
-- The orders that the stateless policies of internal/scheduler/{fifo,priority,edf} give.
use distributed_task_queue_s.Prelude.{
  ℕ, ◌+◌, ◌-◌, ◌*◌, ◌^◌, ◌≤◌, ◌<◌, ◌≡◌, true, false, ℤ, pos, pos--, pos-*, pos-+, ◌==◌, ltb, ltb_ℤ,
  if◌then◌else◌, arith, text_ltb, ◌||◌,
}
use distributed_task_queue_s.Env.Float.{Float64, IsExact}
use distributed_task_queue_s.Domain.Task.{Task, submitted_at_millis, deadline_millis}
use distributed_task_queue_s.Policy.Key.{Key, less}
use distributed_task_queue_s.Policy.Member.{earlier, text_ltb-member_for}
use distributed_task_queue_s.Policy.Fifo
use distributed_task_queue_s.Policy.Priority
use distributed_task_queue_s.Policy.Priority.{clamped, band_width}
use distributed_task_queue_s.Policy.Edf
use distributed_task_queue_s.Policy.Edf.{no_deadline_score}

module _ ⦃fl : Float64⦄ where
  -- Keys whose scores are exact integers.
  less-of_int :
      (j k : Key) (a b : ℤ)
      → j.score ≡ fl.of_int a
      → k.score ≡ fl.of_int b
      → IsExact a
      → IsExact b
      → less j k ≡ (if ltb_ℤ a b || ltb_ℤ b a then ltb_ℤ a b else text_ltb j.member k.member)
  unfolding less
  less-of_int j k a b p q ha hb = rw (p, q, fl.ltf-of_int a b ha hb, fl.ltf-of_int b a hb ha)

  clamped_lem : (t : Task) (p : ℕ) → t.priority ≡ pos p → p ≤ 255 → clamped t ≡ pos p
  unfolding clamped
  clamped_lem t p e h = ground arith

  -- The score that packs a priority `p` and a submission time `m`, exactly.
  abbrev packed : ℕ → ℕ → ℤ
  packed p m = pos ((255 - p) * 10000000000000 + m)

  priority_score :
      (t : Task) (p m : ℕ)
      → t.priority ≡ pos p
      → p ≤ 255
      → submitted_at_millis t ≡ pos m
      → m < 10 ^ 13
      → (Priority.rank t).score ≡ fl.of_int (packed p m)
  unfolding Priority.rank
  priority_score t p m et hp em hm = rw (
    clamped_lem t p et hp,
    em,
    pos-- 255 p hp,
    fl.mulf-of_int (pos (255 - p)) band_width (omega arith) (omega arith) (rw pos-* (omega arith)),
    pos-* (255 - p) 10000000000000,
    fl.addf-of_int (pos ((255 - p) * 10000000000000)) (pos m) (omega arith) (omega arith)
        (rw pos-+ (omega arith)),
    pos-+ ((255 - p) * 10000000000000) m,
  )

  -- The score that a deadline of `d` milliseconds gives.
  abbrev due : ℕ → ℤ
  due d = if d == 0 then no_deadline_score else pos d

  edf_score :
      (t : Task) (d : ℕ) → deadline_millis t ≡ pos d → (Edf.rank t).score ≡ fl.of_int (due d)
  unfolding Edf.rank
  edf_score t d e = rw e (ground arith)

  module _ (t u : Task) (m n : ℕ) (ht : submitted_at_millis t ≡ pos m)
      (hu : submitted_at_millis u ≡ pos n) (hm : m < 10 ^ 13) (hn : n < 10 ^ 13) where
    -- Of two tasks submitted from 1970 up to the year 2286, FIFO puts one first exactly when it was
    -- submitted in an earlier millisecond, or in the same one with a lower id.
    pub fifo_order : less (Fifo.rank t) (Fifo.rank u) ≡ earlier m n t u
    unfolding Fifo.rank
    fifo_order =
        rw
          (
            less-of_int (Fifo.rank t) (Fifo.rank u) (pos m) (pos n) (rw ht) (rw hu) (omega arith)
                (omega arith),
            text_ltb-member_for t u m n ht hu hm hn,
          )
          (ground arith)

    -- Of two tasks submitted from 1970 up to the year 2286 with priorities in 0..255, strict priority
    -- puts the one of the higher priority first, and orders tasks of one priority by submission
    -- time and then by id.
    pub priority_order :
        (p q : ℕ)
        → t.priority ≡ pos p
        → u.priority ≡ pos q
        → p ≤ 255
        → q ≤ 255
        → less (Priority.rank t) (Priority.rank u) ≡ (if p == q then earlier m n t u else ltb q p)
    unfolding Priority.rank
    priority_order p q et eu hp hq =
        rw
          (
            less-of_int (Priority.rank t) (Priority.rank u) (packed p m) (packed q n)
                (priority_score t p m et hp ht hm) (priority_score u q n eu hq hu hn) (omega arith)
                (omega arith),
            text_ltb-member_for t u m n ht hu hm hn,
          )
          (ground arith)

    -- Of two tasks submitted from 1970 up to the year 2286 with deadlines of 0 (none) up to 10^15
    -- milliseconds, EDF puts the one of the earlier deadline first, a task with no deadline after
    -- every task that has one, and orders by submission time and then by id where they agree.
    pub edf_order :
        (d e : ℕ)
        → deadline_millis t ≡ pos d
        → deadline_millis u ≡ pos e
        → d < 10 ^ 15
        → e < 10 ^ 15
        → less (Edf.rank t) (Edf.rank u) ≡ (
            if d == e
            then earlier m n t u
            else if d == 0
            then false
            else if e == 0
            then true
            else ltb d e)
    unfolding Edf.rank
    edf_order d e et eu hd he =
        rw
          (
            less-of_int (Edf.rank t) (Edf.rank u) (due d) (due e) (edf_score t d et)
                (edf_score u e eu) (ground arith) (ground arith),
            text_ltb-member_for t u m n ht hu hm hn,
          )
          (ground arith)
