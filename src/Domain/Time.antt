-- ===== src/Domain/Time.antt =====
-- time.Time as used by internal/domain: nanoseconds since the Unix epoch. The location and the
-- monotonic reading, which no code here compares, are left out.
use distributed_task_queue_s.Prelude.{
  ◌-◌, ◌*◌, ◌/◌, Bool, ℤ, pos, negsuc, ◌-ℤ◌, ltb_ℤ, leb_ℤ, ◌&&◌, if◌then◌else◌,
}

abbrev pub Time : Type 0
Time = ℤ

-- January 1 of the year 1, the zero value of time.Time.
abbrev pub zero_time : Time
zero_time = negsuc (62135596800 * 1000000000 - 1)

unfoldable pub is_zero : Time → Bool
is_zero t = leb_ℤ t zero_time && leb_ℤ zero_time t

-- Rounds down, before the epoch too.
unfoldable pub unix_milli : Time → ℤ
unix_milli (pos n) = pos (n / 1000000)
unix_milli (negsuc n) = negsuc (n / 1000000)

abbrev pub max_duration : ℤ
max_duration = pos 9223372036854775807

abbrev pub min_duration : ℤ
min_duration = negsuc 9223372036854775807

-- `a.Sub(b)`, which saturates at the ends of int64.
unfoldable pub sub : Time → Time → ℤ
sub a b =
    let d = a -ℤ b in
    if ltb_ℤ max_duration d then max_duration else if ltb_ℤ d min_duration then min_duration else d

-- `a.After(b)`.
unfoldable pub after : Time → Time → Bool
after a b = ltb_ℤ b a
