-- ===== src/Lease/Options.antt =====
-- New of internal/lease/lease.go: which options make a lease, and with which intervals. The logger
-- only passes through; the host name (`none` is an error) and the process id are parameters.
use distributed_task_queue_s.Prelude.{
  ℕ, suc, ◌/◌, ◌≡◌, refl, Bool, true, false, ◌||◌, ◌&&◌, not, Option, none, some, ◌∷◌, ◌++◌, Text,
  codes, ℤ, pos, negsuc, ltb_ℤ, leb_ℤ, ◌<ℤ◌, ◌≤ℤ◌, ◌-ℤ◌, if◌then◌else◌, arith,
}
use distributed_task_queue_s.Policy.Key.{zero_padded}
use distributed_task_queue_s.Config.Defaults.{is_blank}

pub record Options : Type 0 where
  pub connected : Bool
  pub holder : Text
  pub epoch : Text
  pub owner : Text
  pub ttl : ℤ
  pub renew : ℤ
  pub retry : ℤ
  pub wait_for_replicas : ℤ
  pub wait_timeout : ℤ

pub record Lease : Type 0 where
  pub holder : Text
  pub epoch : Text
  pub owner : Text
  pub ttl : ℤ
  pub renew : ℤ
  pub retry : ℤ
  pub wait_replicas : ℤ
  pub wait_timeout : ℤ

pub data Error : Type 0 where
  client_required keys_required ttl_not_positive renew_too_long wait_negative : Error

pub data Result : Type 0 where
  ok : Lease → Result
  err : Error → Result

-- `d / n` on a duration, which rounds towards zero.
unfoldable pub part : ℤ → ℕ → ℤ
part (pos d) n = pos (d / n)
part (negsuc d) n = pos 0 -ℤ pos (suc d / n)

-- A duration that is not positive takes the default.
abbrev pub positive_or : ℤ → ℤ → ℤ
positive_or d default = if leb_ℤ d (pos 0) then default else d

unfoldable pub default_owner : Option Text → ℕ → Text
default_owner none pid = codes "scheduler" ++ b'-' ∷ zero_padded 1 (pos pid)
default_owner (some host) pid =
    (if is_blank host then codes "scheduler" else host) ++ b'-' ∷ zero_padded 1 (pos pid)

unfoldable pub new : Option Text → ℕ → Options → Result
unfolding part default_owner
new host pid opts =
    let renew = positive_or opts.renew (part opts.ttl 3) in
    if not opts.connected
    then err client_required
    else if is_blank opts.holder || is_blank opts.epoch
    then err keys_required
    else if leb_ℤ opts.ttl (pos 0)
    then err ttl_not_positive
    else if leb_ℤ opts.ttl renew
    then err renew_too_long
    else if ltb_ℤ opts.wait_for_replicas (pos 0)
    then err wait_negative
    else ok (record {
      holder = opts.holder;
      epoch = opts.epoch;
      owner = if is_blank opts.owner then default_owner host pid else opts.owner;
      ttl = opts.ttl;
      renew = renew;
      retry = positive_or opts.retry (part opts.ttl 3);
      wait_replicas = opts.wait_for_replicas;
      wait_timeout =
          if ltb_ℤ (pos 0) opts.wait_for_replicas && leb_ℤ opts.wait_timeout (pos 0)
          then part opts.ttl 2
          else opts.wait_timeout;
    })

-- Usable intervals: the holder renews, and a standby retries, at a positive interval; renewal is
-- within the time to live; and a wait for replicas has a positive bound.
pub record IsPaced (l : Lease) : Type 0 where
  pub renews : pos 0 <ℤ l.renew
  pub in_time : l.renew <ℤ l.ttl
  pub retries : pos 0 <ℤ l.retry
  pub replicas : pos 0 ≤ℤ l.wait_replicas
  pub bounded : pos 0 <ℤ l.wait_replicas → pos 0 <ℤ l.wait_timeout

-- A lease that New makes is paced if its time to live is at least three nanoseconds.
pub new-IsPaced :
    (host : Option Text) (pid : ℕ) (opts : Options) (l : Lease)
    → pos 3 ≤ℤ opts.ttl
    → new host pid opts ≡ ok l
    → IsPaced l
unfolding new part
new-IsPaced host pid opts l three h = ground arith

-- Options with their own intervals, as a configuration gives them.
pub record IsConfigured (opts : Options) : Type 0 where
  pub connected : opts.connected ≡ true
  pub holder : is_blank opts.holder ≡ false
  pub epoch : is_blank opts.epoch ≡ false
  pub renews : pos 0 <ℤ opts.renew
  pub in_time : opts.renew <ℤ opts.ttl
  pub retries : pos 0 <ℤ opts.retry

pub record IsMade (opts : Options) (l : Lease) : Type 0 where
  pub ttl : l.ttl ≡ opts.ttl
  pub renew : l.renew ≡ opts.renew
  pub retry : l.retry ≡ opts.retry
  pub paced : IsPaced l

pub new-IsMade :
    (host : Option Text) (pid : ℕ) (opts : Options)
    → IsConfigured opts
    → ltb_ℤ opts.wait_for_replicas (pos 0) ≡ false
    → (l : Lease) × (new host pid opts ≡ ok l) × IsMade opts l
unfolding new part
new-IsMade host pid opts c n = by_result (new host pid opts) refl
  where
    by_result :
        (r : Result)
        → new host pid opts ≡ r
        → (l : Lease) × (new host pid opts ≡ ok l) × IsMade opts l
    by_result (ok l) e = (
      l,
      e,
      record {
        ttl = ground (arith, e);
        renew = ground (arith, e, c.renews);
        retry = ground (arith, e, c.retries);
        paced = ground (arith, e, c.renews, c.in_time, c.retries);
      },
    )
    by_result (err x) e =
        ground (arith, e, c.connected, c.holder, c.epoch, c.renews, c.in_time, c.retries)

pub new-wait_negative :
    (host : Option Text) (pid : ℕ) (opts : Options)
    → IsConfigured opts
    → ltb_ℤ opts.wait_for_replicas (pos 0) ≡ true
    → new host pid opts ≡ err wait_negative
unfolding new part
new-wait_negative host pid opts c n =
    ground (arith, c.connected, c.holder, c.epoch, c.renews, c.in_time, c.retries)
