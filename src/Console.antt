-- ===== src/Console.antt =====
-- internal/console: the bounded event log of events.go, and Classify and Rate of telemetry.go. The
-- mutex of the log makes each method one step.
pub mod Request
pub mod Supervisor
pub mod Tidy
pub mod Faults
pub mod Cluster
pub mod Server
pub mod Refused
pub mod Guarded
use distributed_task_queue_s.Prelude.{
  ℕ, zero, suc, ◌-◌, ◌≤◌, ◌==◌, ◌≡◌, Bool, not, ◌||◌, Option, none, some, List, [], ◌∷◌, ◌++◌,
  length, ltb, ℤ, pos, ltb_ℤ, Text, if◌then◌else◌, arith,
}
use distributed_task_queue_s.Domain.Time.{Time}
use distributed_task_queue_s.Env.Float.{Float64}
use distributed_task_queue_s.Workload.{duration_seconds}

pub data Health : Type 0 where
  unreachable unhealthy not_ready ready : Health

-- `failed` is a transport error of /healthz.
unfoldable pub classify : Bool → ℕ → ℕ → Health
classify failed healthz readyz =
    if failed
    then unreachable
    else if not (healthz == 200)
    then unhealthy
    else if not (readyz == 200)
    then not_ready
    else ready

-- `none` is a rate that the code refuses to invent.
unfoldable pub rate : ⦃fl : Float64⦄ → fl.F → fl.F → ℤ → Option fl.F
unfolding duration_seconds
rate ⦃fl⦄ prev cur dt =
    if ltb_ℤ dt (pos 200000000) || fl.ltf cur prev
    then none
    else some (fl.divf (fl.subf cur prev) (duration_seconds dt))

pub record Event : Type 0 where
  pub seq : ℕ
  pub at : Time
  pub source : Text
  pub kind : Text
  pub subject : Text
  pub message : Text

-- The newest events, oldest first; `next` numbers them.
pub record EventLog : Type 0 where
  pub buf : List Event
  pub next : ℕ
  pub max : ℕ

unfoldable pub new_event_log : ℕ → EventLog
new_event_log max = record { buf = []; next = 0; max = max }

-- `xs[n:]`.
unfoldable pub drop {ℓ} : {A : Type ℓ} → ℕ → List A → List A
drop zero xs = xs
drop (suc n) [] = []
drop (suc n) (x ∷ xs) = drop n xs

unfoldable pub add : Event → EventLog → EventLog
unfolding drop
add e l =
    let buf = l.buf ++ record e { seq = suc l.next } ∷ [] in
    record l {
      next = suc l.next;
      buf = if ltb l.max (length buf) then drop (length buf - l.max) buf else buf;
    }

unfoldable pub events_since : ℕ → List Event → List Event
events_since seq [] = []
events_since seq (e ∷ es) =
    let rest = events_since seq es in if ltb seq e.seq then e ∷ rest else rest

unfoldable pub since : ℕ → EventLog → List Event
unfolding events_since
since seq l = events_since seq l.buf

length-drop {ℓ} : {A : Type ℓ} (n : ℕ) (xs : List A) → length (drop n xs) ≡ length xs - n
unfolding drop
length-drop zero xs = omega arith
length-drop (suc n) [] = omega arith
length-drop (suc n) (x ∷ xs) = omega (arith, length-drop n xs)

-- The log never holds more events than its bound.
pub length-add : (e : Event) (l : EventLog) → length (add e l).buf ≤ l.max
unfolding add
length-add e l =
    let buf = l.buf ++ record e { seq = suc l.next } ∷ [] in
    ground (arith, length-drop (length buf - l.max) buf)
