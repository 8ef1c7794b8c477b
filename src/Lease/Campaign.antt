-- ===== src/Lease/Campaign.antt =====
-- Campaign and serveTerm of internal/lease/lease.go, and setLeadership of
-- internal/scheduler/engine.go, the observer. What the context, the ticker and the leader's own loops
-- do is a list of events; a list that ends leaves the process where it stands.
use distributed_task_queue_s.Prelude.{
  ℕ, suc, Bool, true, false, not, Option, none, some, List, [], ◌∷◌, ◌++◌, ℤ, pos, Text,
  if◌then◌else◌,
}
use distributed_task_queue_s.Env.Float.{Float64}
use distributed_task_queue_s.Env.Redis.{Redis}
use distributed_task_queue_s.Lease.Client.{Grant, acquire, renew, release}
use distributed_task_queue_s.Process.World.{World, Answer, answer, err_fenced, err_other}

-- How `lead` returns: a nil error, context.Canceled, or another error.
pub data LeadEnd : Type 0 where
  finished canceled failed : LeadEnd

-- What serveTerm's select sees: the end of the context, the return of `lead`, or a tick. If the
-- renewal of a tick fails, the context may have ended meanwhile.
pub data Event : Type 0 where
  done : Event
  returned : LeadEnd → Event
  tick : Bool → Event

-- How the loop of serveTerm ends.
pub data Ending : Type 0 where
  stopped : Ending
  lead_returned : LeadEnd → Ending
  lost : Ending

abbrev pub is_failure : LeadEnd → Bool
is_failure finished = false
is_failure canceled = false
is_failure failed = true

-- A round of Campaign: whether the context has ended at its start, how many replicas answer WAIT,
-- the events of its term, how `lead` returns if it is cancelled, and whether the context has ended
-- by the end of the round.
pub record Round : Type 0 where
  pub ended_before : Bool
  pub acked : Option ℕ
  pub events : List Event
  pub unwound : LeadEnd
  pub ended_after : Bool

-- What the observer is told: whether this process leads, and its epoch.
abbrev pub Notice : Type 0
Notice = Bool × ℤ

pub data Status : Type 0 where
  running stopped_cleanly lead_failed : Status

module _ ⦃fl : Float64⦄ ⦃redis : Redis⦄ where
  -- The loop of serveTerm; `none` while the term goes on.
  unfoldable pub term_loop : List Event → Grant → World → World × Grant × Option Ending
  term_loop [] l w = (w, l, none)
  term_loop (done ∷ es) l w = (w, l, some stopped)
  term_loop (returned e ∷ es) l w = (w, l, some (lead_returned e))
  term_loop (tick ended ∷ es) l w =
      let (w', l', a) = renew l w in
      let rest = term_loop es l' w' in
      elim a [
        | answer kept ↦ if kept then rest else (w', l', some lost)
        | err_fenced ↦ if ended then (w', l', some stopped) else rest
        | err_other ↦ if ended then (w', l', some stopped) else rest
      ]

  -- The release, unless the grant is lost, and whether `lead` failed.
  unfoldable pub end_term : LeadEnd → Grant → World → Ending → World × Grant × Bool
  end_term unwound l w lost = (w, l, is_failure unwound)
  end_term unwound l w stopped = let (w', l', a) = release l w in (w', l', is_failure unwound)
  end_term unwound l w (lead_returned e) = let (w', l', a) = release l w in (w', l', is_failure e)

  -- `none` while the term goes on.
  unfoldable pub serve_term : List Event → LeadEnd → Grant → World → World × Grant × Option Bool
  unfolding term_loop end_term
  serve_term events unwound l w =
      let (w', l', ending) = term_loop events l w in
      elim ending [
        | none ↦ (w', l', none)
        | some e ↦ (let (w'', l'', failure) = end_term unwound l' w' e in (w'', l'', some failure))
      ]

  pub record Campaign : Type 0 where
    pub world : World
    pub grant : Grant
    pub notices : List Notice
    pub status : Status

  abbrev pub noted : List Notice → Campaign → Campaign
  noted ns c = record c { notices = ns ++ c.notices }

  -- No further notice.
  abbrev pub standing : World → Grant → Status → Campaign
  standing w l status = record { world = w; grant = l; notices = []; status = status }

  -- After a term: the error of `lead`, the end of the context, or the rounds that follow.
  unfoldable pub after_term : Round → ℤ → Campaign → World × Grant × Option Bool → Campaign
  after_term r epoch rest (w, l, none) = record {
    world = w;
    grant = l;
    notices = (true, epoch) ∷ [];
    status = running;
  }
  after_term r epoch rest (w, l, some failure) = noted ((true, epoch) ∷ (false, pos 0) ∷ []) (
      if failure
      then standing w l lead_failed
      else if r.ended_after
      then standing w l stopped_cleanly
      else rest)

  -- After the reply to Acquire: a term, or another try.
  unfoldable pub after_reply : (ℤ → Campaign) → Campaign → Answer (ℤ × Bool) → Campaign
  after_reply led standby (answer (epoch, true)) = led epoch
  after_reply led standby (answer (epoch, false)) = standby
  after_reply led standby err_fenced = standby
  after_reply led standby err_other = standby

  -- The loop of Campaign.
  unfoldable pub campaign_loop : ℕ → Text → List Round → Grant → World → Campaign
  unfolding after_term after_reply serve_term
  campaign_loop wait owner [] l w = standing w l running
  campaign_loop wait owner (r ∷ rs) l w =
      let (w', l', a) = acquire wait r.acked owner l w in
      let (w'', l'', served) = serve_term r.events r.unwound l' w' in
      let standby = campaign_loop wait owner rs l' w' in
      let after = campaign_loop wait owner rs l'' w'' in
      if r.ended_before
      then standing w l stopped_cleanly
      else after_reply (λ epoch. after_term r epoch after (w'', l'', served))
          (if r.ended_after then standing w' l' stopped_cleanly else standby) a

  unfoldable pub campaign : ℕ → Text → List Round → Grant → World → Campaign
  unfolding campaign_loop
  campaign wait owner rounds l w = noted ((false, pos 0) ∷ []) (campaign_loop wait owner rounds l w)

-- What the engine shows of its leadership.
pub record Leadership : Type 0 where
  pub leader : Bool
  pub epoch : ℤ
  pub transitions : ℕ

abbrev pub differs : Bool → Bool → Bool
differs true b = not b
differs false b = b

unfoldable pub set_leadership : Notice → Leadership → Leadership
set_leadership (leader, epoch) e = record {
  leader = leader;
  epoch = epoch;
  transitions = if differs e.leader leader then suc e.transitions else e.transitions;
}

unfoldable pub observe_all : List Notice → Leadership → Leadership
unfolding set_leadership
observe_all [] e = e
observe_all (n ∷ ns) e = observe_all ns (set_leadership n e)
