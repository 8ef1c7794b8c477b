-- ===== src/Lease/Terms.antt =====
-- Campaign of internal/lease/lease.go: what the observer is told, and what the process remembers
-- between its terms.
use distributed_task_queue_s.Prelude.{
  ℕ, zero, suc, ◌≡◌, ◌⊎◌, refl, inl, inr, Bool, true, false, Bool-cases, Option, none, some, List,
  [], ◌∷◌, ℤ, pos, ◌<ℤ◌, Text, text_eq, text_eq_iff, text_eq_refl, if◌then◌else◌,
}
use distributed_task_queue_s.Env.Float.{Float64}
use distributed_task_queue_s.Env.Redis.{Redis}
use distributed_task_queue_s.Lease.Client.{Grant, forget, acquire, renew, release}
use distributed_task_queue_s.Lease.Held.{Renewal, renew-Renewal, Acquisition, acquire-Acquisition}
use distributed_task_queue_s.Lease.Campaign
use distributed_task_queue_s.Lease.Campaign.{
  LeadEnd, Event, tick, returned, Ending, stopped, lead_returned, lost, Round, Notice, Status,
  running, stopped_cleanly, lead_failed, term_loop, end_term, serve_term, standing, after_term,
  after_reply, Campaign, noted, campaign_loop, campaign,
}
use distributed_task_queue_s.Process.World.{World, Answer, answer, err_fenced, err_other}

-- Notices of whole terms, each under a positive epoch; the last may be open.
pub IsTerms : List Notice → Type 0
IsTerms [] = Unit
IsTerms ((false, e) ∷ ns) = zero ≡ suc zero
IsTerms ((true, e) ∷ []) = pos 0 <ℤ e
IsTerms ((true, e) ∷ (true, e') ∷ ns) = zero ≡ suc zero
IsTerms ((true, e) ∷ (false, e') ∷ ns) = (pos 0 <ℤ e) × (e' ≡ pos 0) × IsTerms ns

-- The last thing that the observer was told, `leads` before the first.
unfoldable pub last_told : Bool → List Notice → Bool
last_told leads [] = leads
last_told leads ((b, e) ∷ ns) = last_told b ns

module _ ⦃fl : Float64⦄ ⦃redis : Redis⦄ where
  forget_self : (l : Grant) → (forget l.value l).value ≡ []
  unfolding forget
  forget_self l = rw (text_eq_refl l.value) refl

  release_forgets : (l : Grant) (w : World) → (release l w).1.value ≡ []
  unfolding release
  release_forgets l w = elim (Bool-cases (text_eq l.value [])) [
    | inl e ↦ rw e ((text_eq_iff l.value []).0 e)
    | inr e ↦ rw e (forget_self l)
  ]

  -- A term that lost its lease remembers no grant.
  LostIsGone : World × Grant × Option Ending → Type 0
  LostIsGone (w, l, none) = Unit
  LostIsGone (w, l, some stopped) = Unit
  LostIsGone (w, l, some (lead_returned e)) = Unit
  LostIsGone (w, l, some lost) = l.value ≡ []

  term_loop-LostIsGone : (es : List Event) (l : Grant) (w : World) → LostIsGone (term_loop es l w)
  unfolding term_loop LostIsGone
  term_loop-LostIsGone [] l w = tt
  term_loop-LostIsGone (Campaign.done ∷ es) l w = tt
  term_loop-LostIsGone (returned e ∷ es) l w = tt
  term_loop-LostIsGone (tick ended ∷ es) l w =
      by_reply (renew l w) (renew-Renewal l w) (term_loop-LostIsGone es (renew l w).1 (renew l w).0)
    where
      either :
          (b : Bool) (x y : World × Grant × Option Ending)
          → LostIsGone x
          → LostIsGone y
          → LostIsGone (if b then x else y)
      either true x y hx hy = hx
      either false x y hx hy = hy

      by_reply :
          (r : World × Grant × Answer Bool)
          → Renewal l r
          → LostIsGone (term_loop es r.1 r.0)
          → LostIsGone (elim r.2 [
            | answer kept ↦ if kept then term_loop es r.1 r.0 else (r.0, r.1, some lost)
            | err_fenced ↦ if ended then (r.0, r.1, some stopped) else term_loop es r.1 r.0
            | err_other ↦ if ended then (r.0, r.1, some stopped) else term_loop es r.1 r.0
          ])
      by_reply (w', l', answer true) h rest = rest
      by_reply (w', l', answer false) h rest = h
      by_reply (w', l', err_fenced) h rest = either ended _ _ tt rest
      by_reply (w', l', err_other) h rest = either ended _ _ tt rest

  -- A term that has ended remembers no grant.
  EndedIsGone : World × Grant × Option Bool → Type 0
  EndedIsGone (w, l, none) = Unit
  EndedIsGone (w, l, some b) = l.value ≡ []

  serve_term-EndedIsGone :
      (es : List Event) (u : LeadEnd) (l : Grant) (w : World) → EndedIsGone (serve_term es u l w)
  unfolding serve_term end_term LostIsGone EndedIsGone
  serve_term-EndedIsGone es u l w = by_ending (term_loop es l w) (term_loop-LostIsGone es l w)
    where
      by_ending :
          (r : World × Grant × Option Ending)
          → LostIsGone r
          → EndedIsGone (elim r.2 [
            | none ↦ (r.0, r.1, none)
            | some e ↦ (let (w'', l'', failure) = end_term u r.1 r.0 e in (w'', l'', some failure))
          ])
      by_ending (w', l', none) h = tt
      by_ending (w', l', some stopped) h = release_forgets l' w'
      by_ending (w', l', some (lead_returned e)) h = release_forgets l' w'
      by_ending (w', l', some lost) h = h

  -- Whole terms; and a process that has not been told to lead remembers no grant.
  pub record Standing (c : Campaign) : Type 0 where
    pub terms : IsTerms c.notices
    pub idle : last_told false c.notices ≡ false → c.grant.value ≡ []

  standing_by : (w : World) (l : Grant) (s : Status) → l.value ≡ [] → Standing (standing w l s)
  unfolding IsTerms
  standing_by w l s h = record { terms = tt; idle = λ _. h }

  either_stands :
      (b : Bool) (c d : Campaign) → Standing c → Standing d → Standing (if b then c else d)
  either_stands true c d hc hd = hc
  either_stands false c d hc hd = hd

  noted-Standing :
      (e : ℤ) (c : Campaign)
      → pos 0 <ℤ e
      → Standing c
      → Standing (noted ((true, e) ∷ (false, pos 0) ∷ []) c)
  unfolding IsTerms last_told
  noted-Standing e c p h = record { terms = (p, refl, h.terms); idle = h.idle }

  after_term-Standing :
      (r : Round) (epoch : ℤ) (rest : Campaign) (s : World × Grant × Option Bool)
      → pos 0 <ℤ epoch
      → EndedIsGone s
      → (s.1.value ≡ [] → Standing rest)
      → Standing (after_term r epoch rest s)
  unfolding after_term EndedIsGone IsTerms last_told
  after_term-Standing r epoch rest (w, l, none) p g h = record { terms = p; idle = λ e. cc }
  after_term-Standing r epoch rest (w, l, some failure) p g h = noted-Standing epoch _ p (
      either_stands failure _ _ (standing_by w l lead_failed g)
        (either_stands r.ended_after _ _ (standing_by w l stopped_cleanly g) (h g)))

  -- By Acquire's promise a success has a positive epoch, and anything else keeps the old grant.
  after_reply-Standing :
      (wait : ℕ) (acked : Option ℕ) (led : ℤ → Campaign) (standby : Campaign) (l : Grant)
      (a : World × Grant × Answer (ℤ × Bool))
      → l.value ≡ []
      → Acquisition wait acked l a
      → ((epoch : ℤ) → pos 0 <ℤ epoch → Standing (led epoch))
      → (a.1.value ≡ [] → Standing standby)
      → Standing (after_reply led standby a.2)
  unfolding after_reply
  after_reply-Standing wait acked led standby l (w', l', answer (e, true)) h q go stay =
      go e q.0.positive
  after_reply-Standing wait acked led standby l (w', l', answer (e, false)) h q go stay =
      stay (rw q.0 h)
  after_reply-Standing wait acked led standby l (w', l', err_fenced) h q go stay = stay (rw q h)
  after_reply-Standing wait acked led standby l (w', l', err_other) h q go stay = stay (rw q h)

  -- What the rounds after a term do needs no grant: the term has given its own up.
  campaign_loop-Standing :
      (wait : ℕ) (owner : Text) (rs : List Round) (l : Grant) (w : World)
      → l.value ≡ []
      → Standing (campaign_loop wait owner rs l w)
  unfolding campaign_loop
  campaign_loop-Standing wait owner [] l w h = standing_by w l running h
  campaign_loop-Standing wait owner (r ∷ rs) l w h =
      let a = acquire wait r.acked owner l w in
      let s = serve_term r.events r.unwound a.1 a.0 in
      let stay = λ (g : a.1.value ≡ []). campaign_loop-Standing wait owner rs a.1 a.0 g in
      either_stands r.ended_before _ _ (standing_by w l stopped_cleanly h) (
        after_reply-Standing wait r.acked _ _ l a h (acquire-Acquisition wait r.acked owner l w)
          (λ epoch p.
            after_term-Standing r epoch _ s p (serve_term-EndedIsGone r.events r.unwound a.1 a.0)
              λ g. campaign_loop-Standing wait owner rs s.1 s.0 g)
          λ g. either_stands r.ended_after _ _ (standing_by a.0 a.1 stopped_cleanly g) (stay g))

  -- Notices that start with standing by.
  abbrev pub HasTerms : List Notice → Type 0
  HasTerms [] = zero ≡ suc zero
  HasTerms ((b, e) ∷ ns) = (b ≡ false) × (e ≡ pos 0) × IsTerms ns

  -- However the acquisitions, renewals and the leader's own loops go, the observer hears: not
  -- leading, then whole terms, each announced once under a positive epoch and then ended, before
  -- another begins; only the last may still be going on. Whenever the last word was that the process
  -- does not lead, it remembers no grant, so it renews nothing.
  pub campaign-HasTerms :
      (wait : ℕ) (owner : Text) (rs : List Round) (l : Grant) (w : World)
      → l.value ≡ []
      → HasTerms (campaign wait owner rs l w).notices
        × ((last_told true (campaign wait owner rs l w).notices ≡ true)
            ⊎ ((campaign wait owner rs l w).grant.value ≡ []))
  unfolding campaign last_told
  campaign-HasTerms wait owner rs l w h =
      let s = campaign_loop-Standing wait owner rs l w h in
      (
        (refl, refl, s.terms),
        elim (Bool-cases (last_told false (campaign_loop wait owner rs l w).notices)) [
          | inl e ↦ inl e
          | inr e ↦ inr (s.idle e)
        ],
      )
