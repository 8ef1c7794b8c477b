-- ===== src/Console/Faults.antt =====
-- internal/console/supervisor.go: the end of the faults.
use distributed_task_queue_s.Prelude.{
  ◌⊎◌, ◌≡◌, refl, Bool, true, false, none, some, List, [], ◌∷◌, Text, text_eq, All, All-map,
  Option-cases, inl, inr, arith,
}
use distributed_task_queue_s.Console.Supervisor.{
  ActiveFault, Proc, is_exited, launch, clear_fault, expire_fault, note_exit, note_old_exit,
  finish_launch, launches, old_exits, update, clear_all, Event, requests, timer_fires, exits,
  clears, happens, supervise,
}
use distributed_task_queue_s.Console.Tidy.{
  is_bounded, is_tidy, IsTidy, IsFree, clear_fault-IsFree, clear_fault-IsTidy, expire_fault-IsTidy,
  note_exit-IsTidy, note_old_exit-IsTidy, launch-IsTidy, apply-IsTidy,
}

update-All {ℓ κ} :
    {A : Type ℓ} (P : A → Type κ) (f : A → A) (here : A → Bool) (xs : List A)
    → All (λ x. here x ≡ true → P x → P (f x)) xs
    → All P xs
    → All P (update f here xs)
unfolding update
update-All P f here [] keeps h = h
update-All P f here (x ∷ xs) keeps h =
    (ground (arith, keeps.0, h.0), update-All P f here xs keeps.1 h.1)

every {ℓ κ} : {A : Type ℓ} (P : A → Type κ) → ((x : A) → P x) → (xs : List A) → All P xs
every P h [] = tt
every P h (x ∷ xs) = (h x, every P h xs)

clear_all-All :
    (P : Proc → Type 0) (resumed : Text → Bool)
    → ((name : Text) → resumed name ≡ true)
    → ((p : Proc) → IsTidy p → P (clear_fault true p))
    → (ps : List Proc) → All IsTidy ps
    → All P (clear_all resumed ps)
unfolding clear_all
clear_all-All P resumed all ends [] h = h
clear_all-All P resumed all ends (p ∷ ps) h =
    (rw (all p.name) (ends p h.0), clear_all-All P resumed all ends ps h.1)

-- A launch finds its process exited, and SIGCONT arrives when a fault ends. A launch finds it
-- otherwise only if two restarts of one process overlap.
unfoldable pub IsCalm : Event → List Proc → Type 0
IsCalm (requests req owner now luck) ps = Unit
IsCalm (launches name succeeds) ps =
    All (λ p. text_eq p.name name ≡ true → is_exited p.state ≡ true) ps
IsCalm (timer_fires name serial resumed) ps = resumed ≡ true
IsCalm (exits name) ps = Unit
IsCalm (old_exits name) ps = Unit
IsCalm (clears resumed) ps = (name : Text) → resumed name ≡ true

unfoldable pub AreCalm : List Event → List Proc → Type 0
unfolding IsCalm
AreCalm [] ps = Unit
AreCalm (e ∷ es) ps = IsCalm e ps × AreCalm es (happens e ps)

launches-IsTidy :
    (name : Text) (succeeds : Bool) (ps : List Proc)
    → All (λ p. text_eq p.name name ≡ true → is_exited p.state ≡ true) ps
    → All IsTidy ps
    → All IsTidy (finish_launch name succeeds ps).0
unfolding finish_launch
launches-IsTidy name false ps c h = h
launches-IsTidy name true ps c h =
    update-All IsTidy launch (λ p. text_eq p.name name) ps
      (All-map (λ p. text_eq p.name name ≡ true → is_exited p.state ≡ true)
        (λ p. text_eq p.name name ≡ true → IsTidy p → IsTidy (launch p)) ps
        (λ p c e t. launch-IsTidy p (c e) t) c)
      h

happens-IsTidy :
    (e : Event) (ps : List Proc) → IsCalm e ps → All IsTidy ps → All IsTidy (happens e ps)
unfolding happens IsCalm
happens-IsTidy (requests req owner now luck) ps c h = apply-IsTidy req owner now luck ps h
happens-IsTidy (launches name succeeds) ps c h = launches-IsTidy name succeeds ps c h
happens-IsTidy (timer_fires name serial resumed) ps c h = rw c (
    update-All IsTidy (expire_fault true serial) (λ p. text_eq p.name name) ps
      (every _ (λ p _. expire_fault-IsTidy serial p) ps) h)
happens-IsTidy (exits name) ps c h =
    update-All IsTidy note_exit (λ p. text_eq p.name name) ps
      (every _ (λ p _. note_exit-IsTidy p) ps) h
happens-IsTidy (old_exits name) ps c h =
    update-All IsTidy note_old_exit (λ p. text_eq p.name name) ps
      (every _ (λ p _. note_old_exit-IsTidy p) ps) h
happens-IsTidy (clears resumed) ps c h = clear_all-All IsTidy resumed c clear_fault-IsTidy ps h

supervise-IsTidy :
    (es : List Event) (ps : List Proc)
    → AreCalm es ps
    → All IsTidy ps
    → All IsTidy (supervise es ps)
unfolding supervise AreCalm
supervise-IsTidy [] ps c h = h
supervise-IsTidy (e ∷ es) ps c h =
    supervise-IsTidy es (happens e ps) c.1 (happens-IsTidy e ps c.0 h)

-- Either the process is free, or it has a fault of 1 to 30 s, the timer of which frees it.
unfoldable pub Ends : Proc → Type 0
unfolding is_bounded IsFree
Ends p =
    IsFree p
    ⊎ (f : ActiveFault) × (p.fault ≡ some f)
      × (is_bounded f ≡ true)
      × IsFree (expire_fault true f.serial p)

timer_lem :
    (p : Proc) (f : ActiveFault)
    → p.fault ≡ some f
    → IsTidy p
    → (is_bounded f ≡ true) × IsFree (expire_fault true f.serial p)
unfolding IsTidy is_tidy expire_fault
timer_lem p f e t = ground (arith, clear_fault-IsFree p t)

IsTidy-IsFree : (p : Proc) → p.fault ≡ none → IsTidy p → IsFree p
unfolding IsTidy is_tidy IsFree
IsTidy-IsFree p e t = ground arith

IsTidy-Ends : (p : Proc) → IsTidy p → Ends p
unfolding Ends
IsTidy-Ends p t = elim (Option-cases p.fault) [
  | inl e ↦ inl (IsTidy-IsFree p e t)
  | inr (f, e) ↦ let (b, h) = timer_lem p f e t in inr (f, e, b, h)
]

-- Every fault ends, provided that SIGCONT arrives when a fault ends and that each launch finds its
-- process exited, which two overlapping restarts of one process break. Then after any requests,
-- launches, exits and timers that happen to tidy processes each process is free, or has a fault of 1
-- to 30 s whose timer frees it, and to end all faults frees all processes. A free process has no
-- stopped command and its link is whole. A tidy process is free and without a fault, frozen by one or
-- cut off by one.
pub supervise-Ends :
    (es : List Event) (ps : List Proc)
    → AreCalm es ps
    → All IsTidy ps
    → All Ends (supervise es ps) × All IsFree (clear_all (λ name. true) (supervise es ps))
supervise-Ends es ps c h =
    let t = supervise-IsTidy es ps c h in
    (
      All-map IsTidy Ends (supervise es ps) IsTidy-Ends t,
      clear_all-All IsFree (λ name. true) (λ name. refl) clear_fault-IsFree (supervise es ps) t,
    )
