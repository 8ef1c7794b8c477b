-- ===== src/Lease/Held.antt =====
-- What Acquire and Renew of internal/lease/lease.go promise to the process that leads.
use distributed_task_queue_s.Prelude.{
  ℕ, ◌==◌, leb, ◌≡◌, refl, ◌⊎◌, inl, inr, Bool, true, false, Bool-cases, ◌||◌, Option, none, some,
  List, [], ℤ, pos, leb_ℤ, ◌<ℤ◌, Text, text_eq, text_eq_refl, text_eq_iff, is_some, arith,
}
use distributed_task_queue_s.Env.Float.{Float64}
use distributed_task_queue_s.Env.Redis.{Redis}
use distributed_task_queue_s.Broker.Store.{Store}
use distributed_task_queue_s.Broker.Scripts.{get_counter}
use distributed_task_queue_s.Lease.Scripts.{acquire_script, renew_script, holds, grant_value}
use distributed_task_queue_s.Lease.Client.{
  Grant, forget, acquiring, renewing, await_epoch_durable, waiting, wait, are_enough, confirm, take,
  acquire, renewed, renew,
}
use distributed_task_queue_s.System.Steps.{Steps, done}
use distributed_task_queue_s.Process.World.{
  World, Trip, Answer, answer, err_fenced, err_other, answer_of, call_cases,
}

module _ ⦃fl : Float64⦄ ⦃redis : Redis⦄ where
  -- After Renew: true means that the store has this very grant and it is kept; false means that
  -- none is remembered; an error changes nothing.
  abbrev pub Renewal : Grant → World × Grant × Answer Bool → Type 0
  Renewal l (w, l', answer true) = (holds w.store l.value ≡ true) × (l' ≡ l)
  Renewal l (w, l', answer false) = l'.value ≡ []
  Renewal l (w, l', err_fenced) = l' ≡ l
  Renewal l (w, l', err_other) = l' ≡ l

  renew_script-Renewal :
      (l : Grant) (s : Store) (ts : List Trip)
      → Renewal l (
          renewed l
            (record { store = (renewing l.value s).0; trips = ts })
            (answer_of (renewing l.value s).1))
  unfolding renewed renew_script answer_of forget
  renew_script-Renewal l s ts = elim (Bool-cases (holds s l.value)) [
    | inl e ↦ rw (e, renew_script) (e, refl)
    | inr e ↦ rw (e, renew_script, text_eq_refl l.value) refl
  ]

  -- Renew answers true only if the store holds exactly this grant, and then keeps it; it answers
  -- false only with no grant remembered; an error leaves the grant as it was.
  pub renew-Renewal : (l : Grant) (w : World) → Renewal l (renew l w)
  unfolding renew renewed
  renew-Renewal l w = elim (Bool-cases (text_eq l.value [])) [
    | inl e ↦ rw (e, renew) ((text_eq_iff l.value []).0 e)
    | inr e ↦
        rw (e, renew)
          (call_cases (λ r. Renewal l (renewed l r.0 r.1)) (renewing l.value) w (λ s ts r. refl)
            (λ s ts r. refl) λ s ts r. renew_script-Renewal l s ts)
  ]

  -- The replicas that the process waits for have answered.
  abbrev pub IsDurable : ℕ → Option ℕ → Type 0
  IsDurable wait_replicas acked =
      ((wait_replicas == 0) ≡ true) ⊎ (n : ℕ) × (acked ≡ some n) × (leb wait_replicas n ≡ true)

  -- A grant of the store `s`, under its newest epoch. What the store is by now came of `s` by steps
  -- of the system, and is `s` if no replica was waited for.
  pub record Held (wait_replicas : ℕ) (acked : Option ℕ) (value : Text) (epoch : ℤ) (w : World)
      : Type 0 where
    pub granted : Store
    pub holder : holds granted value ≡ true
    pub newest : get_counter granted.leader_epoch ≡ epoch
    pub positive : pos 0 <ℤ epoch
    pub durable : IsDurable wait_replicas acked
    pub since : Steps granted w.store
    pub at_once : (wait_replicas == 0) ≡ true → granted ≡ w.store

  -- After Acquire.
  abbrev pub Acquisition : ℕ → Option ℕ → Grant → World × Grant × Answer (ℤ × Bool) → Type 0
  Acquisition wait_replicas acked l (w, l', answer (e, true)) =
      Held wait_replicas acked l'.value e w × (l'.epoch ≡ e)
  Acquisition wait_replicas acked l (w, l', answer (e, false)) = (l' ≡ l) × (e ≡ pos 0)
  Acquisition wait_replicas acked l (w, l', err_fenced) = l' ≡ l
  Acquisition wait_replicas acked l (w, l', err_other) = l' ≡ l

  -- WAIT moves the store by steps of the others only, and answers with the replicas' number.
  wait-Steps :
      (acked : Option ℕ) (w : World)
      → Steps w.store (wait acked w).0.store
        × ((k : ℕ)
            → are_enough k (wait acked w).1 ≡ true
            → (n : ℕ) × (acked ≡ some n) × (leb k n ≡ true))
  unfolding wait answer_of
  wait-Steps none w =
      call_cases
        (λ r.
          Steps w.store r.0.store
          × ((k : ℕ) → false ≡ true → (n : ℕ) × (none ≡ some n) × (leb k n ≡ true)))
        (waiting 0) w (λ s ts r. (r, λ k e. cc)) (λ s ts r. (r, λ k e. cc)) λ s ts r. (r, λ k e. cc)
  wait-Steps (some n) w =
      call_cases
        (λ r.
          Steps w.store r.0.store
          × ((k : ℕ) → are_enough k r.1 ≡ true → (m : ℕ) × (some n ≡ some m) × (leb k m ≡ true)))
        (waiting n) w (λ s ts r. (r, λ k e. cc)) (λ s ts r. (r, λ k e. cc))
        λ s ts r. (r, λ k e. (n, refl, e))

  confirm-Acquisition :
      (wait_replicas : ℕ) (acked : Option ℕ) (l : Grant) (epoch : ℤ) (value : Text) (w : World)
      → holds w.store value ≡ true
      → get_counter w.store.leader_epoch ≡ epoch
      → pos 0 <ℤ epoch
      → Acquisition wait_replicas acked l (confirm wait_replicas acked l epoch value w)
  unfolding confirm await_epoch_durable
  confirm-Acquisition wait_replicas acked l epoch value w h g p =
      elim (Bool-cases (wait_replicas == 0)) [
        | inl e ↦
            rw (e, await_epoch_durable)
              (
                record {
                  granted = w.store;
                  holder = h;
                  newest = g;
                  positive = p;
                  durable = inl e;
                  since = done;
                  at_once = λ _. refl;
                },
                refl,
              )
        | inr e ↦
            let (steps, enough) = wait-Steps acked w in
            elim (Bool-cases (are_enough wait_replicas (wait acked w).1)) [
              | inl f ↦
                  rw (e, f, await_epoch_durable, confirm)
                    (
                      record {
                        granted = w.store;
                        holder = h;
                        newest = g;
                        positive = p;
                        durable = inr (enough wait_replicas f);
                        since = steps;
                        at_once = λ z. absurd (ground (arith, e, z));
                      },
                      refl,
                    )
              | inr f ↦ rw (e, f, await_epoch_durable, confirm) refl
            ]
      ]

  -- Acquire's script: refused, or granted to a store that holds the value under its newest epoch.
  acquire_cases {κ} :
      (P : Store × (ℤ × Text) → Type κ) (owner : Text) (s : Store)
      → P (s, (pos 0, []))
      → ((t : Store) (epoch : ℤ) (value : Text)
          → holds t value ≡ true
          → get_counter t.leader_epoch ≡ epoch
          → P (t, (epoch, value)))
      → P (acquire_script owner s)
  unfolding acquire_script holds
  acquire_cases P owner s refused grant = elim (Bool-cases (is_some (redis.get s.leader))) [
    | inl e ↦ rw (e, acquire_script) refused
    | inr e ↦
        rw (e, acquire_script)
          (grant _ _ _
            (rw
              (
                holds,
                redis.get-set s.leader
                    (grant_value owner (get_counter (redis.incr s.leader_epoch))),
              )
              (text_eq_refl _))
            refl)
  ]

  take-Acquisition :
      (wait_replicas : ℕ) (acked : Option ℕ) (l : Grant) (t : Store) (epoch : ℤ) (value : Text)
      (ts : List Trip)
      → holds t value ≡ true
      → get_counter t.leader_epoch ≡ epoch
      → Acquisition wait_replicas acked l
          (take wait_replicas acked l (record { store = t; trips = ts }) (answer (epoch, value)))
  unfolding take
  take-Acquisition wait_replicas acked l t epoch value ts h g =
      elim (Bool-cases (leb_ℤ epoch (pos 0) || text_eq value [])) [
        | inl f ↦ rw (f, take) (refl, refl)
        | inr f ↦
            rw (f, take)
              (confirm-Acquisition wait_replicas acked l epoch value _ h g (ground arith))
      ]

  acquiring-Acquisition :
      (wait_replicas : ℕ) (acked : Option ℕ) (owner : Text) (l : Grant) (s : Store) (ts : List Trip)
      → Acquisition wait_replicas acked l (
          take wait_replicas acked l
            (record { store = (acquiring owner s).0; trips = ts })
            (answer_of (acquiring owner s).1))
  unfolding answer_of take
  acquiring-Acquisition wait_replicas acked owner l s ts =
      acquire_cases
        (λ r.
          Acquisition wait_replicas acked l
            (take wait_replicas acked l (record { store = r.0; trips = ts }) (answer r.1)))
        owner s (refl, refl)
        λ t epoch value h g. take-Acquisition wait_replicas acked l t epoch value ts h g

  pub acquire-Acquisition :
      (wait_replicas : ℕ) (acked : Option ℕ) (owner : Text) (l : Grant) (w : World)
      → Acquisition wait_replicas acked l (acquire wait_replicas acked owner l w)
  unfolding acquire take answer_of
  acquire-Acquisition wait_replicas acked owner l w =
      call_cases (λ r. Acquisition wait_replicas acked l (take wait_replicas acked l r.0 r.1))
        (acquiring owner) w (λ s ts r. refl) (λ s ts r. refl)
        λ s ts r. acquiring-Acquisition wait_replicas acked owner l s ts
