-- ===== src/Process/World.antt =====
-- One call of internal/broker to Redis, seen from the process that makes it: other processes run
-- before it, the request or the reply can be lost, and a lost reply leaves the write in place.
use distributed_task_queue_s.Prelude.{List, [], ◌∷◌}
use distributed_task_queue_s.Env.Float.{Float64}
use distributed_task_queue_s.Env.Redis.{Redis}
use distributed_task_queue_s.Broker.Store.{Store}
use distributed_task_queue_s.Broker.Scripts.{Reply, reply, fenced_error}
use distributed_task_queue_s.System.Steps.{Steps, done}

-- What becomes of a call; a cancelled context is a lost request or reply.
pub data Fate : Type 0 where
  arrives request_lost reply_lost : Fate

-- A Go method's value, or its error: ErrFenced or another one.
pub data Answer {ℓ} (A : Type ℓ) : Type ℓ where
  answer : A → Answer A
  err_fenced : Answer A
  err_other : Answer A

unfoldable pub map_answer {ℓ κ} : {A : Type ℓ} {B : Type κ} → (A → B) → Answer A → Answer B
map_answer f (answer a) = answer (f a)
map_answer f err_fenced = err_fenced
map_answer f err_other = err_other

-- `fenced(err)` recognises the refusal.
unfoldable pub answer_of {ℓ} : {A : Type ℓ} → Reply A → Answer A
answer_of (reply a) = answer a
answer_of fenced_error = err_fenced

module _ ⦃fl : Float64⦄ ⦃redis : Redis⦄ where
  -- What happens around the next call: the steps of the others, and its fate.
  pub record Trip : Type 0 where
    pub before : (s : Store) → (t : Store) × Steps s t
    pub fate : Fate

  -- The store, and the calls to come; beyond them nothing is lost and nobody interferes.
  pub record World : Type 0 where
    pub store : Store
    pub trips : List Trip

  unfoldable pub carry {ℓ} :
      {A : Type ℓ} → Fate → (Store → Store × Reply A) → Store → List Trip → World × Answer A
  unfolding answer_of
  carry arrives script s ts =
      let (s', r) = script s in (record { store = s'; trips = ts }, answer_of r)
  carry request_lost script s ts = (record { store = s; trips = ts }, err_other)
  carry reply_lost script s ts = (record { store = (script s).0; trips = ts }, err_other)

  unfoldable pub call {ℓ} : {A : Type ℓ} → (Store → Store × Reply A) → World → World × Answer A
  unfolding carry
  call script w = elim w.trips [
    | [] ↦ carry arrives script w.store []
    | t ∷ ts ↦ carry t.fate script (t.before w.store).0 ts
  ]

  -- A call's three ends.
  pub call_cases {ℓ κ} :
      {A : Type ℓ} (P : World × Answer A → Type κ) (script : Store → Store × Reply A) (w : World)
      → ((s : Store) (ts : List Trip)
          → Steps w.store s
          → P (record { store = s; trips = ts }, err_other))
      → ((s : Store) (ts : List Trip)
          → Steps w.store s
          → P (record { store = (script s).0; trips = ts }, err_other))
      → ((s : Store) (ts : List Trip)
          → Steps w.store s
          → P (record { store = (script s).0; trips = ts }, answer_of (script s).1))
      → P (call script w)
  unfolding call carry
  call_cases {A} P script w lost unheard heard = whole w.trips
    where
      carried :
          (fate : Fate) (s : Store) (ts : List Trip) → Steps w.store s → P (carry fate script s ts)
      carried arrives s ts r = heard s ts r
      carried request_lost s ts r = lost s ts r
      carried reply_lost s ts r = unheard s ts r

      whole :
          (all : List Trip)
          → P (elim all [
            | [] ↦ carry arrives script w.store []
            | t ∷ ts ↦ carry t.fate script (t.before w.store).0 ts
          ])
      whole [] = carried arrives w.store [] done
      whole (t ∷ ts) = carried t.fate (t.before w.store).0 ts (t.before w.store).1
