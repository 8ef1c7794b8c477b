-- ===== src/Env/Heap.antt =====
-- container/heap over a slice of entries, with the laws that its documentation gives for a heap that
-- only Init, Push and Pop have touched: Pop takes out a least element.
use mathlib.Core.List.{Mem, Perm}
use distributed_task_queue_s.Prelude.{◌≡◌, Bool, false, Option, none, some, List, [], ◌∷◌}

pub record Heaps {ℓ} (E : Type ℓ) (less : E → E → Bool) : Type (ℓ + 1) where
  pub Heap : Type ℓ
  pub empty : Heap
  -- The slice.
  pub items : Heap → List E
  pub push : Heap → E → Heap
  -- `none`: the slice is empty, on which Pop panics.
  pub pop : Heap → Option (E × Heap)
  pub items-empty : items empty ≡ []
  pub items-push : (h : Heap) (e : E) → Perm (e ∷ items h) (items (push h e))
  pub pop_none : (h : Heap) → pop h ≡ none → items h ≡ []
  pub pop_items :
      (h : Heap) (e : E) (rest : Heap) → pop h ≡ some (e, rest) → Perm (e ∷ items rest) (items h)
  pub pop_least :
      (h : Heap) (e : E) (rest : Heap)
      → pop h ≡ some (e, rest)
      → (x : E) → Mem x (items h)
      → less x e ≡ false
