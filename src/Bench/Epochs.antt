-- ===== src/Bench/Epochs.antt =====
-- epochWatch of cmd/storefaultbench/main.go: which epochs were handed out, kept outside the store.
use distributed_task_queue_s.Prelude.{
  ℕ, suc, Option, none, some, List, [], ◌∷◌, ℤ, pos, ltb_ℤ, leb_ℤ, Text, text_eq, ◌||◌, ◌&&◌,
  if◌then◌else◌,
}
use distributed_task_queue_s.Process.Reads.{split_holder}

pub record EpochWatch : Type 0 where
  pub seen : List (ℤ × Text)
  pub max : ℤ
  pub issued : ℕ

abbrev pub new_epoch_watch : EpochWatch
new_epoch_watch = record { seen = []; max = pos 0; issued = 0 }

unfoldable pub owner_at : ℤ → List (ℤ × Text) → Option Text
owner_at epoch [] = none
owner_at epoch ((e, owner) ∷ seen) =
    let rest = owner_at epoch seen in if leb_ℤ e epoch && leb_ℤ epoch e then some owner else rest

-- The previous owner of a reused epoch, if any.
unfoldable pub observe : Text → ℤ → EpochWatch → EpochWatch × Option Text
unfolding owner_at
observe owner epoch w = if leb_ℤ epoch (pos 0) then (w, none) else (elim (owner_at epoch w.seen) [
  | some had ↦ (w, some had)
  | none ↦ (
    record w {
      seen = (epoch, owner) ∷ w.seen;
      issued = suc w.issued;
      max = if ltb_ℤ w.max epoch then epoch else w.max;
    },
    none,
  )
])

-- One poll of watchEpochs: `none` is a key that is absent or cannot be read.
unfoldable pub poll : (Text → ℤ) → Option Text → Text → EpochWatch → Text × EpochWatch × Option Text
unfolding observe split_holder
poll parse_int none last w = (last, w, none)
poll parse_int (some v) last w =
    let (owner, epoch) = split_holder parse_int v in
    let (w', reused) = observe owner epoch w in
    if text_eq v [] || text_eq v last then (last, w, none) else (v, w', reused)
