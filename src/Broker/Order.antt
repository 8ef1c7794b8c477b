-- ===== src/Broker/Order.antt =====
-- Which pending tasks the dispatch script of internal/broker/scripts.go hands out, and in which
-- order.
use distributed_task_queue_s.Prelude.{
  subst, ℕ, suc, ◌≤◌, ◌≡◌, refl, false, some, List, [], ◌∷◌, ◌++◌, All, All-map, length, ℤ, Text,
  arith,
}
use distributed_task_queue_s.Env.Float.{Float64}
use distributed_task_queue_s.Env.Redis.{Redis}
use distributed_task_queue_s.Policy.Key.{Key, less}
use distributed_task_queue_s.Broker.Store.{Store}
use distributed_task_queue_s.Broker.Scripts.{Triple, reply, publish, dispatch_body, dispatch_script}
use distributed_task_queue_s.Broker.Guard.{guarded_reply}
use distributed_task_queue_s.Broker.Loop.{rounds, rounds_rule, round_cases}

module _ ⦃fl : Float64⦄ ⦃redis : Redis⦄ where
  open redis use {zscore}

  -- The key is in the pending set.
  abbrev pub Waits : Store → Key → Type 0
  Waits s k = zscore s.pending k.member ≡ some k.score

  -- No later entry comes before an earlier one.
  abbrev pub Ascending : List Triple → Type 0
  Ascending [] = Unit
  Ascending (u ∷ us) = All (λ v. less v.0 u.0 ≡ false) us × Ascending us

  -- What a call handed out: pending tasks, at most `n`, least first, and nothing that is left comes
  -- before any of them.
  pub record Least (n : ℕ) (s : Store) (r : Store × List Triple) : Type 0 where
    pub bounded : length r.1 ≤ n
    pub chosen : All (λ u. Waits s u.0) r.1
    pub ascending : Ascending r.1
    pub left : (j : Key) → Waits r.0 j → Waits s j × All (λ u. less j u.0 ≡ false) r.1

  Least-stop : (n : ℕ) (s : Store) → Least n s (s, [])
  Least-stop n s = record {
    bounded = omega arith;
    chosen = tt;
    ascending = tt;
    left = λ j w. (w, tt);
  }

  module _ (s : Store) (k : Key) (rest : redis.ZSet)
      (popped : redis.zpopmin s.pending ≡ some (k, rest)) (s' : Store)
      (kept : s'.pending ≡ rest) where
    Waits-back : (j : Key) → Waits s' j → Waits s j
    Waits-back j w = ground (arith, redis.zpopmin_rest s.pending k rest popped j.member)

    popped_least : (j : Key) → Waits s' j → less j k ≡ false
    popped_least j w = redis.zpopmin_least s.pending k rest popped j (Waits-back j w)

    -- A popped member without payload is dropped.
    Least-drop : (n : ℕ) (more : Store × List Triple) → Least n s' more → Least (suc n) s more
    Least-drop n more ih = record {
      bounded = omega (arith, ih.bounded);
      chosen = All-map _ _ more.1 (λ u. Waits-back u.0) ih.chosen;
      ascending = ih.ascending;
      left = λ j w. (Waits-back j (ih.left j w).0, (ih.left j w).1);
    }

    Least-take :
        (n : ℕ) (payload : Text) (more : Store × List Triple)
        → Least n s' more
        → Least (suc n) s (more.0, (k, payload) ∷ more.1)
    Least-take n payload more ih = record {
      bounded = omega (arith, ih.bounded);
      chosen = (
        redis.zpopmin_score s.pending k rest popped,
        All-map _ _ more.1 (λ u. Waits-back u.0) ih.chosen,
      );
      ascending = (All-map _ _ more.1 (λ u. popped_least u.0) ih.chosen, ih.ascending);
      left =
          λ j w. (Waits-back j (ih.left j w).0, (popped_least j (ih.left j w).0, (ih.left j w).1));
    }

  rounds-Least :
      (limit : ℕ) (now : ℤ) (max_len : ℕ) (epoch : ℤ) (n : ℕ) (s : Store)
      → Least n s (rounds limit now max_len epoch n s)
  unfolding publish
  rounds-Least limit now max_len epoch =
      rounds_rule limit now max_len epoch Least Least-stop λ n s k rest more room e ih.
        round_cases limit now max_len epoch
          (λ r. Least n r.0 more → Least (suc n) s (more.0, r.1 ++ more.1)) k rest s
          (λ _ g. Least-drop s k rest e _ refl n more g)
          (λ payload _ g. Least-take s k rest e _ refl n payload more g) ih

  -- The order does not depend on the fence.
  Least-fence :
      (n : ℕ) (s : Store) (c : redis.Cell ℤ) (r : Store × List Triple)
      → Least n (record s { fence = c }) r
      → Least n s r
  Least-fence n s c r h = record {
    bounded = h.bounded;
    chosen = h.chosen;
    ascending = h.ascending;
    left = h.left;
  }

  -- What the dispatch script hands out, when it replies, are tasks that were pending, at most as many
  -- as asked for, in the order of their keys, and what stays pending was pending and comes before none
  -- of them.
  pub dispatch_script-Least :
      (n limit : ℕ) (now : ℤ) (max_len : ℕ) (epoch : ℤ) (s s' : Store) (out : List Triple)
      → dispatch_script n limit now max_len epoch s ≡ (s', reply out)
      → Least n s (s', out)
  unfolding dispatch_script dispatch_body
  dispatch_script-Least n limit now max_len epoch s s' out e =
      let (c, _, b) = guarded_reply epoch (dispatch_body n limit now max_len epoch) s s' out e in
      let r = rounds limit now max_len epoch n (record s { fence = c }) in
      let same : r ≡ (s', out) = ground (arith, b) in
      Least-fence n s c (s', out)
        (subst (Least n (record s { fence = c })) same
          (rounds-Least limit now max_len epoch n (record s { fence = c })))
