-- ===== src/Broker/Room.antt =====
-- How much the dispatch script of internal/broker/scripts.go hands out, and what it writes.
use distributed_task_queue_s.Prelude.{
  subst, ℕ, suc, ◌<◌, ◌≡◌, refl, sym, ap, ◌∙◌, false, some, List, [], ◌∷◌, ◌++◌, append-nil,
  append_assoc, map, length, ℤ, pos, ◌+ℤ◌, ◌≤ℤ◌, +ℤ_parts, eq_of_parts, Text, arith,
}
use distributed_task_queue_s.Env.Float.{Float64}
use distributed_task_queue_s.Env.Redis.{Redis}
use distributed_task_queue_s.Policy.Key.{Key}
use distributed_task_queue_s.Broker.Store.{Store, ExecEntry}
use distributed_task_queue_s.Broker.Scripts.{
  Triple, reply, get_counter, publish, at_limit, dispatch_body, dispatch_script,
}
use distributed_task_queue_s.Broker.Guard.{guarded_reply}
use distributed_task_queue_s.Broker.Loop.{rounds, rounds_rule, round_cases}

add_count : (a : ℤ) (n : ℕ) → a +ℤ pos 1 +ℤ pos n ≡ a +ℤ pos (suc n)
add_count a n =
    eq_of_parts _ _
      (omega (arith, +ℤ_parts a (pos 1), +ℤ_parts (a +ℤ pos 1) (pos n), +ℤ_parts a (pos (suc n))))

add_none : (a : ℤ) → a ≡ a +ℤ pos 0
add_none a = eq_of_parts a (a +ℤ pos 0) (omega (arith, +ℤ_parts a (pos 0)))

module _ ⦃fl : Float64⦄ ⦃redis : Redis⦄ (limit : ℕ) (now : ℤ) (epoch : ℤ) where
  open redis use {entries}

  abbrev pub in_flight : Store → ℤ
  in_flight s = get_counter s.inflight

  -- The entry that a task handed out has on the execution stream.
  abbrev pub entry_of : Triple → ExecEntry
  entry_of u = record { task = u.1; dispatched_at_ms = now; epoch = some epoch }

  pub record Room (max_len : ℕ) (s : Store) (r : Store × List Triple) : Type 0 where
    pub counted : in_flight r.0 ≡ in_flight s +ℤ pos (length r.1)
    pub bounded : 0 < limit → 0 < length r.1 → in_flight r.0 ≤ℤ pos limit
    pub published : max_len ≡ 0 → entries r.0.exec ≡ entries s.exec ++ map entry_of r.1
    pub payloads : r.0.payloads ≡ s.payloads

  Room-stop : (max_len : ℕ) (s : Store) → Room max_len s (s, [])
  Room-stop max_len s = record {
    counted = add_none (in_flight s);
    bounded = λ p q. absurd (omega arith);
    published = λ _. sym (append-nil (entries s.exec));
    payloads = refl;
  }

  in_flight-publish :
      (payload : Text) (max_len : ℕ) (s : Store)
      → in_flight (publish payload now max_len epoch s) ≡ in_flight s +ℤ pos 1
  unfolding publish
  in_flight-publish payload max_len s = rw (redis.get-incr s.inflight)

  not_at_limit :
      (s : Store) → at_limit s limit ≡ false → 0 < limit → in_flight s +ℤ pos 1 ≤ℤ pos limit
  unfolding at_limit
  not_at_limit s h p = ground (arith, +ℤ_parts (in_flight s) (pos 1))

  Room-take :
      (payload : Text) (k : Key) (max_len : ℕ) (s s' : Store) (more : Store × List Triple)
      → at_limit s limit ≡ false
      → s'.inflight ≡ s.inflight
      → s'.exec ≡ s.exec
      → s'.payloads ≡ s.payloads
      → Room max_len (publish payload now max_len epoch s') more
      → Room max_len s (more.0, (k, payload) ∷ more.1)
  unfolding publish
  Room-take payload k max_len s s' (t, us) room same kept held h =
      let first : in_flight (publish payload now max_len epoch s') ≡ in_flight s +ℤ pos 1 =
        in_flight-publish payload max_len s' ∙ ap (λ c. get_counter c +ℤ pos 1) same in
      let total : in_flight t ≡ in_flight s +ℤ pos (suc (length us)) =
        h.counted ∙ ap (λ a. a +ℤ pos (length us)) first ∙ add_count (in_flight s) (length us) in
      record {
        counted = total;
        bounded = λ p _. ground (arith, not_at_limit s room p, h.bounded p, total);
        published = λ z.
            rw (h.published z, kept, z, redis.entries-xadd s.exec)
              (append_assoc (entries s.exec) (entry_of (k, payload) ∷ []) (map entry_of us));
        payloads = h.payloads ∙ held;
      }

  Room-drop :
      (max_len : ℕ) (s s' : Store) (more : Store × List Triple)
      → s'.inflight ≡ s.inflight
      → s'.exec ≡ s.exec
      → s'.payloads ≡ s.payloads
      → Room max_len s' more
      → Room max_len s more
  Room-drop max_len s s' more same kept held h = record {
    counted = h.counted ∙ ap (λ c. get_counter c +ℤ pos (length more.1)) same;
    bounded = h.bounded;
    published = λ z. h.published z ∙ ap (λ e. entries e ++ map entry_of more.1) kept;
    payloads = h.payloads ∙ held;
  }

  rounds-Room : (max_len n : ℕ) (s : Store) → Room max_len s (rounds limit now max_len epoch n s)
  rounds-Room max_len =
      rounds_rule limit now max_len epoch (λ n s r. Room max_len s r) (λ n s. Room-stop max_len s)
        λ n s k rest more room e.
          round_cases limit now max_len epoch
            (λ r. Room max_len r.0 more → Room max_len s (more.0, r.1 ++ more.1)) k rest s
            (λ _ g. Room-drop max_len s _ more refl refl refl g)
            λ payload _ g. Room-take payload k max_len s _ more room refl refl refl g

  -- A dispatch that replies raises the count of tasks in flight by the number of tasks it hands out, and to at
  -- most the limit, if there is one and it hands out any; it appends one entry per task, in the
  -- order of its reply, if the stream is not trimmed, and keeps every payload for redelivery.
  pub dispatch_script-Room :
      (n max_len : ℕ) (s s' : Store) (out : List Triple)
      → dispatch_script n limit now max_len epoch s ≡ (s', reply out)
      → Room max_len s (s', out)
  unfolding dispatch_script dispatch_body
  dispatch_script-Room n max_len s s' out e =
      let (c, _, b) = guarded_reply epoch (dispatch_body n limit now max_len epoch) s s' out e in
      let r = rounds limit now max_len epoch n (record s { fence = c }) in
      let same : r ≡ (s', out) = ground (arith, b) in
      subst (Room max_len s) same (
        Room-drop max_len s (record s { fence = c }) r refl refl refl
          (rounds-Room max_len n (record s { fence = c })))
