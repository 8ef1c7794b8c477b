-- ===== src/Console/Guarded.antt =====
-- internal/console/server.go: who may change the demo cluster.
use distributed_task_queue_s.Prelude.{
  ℕ, ◌≡◌, ◌⊎◌, refl, ap, Bool, true, false, not, text_eq_iff, ◌||◌, ◌&&◌, Option, none, some, List,
  inl, inr, Text, codes, text_eq, ◌==◌, arith,
}
use distributed_task_queue_s.Domain.Time.{Time}
use distributed_task_queue_s.Config.Defaults.{is_blank}
use distributed_task_queue_s.Console.Request.{FaultRequest}
use distributed_task_queue_s.Console.Supervisor.{
  Proc, Luck, Outcome, ended, launching, apply, finish_launch,
}
use distributed_task_queue_s.Console.Refused.{is_applied, true_lem, unless, IsKept, apply-IsKept}
use distributed_task_queue_s.Console.Server.{
  ServerOptions, HttpRequest, Desk, is_listed, has_prefix, known_host, origins, dev_origin, write,
  guard, fault, clear, post_fault, post_clear, ok, answer, finish_apply,
}

-- What `write`, `guard` and the handlers ask of a request.
unfoldable pub IsAuthorised : (Text → Text) → ServerOptions → HttpRequest → Type 0
IsAuthorised lower opt r =
    (known_host lower opt (lower r.host) ≡ true)
    × (is_blank opt.token ≡ false)
    × (r.console_token ≡ opt.token)
    × ((is_blank r.origin || is_listed (lower r.origin) (origins lower opt)) ≡ true)
    × (has_prefix r.content_type (codes "application/json") ≡ true)
    × (opt.supervised ≡ true)
    × (opt.faults_enabled ≡ true)

-- A request that is not authorised leaves the desk `d` as it is and is answered with an error. An
-- authorised one is answered 200, or with an error and leaves the desk as it is or, where the code
-- has let others go first, as the `others` have left it.
unfoldable pub IsGuarded :
    (Text → Text) → ServerOptions → HttpRequest → (Desk → Desk) → Desk → Desk × ℕ → Type 0
IsGuarded lower opt r others d (d', code) =
    ((d' ≡ d) × ((code == ok) ≡ false))
    ⊎ ((code ≡ ok) ⊎ ((d' ≡ others d) × ((code == ok) ≡ false))) × IsAuthorised lower opt r

module _ (lower : Text → Text) (opt : ServerOptions) (others : Desk → Desk) where
  -- The handler's part of the promise.
  IsSafe : Desk → Desk × ℕ → Type 0
  IsSafe d (d', code) =
      ((d' ≡ d) × ((code == ok) ≡ false))
      ⊎ ((code ≡ ok) ⊎ ((d' ≡ others d) × ((code == ok) ≡ false)))
        × (opt.supervised ≡ true)
        × (opt.faults_enabled ≡ true)

  answer-IsSafe :
      (req : FaultRequest) (luck : Luck) (said : Text) (at : Time) (d : Desk)
      (x : List Proc × Outcome)
      → (is_applied x.1 ≡ false → x.0 ≡ d.procs)
      → (opt.supervised ≡ true) × (opt.faults_enabled ≡ true)
      → IsSafe d (finish_apply req luck others said at x d)
  unfolding IsSafe answer finish_apply finish_launch
  answer-IsSafe req luck said at d (ps, ended none) kept on = inr (inl refl, on.0, on.1)
  answer-IsSafe req luck said at d (ps, ended (some e)) kept on =
      inl (ap (λ ps. record d { procs = ps }) (kept refl), ground arith)
  answer-IsSafe req luck said at d (ps, launching name) kept on =
      let same : others (record d { procs = ps }) ≡ others d =
        ap (λ ps. others (record d { procs = ps })) (kept refl) in
      elim luck.succeeds
        as (λ b. IsSafe d (
          answer req said at (finish_launch name b (others (record d { procs = ps })).procs)
            (others (record d { procs = ps })))) [
              | true ↦ inr (inl refl, on.0, on.1)
              | false ↦ inr (inr (same, refl), on.0, on.1)
            ]

  on_lem :
      (not opt.supervised || not opt.faults_enabled) ≡ false
      → (opt.supervised ≡ true) × (opt.faults_enabled ≡ true)
  on_lem h = ground arith

  fault-IsSafe :
      (body : Option FaultRequest) (owner : Text) (now : Time) (luck : Luck) (said : Text)
      (at : Time) (d : Desk)
      → IsSafe d (fault lower opt body owner now luck others said at d)
  unfolding IsSafe fault IsKept
  fault-IsSafe none owner now luck said at d =
      unless (IsSafe d) (not opt.supervised || not opt.faults_enabled) (inl (refl, refl))
        (λ h. inl (refl, refl))
  fault-IsSafe (some req) owner now luck said at d =
      let x = apply req owner now luck d.procs in
      unless (IsSafe d) (not opt.supervised || not opt.faults_enabled) (inl (refl, refl)) (λ h.
        answer-IsSafe req luck said at d x (apply-IsKept req owner now luck d.procs) (on_lem h))

  clear-IsSafe :
      (decoded : Bool) (resumed : Text → Bool) (said : Text) (at : Time) (d : Desk)
      → IsSafe d (clear lower opt decoded resumed said at d)
  unfolding IsSafe clear
  clear-IsSafe decoded resumed said at d = ground arith

  authorised_lem :
      (r : HttpRequest) (d : Desk) (x : Desk × ℕ)
      → IsSafe d x
      → (not (known_host lower opt (lower r.host))) ≡ false
      → is_blank opt.token ≡ false
      → (not (is_blank r.origin) && not (is_listed (lower r.origin) (origins lower opt))) ≡ false
      → (not (has_prefix r.content_type (codes "application/json"))) ≡ false
      → (not (text_eq r.console_token opt.token)) ≡ false
      → IsGuarded lower opt r others d x
  unfolding IsGuarded IsAuthorised IsSafe
  authorised_lem r d x (inl (e, n)) h t o c k = inl (e, n)
  authorised_lem r d x (inr (a, s, f)) h t o c k = inr (
    a,
    (
      true_lem h,
      t,
      (text_eq_iff r.console_token opt.token).0 (true_lem k),
      ground (arith, o),
      true_lem c,
      s,
      f,
    ),
  )

  -- `h` is a handler, with what it promises.
  write-IsGuarded :
      (r : HttpRequest) (h : Desk → Desk × ℕ) (d : Desk)
      → IsSafe d (h d)
      → (not (known_host lower opt (lower r.host))) ≡ false
      → IsGuarded lower opt r others d (write lower opt r h d)
  unfolding IsGuarded write
  write-IsGuarded r h d safe k =
      let P = IsGuarded lower opt r others d in
      unless P (is_blank opt.token) (refused 403 refl) (λ t.
        unless P (not (is_blank r.origin) && not (is_listed (lower r.origin) (origins lower opt)))
          (refused 403 refl)
          (λ o.
            unless P
              (not (is_blank r.fetch_site)
                && not (text_eq r.fetch_site (codes "same-origin"))
                && not (text_eq r.fetch_site (codes "none"))
                && not (dev_origin lower opt r))
              (refused 403 refl)
              (λ _.
                unless P (not (has_prefix r.content_type (codes "application/json")))
                  (refused 415 refl)
                  (λ c.
                    unless P (not (text_eq r.console_token opt.token)) (refused 401 refl)
                      (λ e. authorised_lem r d (h d) safe k t o c e)))))
    where
      refused : (code : ℕ) → (code == 200) ≡ false → IsGuarded lower opt r others d (d, code)
      refused code e = inl (refl, e)

  guard-IsGuarded :
      (r : HttpRequest) (h : Desk → Desk × ℕ) (d : Desk)
      → IsSafe d (h d)
      → IsGuarded lower opt r others d (guard lower opt r (λ d. write lower opt r h d) d)
  unfolding IsGuarded guard
  guard-IsGuarded r h d safe =
      unless (IsGuarded lower opt r others d) (not (known_host lower opt (lower r.host)))
        (inl (refl, refl)) (write-IsGuarded r h d safe)

module _ (lower : Text → Text) (opt : ServerOptions) where
  -- A request for a fault, and one to end all faults, changes a process or the log only if it is
  -- authorised: it names a known host, carries the console's token, which is not empty, as JSON, and
  -- an origin that is known if there is one, and faults are enabled. Otherwise it is answered with an
  -- error and changes nothing. An authorised request that is not answered 200 changes nothing
  -- either; if its restart fails to launch, the desk is as others have left it before the launch.
  pub post_fault-IsGuarded :
      (r : HttpRequest) (body : Option FaultRequest) (decoded : Bool) (resumed : Text → Bool)
      (owner : Text) (now : Time) (luck : Luck) (others : Desk → Desk) (said : Text) (at : Time)
      (d : Desk)
      → IsGuarded lower opt r others d (post_fault lower opt r body owner now luck others said at d)
        × IsGuarded lower opt r (λ d. d) d (post_clear lower opt r decoded resumed said at d)
  unfolding post_fault post_clear
  post_fault-IsGuarded r body decoded resumed owner now luck others said at d = (
    guard-IsGuarded lower opt others r (fault lower opt body owner now luck others said at) d
        (fault-IsSafe lower opt others body owner now luck said at d),
    guard-IsGuarded lower opt (λ d. d) r (clear lower opt decoded resumed said at) d
        (clear-IsSafe lower opt (λ d. d) decoded resumed said at d),
  )
