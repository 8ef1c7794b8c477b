-- ===== src/Console/Server.antt =====
-- The requests of internal/console/server.go that change state: the checks of `guard` and `write`, and
-- the handlers `fault` and `clear`. Headers of the answer and its text are left out; what a handler
-- reports to the log is an argument.
use distributed_task_queue_s.Prelude.{
  ℕ, ◌==◌, Bool, true, false, not, ◌&&◌, ◌||◌, Option, none, some, List, [], ◌∷◌, ◌++◌, map, Text,
  codes, text_eq, if◌then◌else◌,
}
use distributed_task_queue_s.Domain.Time.{Time}
use distributed_task_queue_s.Config.Defaults.{is_blank}
use distributed_task_queue_s.Console.{Event, EventLog, add}
use distributed_task_queue_s.Console.Request.{
  Action, kill, terminate, freeze, partition, restart, unknown, FaultRequest, Refusal, is_rejected,
}
use distributed_task_queue_s.Console.Supervisor.{
  Proc, Luck, Outcome, ended, launching, apply, finish_launch, clear_all,
}

-- ServerOptions. `supervised`: there is a supervisor.
pub record ServerOptions : Type 0 where
  pub supervised : Bool
  pub faults_enabled : Bool
  pub token : Text
  pub hosts : List Text
  pub origins : List Text

-- A request, with the headers that are looked at; a header that is not there is the empty text.
pub record HttpRequest : Type 0 where
  pub host : Text
  pub origin : Text
  pub fetch_site : Text
  pub content_type : Text
  pub console_token : Text

-- What the handlers change.
pub record Desk : Type 0 where
  pub procs : List Proc
  pub log : EventLog

unfoldable pub is_listed : Text → List Text → Bool
is_listed x [] = false
is_listed x (y ∷ ys) = text_eq x y || is_listed x ys

unfoldable pub has_prefix : Text → Text → Bool
has_prefix s [] = true
has_prefix [] (p ∷ ps) = false
has_prefix (c ∷ s) (p ∷ ps) = (c == p) && has_prefix s ps

-- strings.TrimRight(s, "/"), and 47 is the slash.
unfoldable pub trim_slashes : Text → Text
trim_slashes [] = []
trim_slashes (c ∷ s) =
    let rest = trim_slashes s in if (c == 47) && is_blank rest then [] else c ∷ rest

abbrev pub misdirected : ℕ
misdirected = 421

abbrev pub forbidden : ℕ
forbidden = 403

abbrev pub unsupported_media_type : ℕ
unsupported_media_type = 415

abbrev pub unauthorized : ℕ
unauthorized = 401

abbrev pub bad_request : ℕ
bad_request = 400

abbrev pub conflict : ℕ
conflict = 409

abbrev pub ok : ℕ
ok = 200

-- `apply` refuses an unknown action.
abbrev pub action_text : Action → Text
action_text kill = codes "kill"
action_text terminate = codes "terminate"
action_text freeze = codes "freeze"
action_text partition = codes "partition"
action_text restart = codes "restart"
action_text unknown = []

-- `add` numbers the event.
abbrev pub control_event : Text → Text → Text → Time → Event
control_event kind subject said at = record {
  seq = 0;
  at = at;
  source = codes "control";
  kind = kind;
  subject = subject;
  message = said;
}

-- What `fault` does with the outcome of `apply`.
unfoldable pub answer : FaultRequest → Text → Time → List Proc × Option Refusal → Desk → Desk × ℕ
unfolding add is_rejected
answer req said at (ps, some e) d =
    (record d { procs = ps }, if is_rejected e then conflict else bad_request)
answer req said at (ps, none) d = (
  record {
    procs = ps;
    log = add (control_event (codes "fault_" ++ action_text req.action) req.target said at) d.log;
  },
  ok,
)

-- The rest of a request for a fault; a launch comes after what `others` do meanwhile.
unfoldable pub finish_apply :
    FaultRequest → Luck → (Desk → Desk) → Text → Time → List Proc × Outcome → Desk → Desk × ℕ
unfolding answer finish_launch
finish_apply req luck others said at (ps, ended r) d = answer req said at (ps, r) d
finish_apply req luck others said at (ps, launching name) d =
    let d' = others (record d { procs = ps }) in
    answer req said at (finish_launch name luck.succeeds d'.procs) d'

-- `lower` is strings.ToLower.
module _ (lower : Text → Text) (opt : ServerOptions) where
  unfoldable pub known_host : Text → Bool
  unfolding is_listed
  known_host h = is_listed h (map lower opt.hosts)

  -- The configured extras: origins of a dev server.
  unfoldable pub extra : List Text
  unfolding trim_slashes
  extra = map (λ o. lower (trim_slashes o)) opt.origins

  unfoldable pub origins : List Text
  unfolding extra
  origins = map (λ h. codes "http://" ++ lower h) opt.hosts ++ extra

  unfoldable pub dev_origin : HttpRequest → Bool
  unfolding extra is_listed
  dev_origin r = let o = lower r.origin in not (is_blank o) && is_listed o extra

  unfoldable pub write : HttpRequest → (Desk → Desk × ℕ) → Desk → Desk × ℕ
  unfolding origins is_listed dev_origin has_prefix
  write r h d =
      if is_blank opt.token
      then (d, forbidden)
      else if not (is_blank r.origin) && not (is_listed (lower r.origin) origins)
      then (d, forbidden)
      else if not (is_blank r.fetch_site)
          && not (text_eq r.fetch_site (codes "same-origin"))
          && not (text_eq r.fetch_site (codes "none"))
          && not (dev_origin r)
      then (d, forbidden)
      else if not (has_prefix r.content_type (codes "application/json"))
      then (d, unsupported_media_type)
      else if not (text_eq r.console_token opt.token)
      then (d, unauthorized)
      else h d

  unfoldable pub guard : HttpRequest → (Desk → Desk × ℕ) → Desk → Desk × ℕ
  unfolding known_host
  guard r next d = if not (known_host (lower r.host)) then (d, misdirected) else next d

  abbrev pub faults_off : Bool
  faults_off = not opt.supervised || not opt.faults_enabled

  -- The handler of POST /api/v1/faults; `body` is what `decode` makes of the body's first 4096 bytes.
  unfoldable pub fault :
      Option FaultRequest → Text → Time → Luck → (Desk → Desk) → Text → Time → Desk → Desk × ℕ
  unfolding finish_apply apply
  fault body owner now luck others said at d = if faults_off then (d, forbidden) else elim body [
    | none ↦ (d, bad_request)
    | some req ↦ finish_apply req luck others said at (apply req owner now luck d.procs) d
  ]

  -- The handler of POST /api/v1/faults/clear; `decoded`: the body is an empty object.
  unfoldable pub clear : Bool → (Text → Bool) → Text → Time → Desk → Desk × ℕ
  unfolding clear_all add
  clear decoded resumed said at d =
      if faults_off then (d, forbidden) else if not decoded then (d, bad_request) else (
        record {
          procs = clear_all resumed d.procs;
          log = add (control_event (codes "faults_cleared") [] said at) d.log;
        },
        ok,
      )

  unfoldable pub post_fault :
      HttpRequest
      → Option FaultRequest
      → Text
      → Time
      → Luck
      → (Desk → Desk)
      → Text
      → Time
      → Desk
      → Desk × ℕ
  unfolding guard write fault
  post_fault r body owner now luck others said at =
      guard r (λ d. write r (λ d. fault body owner now luck others said at d) d)

  unfoldable pub post_clear : HttpRequest → Bool → (Text → Bool) → Text → Time → Desk → Desk × ℕ
  unfolding guard write clear
  post_clear r decoded resumed said at =
      guard r (λ d. write r (λ d. clear decoded resumed said at d) d)
