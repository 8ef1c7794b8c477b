-- ===== src/Console/Cluster.antt =====
-- The set-up of the demo cluster of internal/console/supervisor.go: NewSupervisor, Start, Slots and
-- States. Addresses and arguments of the processes are left out.
use distributed_task_queue_s.Prelude.{
  ℕ, zero, suc, ◌+◌, ◌-◌, refl, Bool, true, false, not, ◌||◌, none, List, [], ◌∷◌, ◌++◌, ℤ, pos,
  ltb_ℤ, leb_ℤ, ◌*ℤ◌, Text, codes, All, append-nil, subst, Option, some, negsuc, if◌then◌else◌,
}
use distributed_task_queue_s.Console.Request.{Role, scheduler, worker}
use distributed_task_queue_s.Console.Supervisor.{ProcessState, exited, ActiveFault, Proc, launch}
use distributed_task_queue_s.Console.Tidy.{IsTidy, is_tidy}

pub record SupervisorOptions : Type 0 where
  pub schedulers : ℤ
  pub workers : ℤ
  pub concurrency : ℤ
  pub lease_ttl : ℤ
  pub lease_renew : ℤ

pub data OptionError : Type 0 where
  bad_schedulers bad_workers bad_concurrency bad_lease_renew no_binary : OptionError

abbrev pub beyond : ℤ → ℤ → ℤ → Bool
beyond low high n = ltb_ℤ n low || ltb_ℤ high n

-- `executable`: the binary of a role is there.
unfoldable pub check_options : (Role → Bool) → SupervisorOptions → Option OptionError
check_options executable opt =
    if beyond (pos 1) (pos 3) opt.schedulers
    then some bad_schedulers
    else if beyond (pos 1) (pos 4) opt.workers
    then some bad_workers
    else if beyond (pos 1) (pos 16) opt.concurrency
    then some bad_concurrency
    else if leb_ℤ opt.lease_renew (pos 0) || leb_ℤ opt.lease_ttl opt.lease_renew
    then some bad_lease_renew
    else if not (executable scheduler) || not (executable worker)
    then some no_binary
    else none

-- A process that has not been started, by its prefix and its number, which is one digit.
unfoldable pub new_proc : Role → Text → ℕ → Proc
new_proc role prefix i = record {
  name = prefix ++ (48 + i) ∷ [];
  role = role;
  state = exited;
  fault = none;
  starts = 0;
  serial = 0;
  linked = false;
  cut = false;
  frozen = false;
  left = 0;
}

-- `n` processes from number `i` on.
unfoldable pub new_procs : Role → Text → ℕ → ℕ → List Proc
unfolding new_proc
new_procs role prefix i zero = []
new_procs role prefix i (suc n) = new_proc role prefix i ∷ new_procs role prefix (suc i) n

abbrev pub number : ℤ → ℕ
number (pos n) = n
number (negsuc n) = 0

-- NewSupervisor, once the options are checked.
unfoldable pub new_supervisor : SupervisorOptions → List Proc
unfolding new_procs
new_supervisor opt =
    new_procs scheduler (codes "sched-") 0 (number opt.schedulers)
    ++ new_procs worker (codes "worker-") 0 (number opt.workers)

abbrev pub is_scheduler : Role → Bool
is_scheduler scheduler = true
is_scheduler worker = false

-- Start, if all proxies and processes come up.
unfoldable pub start_all : List Proc → List Proc
unfolding launch
start_all [] = []
start_all (p ∷ ps) = launch (record p { linked = is_scheduler p.role || p.linked }) ∷ start_all ps

unfoldable pub slots : SupervisorOptions → ℤ
slots opt = opt.workers *ℤ opt.concurrency

pub data Link : Type 0 where
  unlinked connected partitioned : Link

-- What States reports of a process.
pub record Report : Type 0 where
  pub name : Text
  pub state : ProcessState
  pub link : Link
  pub fault : Option ActiveFault
  pub restarts : ℕ

-- `max(p.starts-1, 0)`.
unfoldable pub report_of : Proc → Report
report_of p = record {
  name = p.name;
  state = p.state;
  link = if p.linked then if p.cut then partitioned else connected else unlinked;
  fault = p.fault;
  restarts = p.starts - 1;
}

unfoldable pub states : List Proc → List Report
unfolding report_of
states [] = []
states (p ∷ ps) = report_of p ∷ states ps

start_nil : All IsTidy (start_all [])
unfolding start_all
start_nil = tt

new_procs-start_all :
    (role : Role) (prefix : Text) (i n : ℕ) (rest : List Proc)
    → All IsTidy (start_all rest)
    → All IsTidy (start_all (new_procs role prefix i n ++ rest))
unfolding new_procs start_all IsTidy is_tidy
new_procs-start_all role prefix i zero rest h = h
new_procs-start_all role prefix i (suc n) rest h =
    ((refl, refl), new_procs-start_all role prefix (suc i) n rest h)

-- A cluster that has just been started is tidy.
pub new_supervisor-start_all :
    (opt : SupervisorOptions) → All IsTidy (start_all (new_supervisor opt))
unfolding new_supervisor
new_supervisor-start_all opt =
    let workers = new_procs worker (codes "worker-") 0 (number opt.workers) in
    new_procs-start_all scheduler (codes "sched-") 0 (number opt.schedulers) workers (
      subst (λ ps. All IsTidy (start_all ps)) (append-nil workers)
        (new_procs-start_all worker (codes "worker-") 0 (number opt.workers) [] start_nil))
