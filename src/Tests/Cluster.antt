-- ===== src/Tests/Cluster.antt =====
-- The demo cluster under faults, and the requests that cause them.
use distributed_task_queue_s.Prelude.{
  ℕ, ◌≡◌, wrap_int64, ◌^◌, ◌-◌, negsuc, ◌*ℤ◌, refl, true, none, some, List, [], ◌∷◌, pos, Text,
  codes, All, text_eq,
}
use distributed_task_queue_s.Console.{new_event_log}
use distributed_task_queue_s.Console.Request.{freeze, partition, restart, FaultRequest, validate}
use distributed_task_queue_s.Console.Supervisor.{
  Proc, Luck, Event, requests, launches, timer_fires, exits, clears, happens, supervise, clear_all,
}
use distributed_task_queue_s.Console.Tidy.{IsFree}
use distributed_task_queue_s.Console.Faults.{AreCalm, Ends, supervise-Ends}
use distributed_task_queue_s.Console.Cluster.{
  SupervisorOptions, check_options, new_supervisor, start_all, new_supervisor-start_all,
}
use distributed_task_queue_s.Console.Server.{
  ServerOptions, HttpRequest, Desk, post_fault, post_clear,
}
use distributed_task_queue_s.Console.Guarded.{IsGuarded, post_fault-IsGuarded}

-- Two schedulers and a worker.
abbrev two_and_one : SupervisorOptions
two_and_one = record {
  schedulers = pos 2;
  workers = pos 1;
  concurrency = pos 4;
  lease_ttl = pos 3000000000;
  lease_renew = pos 1000000000;
}

two_and_one_fine : check_options (λ role. true) two_and_one ≡ none
unfolding check_options
two_and_one_fine = refl

abbrev sched_0 : Text
sched_0 = codes "sched-0"

abbrev sched_1 : Text
sched_1 = codes "sched-1"

abbrev cluster : List Proc
cluster = start_all (new_supervisor two_and_one)

abbrev freeze_0 : FaultRequest
freeze_0 = record { action = freeze; target = sched_0; duration_ms = pos 5000 }

abbrev cut_leader : FaultRequest
cut_leader = record { action = partition; target = codes "leader"; duration_ms = pos 2000 }

abbrev restart_0 : FaultRequest
restart_0 = record { action = restart; target = sched_0; duration_ms = pos 0 }

abbrev granted : Luck
granted = record { succeeds = true; shown_stopped = some true }

-- A freeze, a partition of the leader, a second freeze that is refused, the end of the partition, and an exit with a restart.
abbrev happenings : List Event
happenings =
    requests freeze_0 [] (pos 7) granted
    ∷ requests cut_leader sched_1 (pos 8) granted
    ∷ requests freeze_0 [] (pos 9) granted
    ∷ timer_fires sched_1 1 true
    ∷ exits sched_0
    ∷ requests restart_0 [] (pos 9) granted
    ∷ launches sched_0 true
    ∷ []

freeze_0_fine : validate freeze_0 ≡ none
unfolding validate ◌*ℤ◌
freeze_0_fine = refl

happenings_calm : AreCalm happenings cluster
unfolding AreCalm text_eq ◌*ℤ◌ start_all new_supervisor happens
happenings_calm = (tt, (tt, (tt, (refl, (tt, (tt, ((λ e. refl, (λ e. cc, (λ e. cc, tt))), tt)))))))

supervise-Ends_example :
    All Ends (supervise happenings cluster)
    × All IsFree (clear_all (λ name. true) (supervise happenings cluster))
supervise-Ends_example =
    supervise-Ends happenings cluster happenings_calm (new_supervisor-start_all two_and_one)

-- Two restarts of an exited process overlap, and its first new command is frozen in between. When all
-- faults have been ended, that command is still stopped.
abbrev overlapping : List Event
overlapping =
    exits sched_0
    ∷ requests restart_0 [] (pos 1) granted
    ∷ requests restart_0 [] (pos 2) granted
    ∷ launches sched_0 true
    ∷ requests freeze_0 [] (pos 3) granted
    ∷ launches sched_0 true
    ∷ clears (λ name. true)
    ∷ []

abbrev left_of : List Proc → ℕ
left_of [] = 0
left_of (p ∷ ps) = p.left

stays_stopped : left_of (supervise overlapping cluster) ≡ 1
unfolding supervise text_eq ◌*ℤ◌ start_all new_supervisor
stays_stopped = refl

abbrev demo : ServerOptions
demo = record {
  supervised = true;
  faults_enabled = true;
  token = codes "secret";
  hosts = codes "127.0.0.1:8088" ∷ [];
  origins = [];
}

abbrev posted : HttpRequest
posted = record {
  host = codes "127.0.0.1:8088";
  origin = codes "http://127.0.0.1:8088";
  fetch_site = codes "same-origin";
  content_type = codes "application/json";
  console_token = codes "secret";
}

abbrev desk : Desk
desk = record { procs = cluster; log = new_event_log 100 }

post_fault-IsGuarded_example :
    IsGuarded
      (λ s. s)
      demo
      posted
      (λ d. d)
      desk
      (post_fault (λ s. s) demo posted (some freeze_0) [] (pos 7) granted (λ d. d) [] (pos 7) desk)
    × IsGuarded
        (λ s. s)
        demo
        posted
        (λ d. d)
        desk
        (post_clear (λ s. s) demo posted true (λ name. true) [] (pos 7) desk)
post_fault-IsGuarded_example =
    post_fault-IsGuarded (λ s. s) demo posted (some freeze_0) true (λ name. true) [] (pos 7) granted
      (λ d. d) [] (pos 7) desk

-- The request is answered 200.
posted_lem :
    (post_fault (λ s. s) demo posted (some freeze_0) [] (pos 7) granted (λ d. d) [] (pos 7) desk).1
    ≡ 200
unfolding post_fault text_eq ◌*ℤ◌ start_all new_supervisor
posted_lem = refl

-- 2^64 - 1 ms are -1 ms.
wrapped_lem : wrap_int64 (pos (2 ^ 64 - 1)) ≡ negsuc 0
unfolding wrap_int64
wrapped_lem = refl
