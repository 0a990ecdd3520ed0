-- ===== src/RegisterQueue/Tests.antt =====
-- Runs of the register queue, and the theorems at these inputs.
use sakura_embyboss.Prelude.{◌+◌, pos, true, false, ◌≡◌, refl, none, some, [], ◌∷◌, arith}
use sakura_embyboss.Database.{Emby}
use sakura_embyboss.RegisterQueue.{
  RegisterJob, Open, RegisterQueueManager, enqueue, head, enqueues, takes, starts, counts, Creation,
  Rows, process_job, created, registered,
}
use sakura_embyboss.RegisterQueue.Capacity.{IsSound, Reaches, start, step, initial, reached-IsSound}
use sakura_embyboss.RegisterQueue.Created.{Justified, process_job-Justified}
use sakura_embyboss.Points.Tests.{user}

abbrev limits : Open
limits = record { all_user = 3; register_worker_count = none; register_queue_limit = none }

abbrev job : RegisterJob
job = record { user_id = pos 7; username = "ann"; pwd2 = "1234"; stats = false; days = pos 30 }

abbrev waiting : RegisterQueueManager
waiting = (enqueue limits job (initial 2)).1

abbrev got : RegisterQueueManager
got = record waiting { queue = []; taken = job ∷ waiting.taken }

abbrev busy : RegisterQueueManager
busy = record got {
  taken = [];
  running = (job, false) ∷ got.running;
  active_jobs = got.active_jobs + 1;
}

-- A job that is queued, run and counted.
run_of_one : Reaches limits (initial 2) (record busy { running = (job, true) ∷ []; tem = 3 })
unfolding enqueue
run_of_one =
    step {m = busy}
      (step {m = got}
        (step {m = waiting} (step {m = initial 2} start (enqueues job)) (takes job [] refl))
        (starts job [] head))
      (counts job [] head)

reached-IsSound_example : IsSound limits (record busy { running = (job, true) ∷ []; tem = 3 })
reached-IsSound_example = reached-IsSound limits 2 (omega arith) run_of_one

abbrev candidate : Emby
candidate = record user { embyid = none; us = some (pos 30) }

abbrev made : Creation
made = ("e9", "secret", 5000)

abbrev rows : Rows
rows = record {
  current = some candidate;
  refreshed = some candidate;
  target = some candidate;
  stored = true;
}

processed :
    process_job limits job 1000 2 (some made) rows ≡ created (registered job 1000 made candidate)
unfolding process_job registered
processed = refl

process_job-Justified_example :
    Justified limits job 1000 2 (some made) rows (registered job 1000 made candidate)
process_job-Justified_example =
    process_job-Justified limits job 1000 2 rows (registered job 1000 made candidate) (some made)
      processed
