-- ===== src/Tests/Ipp.antt =====
-- ipp/printd.c at a queue of three jobs, two workers and one attribute.
use apue_2e.Base.{◌≡◌, refl, [], ◌∷◌, Option, some, arith}
use apue_2e.Dll.{Ptr, null, Heap, Queue, IsQueue}
use apue_2e.Ipp.Jobs.{add_job, replace_job, remove_job}
use apue_2e.Ipp.Jobs.Order.{add_job-IsQueue, replace_job-IsQueue, remove_job-IsQueue}
use apue_2e.Ipp.Workers.{Workers, add_worker, kill_workers, client_cleanup}
use apue_2e.Ipp.Workers.Lost.{tags, kill_workers-add_worker, workers_dangling}

abbrev blank : Heap
blank p = record { prev = 0; next = 0; tag = 0 }

abbrev no_jobs : Queue
no_jobs = record { heap = blank; head = null; tail = null }

no_jobs-IsQueue : IsQueue no_jobs []
no_jobs-IsQueue = record { linked = tt; distinct = tt; head = refl; tail = refl }

one_job-IsQueue : IsQueue (add_job no_jobs 16 1) (16 ∷ [])
one_job-IsQueue = add_job-IsQueue no_jobs [] 16 1 no_jobs-IsQueue (omega arith) tt

two_jobs-IsQueue : IsQueue (add_job (add_job no_jobs 16 1) 32 2) (16 ∷ 32 ∷ [])
two_jobs-IsQueue =
    add_job-IsQueue (add_job no_jobs 16 1) (16 ∷ []) 32 2 one_job-IsQueue (omega arith)
      (omega arith, tt)

three_jobs-IsQueue :
    IsQueue (replace_job (add_job (add_job no_jobs 16 1) 32 2) 48) (48 ∷ 16 ∷ 32 ∷ [])
three_jobs-IsQueue =
    replace_job-IsQueue (add_job (add_job no_jobs 16 1) 32 2) (16 ∷ 32 ∷ []) 48 two_jobs-IsQueue
      (omega arith) (omega arith, (omega arith, tt))

remove_job-IsQueue_example :
    IsQueue (remove_job (replace_job (add_job (add_job no_jobs 16 1) 32 2) 48) 16) (48 ∷ 32 ∷ [])
remove_job-IsQueue_example =
    remove_job-IsQueue (replace_job (add_job (add_job no_jobs 16 1) 32 2) 48) (48 ∷ []) (32 ∷ []) 16
      three_jobs-IsQueue

abbrev no_workers : Workers
no_workers = record { heap = blank; workers = null }

abbrev one_worker : Workers
one_worker = record { heap = λ p. record { prev = 0; next = 0; tag = 100 }; workers = 16 }

kill_workers-add_worker_example :
    (kill_workers 2 (add_worker one_worker 32 200) ≡ tags one_worker.heap (16 ∷ []))
    × (kill_workers 2 one_worker ≡ tags one_worker.heap (16 ∷ []))
kill_workers-add_worker_example =
    kill_workers-add_worker 2 one_worker 16 [] 32 200 (omega arith) refl (omega arith, refl, tt)
      (omega arith, tt)

workers_dangling_example :
    let w : Workers =
      add_worker (add_worker (record { heap = blank; workers = null }) 16 100) 32 200 in
    let out : Workers × Option Ptr = client_cleanup 1 w 100 in
    (out.1 ≡ some 16) × (out.0.workers ≡ 16)
workers_dangling_example =
    workers_dangling 0 16 32 100 200 blank (omega arith) (omega arith) (omega arith)
