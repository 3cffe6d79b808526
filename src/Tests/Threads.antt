-- ===== src/Tests/Threads.antt =====
-- threads/rwlock.c and threads/mutex2.c at short lists.
use apue_2e.Base.{◌==◌, if◌then◌else◌, ◌≡◌, ◌+◌, refl, [], ◌∷◌, some, arith}
use apue_2e.Dll.{Heap, Queue, IsQueue, last_of}
use apue_2e.Threads.Rwlock.{queue_init, job_insert, job_append, job_remove, job_find}
use apue_2e.Threads.Rwlock.Order.{
  job_insert-IsQueue, job_append-IsQueue, first_with, job_find-first_with,
}
use apue_2e.Threads.Rwlock.Stale.{job_remove-IsQueue, job_find-job_remove}
use apue_2e.Threads.Refs.{done, null_read, Table, foo_alloc, foo_hold, foo_rele, foo_rele3, kept}
use apue_2e.Threads.Refs.Counts.{foo_rele-foo_alloc, foo_rele-foo_hold}

abbrev nodes : Heap
nodes p = record { prev = 0; next = 0; tag = p + 1 }

no_jobs_here : IsQueue (queue_init nodes) []
unfolding queue_init
no_jobs_here = record { linked = tt; distinct = tt; head = refl; tail = refl }

abbrev three : Queue
three = job_append (job_append (job_insert (queue_init nodes) 16) 32) 48

one_here : IsQueue (job_insert (queue_init nodes) 16) (16 ∷ [])
one_here = job_insert-IsQueue (queue_init nodes) [] 16 no_jobs_here (omega arith) tt

two_here : IsQueue (job_append (job_insert (queue_init nodes) 16) 32) (16 ∷ 32 ∷ [])
two_here =
    job_append-IsQueue (job_insert (queue_init nodes) 16) (16 ∷ []) 32 one_here (omega arith)
      (omega arith, tt)

three_here : IsQueue three (16 ∷ 32 ∷ 48 ∷ [])
three_here =
    job_append-IsQueue (job_append (job_insert (queue_init nodes) 16) 32) (16 ∷ 32 ∷ []) 48 two_here
      (omega arith) (omega arith, (omega arith, tt))

job_insert-IsQueue_example : IsQueue (job_insert three 8) (8 ∷ 16 ∷ 32 ∷ 48 ∷ [])
job_insert-IsQueue_example =
    job_insert-IsQueue three (16 ∷ 32 ∷ 48 ∷ []) 8 three_here (omega arith)
      (omega arith, (omega arith, (omega arith, tt)))

job_find_example : job_find 4 three 33 ≡ first_with three.heap (16 ∷ 32 ∷ 48 ∷ []) 33
job_find_example = job_find-first_with 4 three (16 ∷ 32 ∷ 48 ∷ []) 33 (omega arith) three_here

job_remove_example : (q' : Queue) × (job_remove three 32 ≡ some q') × IsQueue q' (16 ∷ 48 ∷ [])
job_remove_example = job_remove-IsQueue three 16 [] 32 48 [] three_here

job_find-job_remove_example :
    (q' : Queue) × (job_remove three 48 ≡ some q')
    × (q'.tail ≡ last_of 16 (32 ∷ []))
    × ((q'.heap (last_of 16 (32 ∷ []))).next ≡ 48)
    × (job_find 4 q' 49 ≡ job_find 4 three 49)
job_find-job_remove_example = job_find-job_remove 4 49 three 16 (32 ∷ []) 48 three_here

abbrev empty : Table
empty = record { objs = λ p. record { count = 0; next = 0; id = p }; fh = λ i. 0 }

-- Two objects of one chain: 64 before 35, each with one reference.
abbrev lone : Table
lone = record {
  objs = λ p. record { count = 1; next = if p == 64 then 35 else 0; id = p };
  fh = λ i. if i == 6 then 64 else 0;
}

-- An object with two references.
abbrev shared : Table
shared = record { objs = λ p. record { count = 2; next = 0; id = p }; fh = λ i. 35 }

foo_rele-foo_alloc_example :
    (foo_rele 3 (λ u. u) (foo_alloc empty 35) 35 ≡ null_read)
    × (foo_rele3 3 (foo_alloc empty 35) 35 ≡ null_read)
foo_rele-foo_alloc_example = foo_rele-foo_alloc 3 empty 35 (omega arith) refl

foo_rele-foo_hold_example :
    (foo_rele 3 (λ u. foo_hold u 35) lone 35 ≡ foo_rele3 3 (foo_hold lone 35) 35)
    × (u : Table) × (foo_rele 3 (λ u. foo_hold u 35) lone 35 ≡ done (u, kept))
    × ((u.objs 35).count ≡ 1)
foo_rele-foo_hold_example = foo_rele-foo_hold 3 lone 35 refl
