-- ===== src/Threads/Rwlock.antt =====
-- threads/rwlock.c: the job queue, with `q_lock` held as each function takes it. `tag` is `j_id`.
-- Proofs are in Threads/Rwlock/Order.antt and Threads/Rwlock/Stale.antt.
pub mod Order
pub mod Stale
use apue_2e.Base.{ℕ, zero, suc, ◌==◌, ◌||◌, if◌then◌else◌, Option, none, some}
use apue_2e.Dll.{Ptr, null, Cell, Heap, put, set_next, set_prev, Queue}

-- `queue_init` when the lock could be made; `err` is the error of `pthread_rwlock_init`, 0 for none.
unfoldable pub queue_init : Heap → Queue
queue_init h = record { heap = h; head = null; tail = null }

-- `job_insert`
unfoldable pub job_insert : Queue → Ptr → Queue
job_insert q jp =
    let linked = set_prev (set_next q.heap jp q.head) jp null in
    record {
      heap = if q.head == null then linked else set_prev linked q.head jp;
      head = jp;
      tail = if q.head == null then jp else q.tail;
    }

-- `job_append`
unfoldable pub job_append : Queue → Ptr → Queue
job_append q jp =
    let linked = set_prev (set_next q.heap jp null) jp q.tail in
    record {
      heap = if q.tail == null then linked else set_next linked q.tail jp;
      head = if q.tail == null then jp else q.head;
      tail = jp;
    }

-- `job_remove`; `none` is a write through a null pointer.
unfoldable pub job_remove : Queue → Ptr → Option Queue
job_remove q jp =
    if jp == q.head
    then some (record q { head = (q.heap jp).next; tail = if q.tail == jp then null else q.tail })
    else if jp == q.tail
    then some (record q { tail = (q.heap jp).prev; head = if q.head == jp then null else q.head })
    else let past = set_next q.heap (q.heap jp).prev (q.heap jp).next in
      if ((q.heap jp).prev == null) || ((past jp).next == null)
      then none
      else some (record q { heap = set_prev past (past jp).next (past jp).prev })

-- The loop of `job_find`, on fuel.
unfoldable pub find_from : ℕ → Heap → Ptr → ℕ → Ptr
find_from zero h jp id = null
find_from (suc fuel) h jp id =
    let rest = find_from fuel h (h jp).next id in
    if jp == null then null else if (h jp).tag == id then jp else rest

-- `job_find` when the read lock was taken; null if it was not.
unfoldable pub job_find : ℕ → Queue → ℕ → Ptr
unfolding find_from
job_find fuel q id = find_from fuel q.heap q.head id
