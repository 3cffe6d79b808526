-- ===== src/Ipp/Jobs.antt =====
-- ipp/printd.c: the list of pending jobs and the job numbers, with `joblock` held.
-- Proofs are in Ipp/Jobs/Order.antt.
pub mod Order
use apue_2e.Base.{ℕ, ◌+◌, ◌^◌, ◌==◌, leb, if◌then◌else◌}
use apue_2e.Dll.{Ptr, null, Cell, Heap, put, set_next, set_prev, Queue}

-- `add_job`, for a node that `malloc` gave.
unfoldable pub add_job : Queue → Ptr → ℕ → Queue
add_job q jp jobid =
    let made = put q.heap jp (record { prev = q.tail; next = null; tag = jobid }) in
    record {
      heap = if q.tail == null then made else set_next made q.tail jp;
      head = if q.tail == null then jp else q.head;
      tail = jp;
    }

-- `replace_job`
unfoldable pub replace_job : Queue → Ptr → Queue
replace_job q jp =
    let linked = set_next (set_prev q.heap jp null) jp q.head in
    record {
      heap = if q.head == null then linked else set_prev linked q.head jp;
      head = jp;
      tail = if q.head == null then jp else q.tail;
    }

-- `remove_job`: the successor and then the predecessor are linked past the node.
unfoldable pub unlink_next : Queue → Ptr → Queue
unlink_next q target =
    if (q.heap target).next == null
    then record q { tail = (q.heap target).prev }
    else record q { heap = set_prev q.heap (q.heap target).next (q.heap target).prev }

unfoldable pub unlink_prev : Queue → Ptr → Queue
unlink_prev q target =
    if (q.heap target).prev == null
    then record q { head = (q.heap target).next }
    else record q { heap = set_next q.heap (q.heap target).prev (q.heap target).next }

unfoldable pub remove_job : Queue → Ptr → Queue
unfolding unlink_next unlink_prev
remove_job q target = unlink_prev (unlink_next q target) target

-- `get_newjobno`: the number given out and the next one. `nextjob` is a 64-bit `long`, and a value that
-- wrapped to a negative one or to 0 is set to 1.
unfoldable pub get_newjobno : ℕ → ℕ × ℕ
get_newjobno nextjob = (nextjob, if leb (2 ^ 63) (nextjob + 1) then 1 else nextjob + 1)
