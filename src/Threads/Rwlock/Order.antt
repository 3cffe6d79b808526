-- ===== src/Threads/Rwlock/Order.antt =====
-- What the operations of threads/rwlock.c do to the order of the jobs, where they keep the links.
use apue_2e.Base.{
  ℕ, zero, suc, ◌<◌, ◌==◌, ◌≡◌, ◌≢◌, refl, ap, sym, ◌∙◌, if◌then◌else◌, List, [], ◌∷◌, ◌++◌, arith,
  subst, ne_eq, length,
}
use apue_2e.Dll.{
  Ptr, null, Heap, set_next, set_prev, first_or, last_of, Linked, NotIn, Distinct, Queue, IsQueue,
}
use apue_2e.Dll.Segments.{
  last_of-append, last_of-NotIn, Linked-append, Linked-set_next, Linked-set_prev, Linked-end,
  Linked-front, Distinct-snoc, Linked-NotIn-null,
}
use apue_2e.Threads.Rwlock.{job_insert, job_append, find_from, job_find}

insert-Linked :
    (h : Heap) (jp x : Ptr) (xs : List Ptr)
    → Linked h null (x ∷ xs) null
    → NotIn x xs
    → NotIn jp (x ∷ xs)
    → jp ≢ null
    → Linked (set_prev (set_prev (set_next h jp x) jp null) x jp) null (jp ∷ x ∷ xs) null
unfolding set_next set_prev
insert-Linked h jp x xs l d (ne_x, a) ne =
    let linked : Heap = set_prev (set_next h jp x) jp null in
    (
      ne,
      ground arith,
      ground arith,
      Linked-front linked null x xs null jp d (
          Linked-set_prev (set_next h jp x) jp null null (x ∷ xs) null (ne_x, a)
            (Linked-set_next h jp x null (x ∷ xs) null (ne_x, a) l)),
    )

-- `job_insert` puts a new job in front of the queue.
pub job_insert-IsQueue :
    (q : Queue) (xs : List Ptr) (jp : Ptr)
    → IsQueue q xs
    → jp ≢ null
    → NotIn jp xs
    → IsQueue (job_insert q jp) (jp ∷ xs)
unfolding job_insert set_prev set_next
job_insert-IsQueue q [] jp is ne a = record {
  linked = (ne, ground arith, ground arith, tt);
  distinct = (tt, tt);
  head = refl;
  tail = ground arith;
}
job_insert-IsQueue q (x ∷ xs) jp is ne a =
    let some_head = ne_eq x null is.linked.0 in
    let linked : Heap = set_prev (set_prev (set_next q.heap jp x) jp null) x jp in
    let e : (job_insert q jp).heap ≡ linked = rw (is.head, some_head) in
    record {
      linked =
          subst (λ h. Linked h null (jp ∷ x ∷ xs) null) (sym e)
            (insert-Linked q.heap jp x xs is.linked is.distinct.0 a ne);
      distinct = (a, is.distinct);
      head = refl;
      tail = rw (is.head, some_head) is.tail;
    }

append-Linked :
    (h : Heap) (jp x : Ptr) (xs : List Ptr)
    → Linked h null (x ∷ xs) null
    → Distinct (x ∷ xs)
    → NotIn jp (x ∷ xs)
    → jp ≢ null
    → Linked
        (set_next (set_prev (set_next h jp null) jp (last_of x xs)) (last_of x xs) jp)
        null
        (x ∷ xs ++ jp ∷ [])
        null
unfolding set_prev set_next
append-Linked h jp x xs l d a ne =
    let made : Heap = set_prev (set_next h jp null) jp (last_of x xs) in
    let other = last_of-NotIn jp x xs a.0 a.1 in
    Linked-append (set_next made (last_of x xs) jp) null (x ∷ xs) (jp ∷ []) null
      (Linked-end made null x xs null jp d (
        Linked-set_prev (set_next h jp null) jp _ null (x ∷ xs) null a
          (Linked-set_next h jp null null (x ∷ xs) null a l)))
      (ne, ground arith, ground arith, tt)

-- `job_append` puts a new job behind the queue.
pub job_append-IsQueue :
    (q : Queue) (xs : List Ptr) (jp : Ptr)
    → IsQueue q xs
    → jp ≢ null
    → NotIn jp xs
    → IsQueue (job_append q jp) (xs ++ jp ∷ [])
unfolding job_append set_prev set_next
job_append-IsQueue q [] jp is ne a = record {
  linked = (ne, ground arith, ground arith, tt);
  distinct = (tt, tt);
  head = ground arith;
  tail = refl;
}
job_append-IsQueue q (x ∷ xs) jp is ne a =
    let not_null = Linked-NotIn-null q.heap null (x ∷ xs) null is.linked in
    let some_last = ne_eq (last_of x xs) null (last_of-NotIn null x xs not_null.0 not_null.1) in
    let linked : Heap =
      set_next (set_prev (set_next q.heap jp null) jp (last_of x xs)) (last_of x xs) jp in
    let e : (job_append q jp).heap ≡ linked = rw (is.tail, some_last) in
    record {
      linked =
          subst (λ h. Linked h null (x ∷ xs ++ jp ∷ []) null) (sym e)
            (append-Linked q.heap jp x xs is.linked is.distinct a ne);
      distinct = Distinct-snoc jp (x ∷ xs) is.distinct a;
      head = rw (is.tail, some_last) is.head;
      tail = sym (last_of-append x xs (jp ∷ []));
    }

-- The jobs with the thread `id` that stand first among the nodes.
pub first_with : Heap → List Ptr → ℕ → Ptr
first_with h [] id = null
first_with h (x ∷ xs) id = if (h x).tag == id then x else first_with h xs id

pub find_from-first_with :
    (fuel : ℕ) (h : Heap) (prev : Ptr) (xs : List Ptr) (id : ℕ)
    → length xs < fuel
    → Linked h prev xs null
    → find_from fuel h (first_or xs null) id ≡ first_with h xs id
unfolding find_from first_with
find_from-first_with zero h prev xs id l f = absurd (omega arith)
find_from-first_with (suc fuel) h prev [] id l f = refl
find_from-first_with (suc fuel) h prev (x ∷ xs) id l (ne, p, e, f) =
    rw (ne_eq x null ne, e, find_from-first_with fuel h x xs id (omega arith) f)

-- `job_find` returns the first job of the queue that the thread handles, and null if there is none.
pub job_find-first_with :
    (fuel : ℕ) (q : Queue) (xs : List Ptr) (id : ℕ)
    → length xs < fuel
    → IsQueue q xs
    → job_find fuel q id ≡ first_with q.heap xs id
unfolding job_find
job_find-first_with fuel q xs id l is =
    ap (λ p. find_from fuel q.heap p id) is.head
    ∙ find_from-first_with fuel q.heap null xs id l is.linked
