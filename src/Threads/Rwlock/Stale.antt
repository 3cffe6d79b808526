-- ===== src/Threads/Rwlock/Stale.antt =====
-- `job_remove` of threads/rwlock.c: right in the middle of the queue, and stale links at its ends.
use apue_2e.Base.{
  ℕ, ◌<◌, ◌+◌, ◌==◌, ◌≡◌, ◌≢◌, refl, sym, ◌∙◌, List, [], ◌∷◌, ◌++◌, arith, ne_eq, length, some,
  false,
}
use apue_2e.Dll.{
  Ptr, null, Heap, set_next, set_prev, last_of, Linked, NotIn, Distinct, Queue, IsQueue,
}
use apue_2e.Dll.Segments.{
  last_of-append, NotIn-right, last_of-NotIn, Linked-append, Linked-left, Linked-right,
  Linked-set_next, Linked-set_prev, Linked-end, Linked-front, Distinct-left, Distinct-right,
  Distinct-without, Linked-NotIn-null, NotIn-of, last_of-apart,
}
use apue_2e.Threads.Rwlock.{job_remove, job_find}
use apue_2e.Threads.Rwlock.Order.{first_with, find_from-first_with}

-- The heap behind the removal of a job between `p` and `y`.
abbrev past_both : Heap → Ptr → Ptr → Heap
past_both h p y = set_prev (set_next h p y) y p

set_next_other : (h : Heap) (p v r : Ptr) → p ≢ r → set_next h p v r ≡ h r
unfolding set_next
set_next_other h p v r ne = ground arith

remove_middle :
    (q : Queue) (jp p y : Ptr)
    → (jp == q.head) ≡ false
    → (jp == q.tail) ≡ false
    → (q.heap jp).prev ≡ p
    → (q.heap jp).next ≡ y
    → p ≢ null
    → y ≢ null
    → p ≢ jp
    → job_remove q jp ≡ some (record q { heap = past_both q.heap p y })
unfolding job_remove
remove_middle q jp p y h t e n np ny other =
    rw (h, t, e, n)
      (rw (set_next_other q.heap p y jp other, e, n) (rw (ne_eq p null np, ne_eq y null ny)))

module _ (q : Queue) (x : Ptr) (xs : List Ptr) (jp y : Ptr) (ys : List Ptr)
    (is : IsQueue q (x ∷ xs ++ jp ∷ y ∷ ys)) where
  at_jp : Linked q.heap (last_of x xs) (jp ∷ y ∷ ys) null
  at_jp = Linked-right q.heap null (x ∷ xs) (jp ∷ y ∷ ys) null is.linked

  front : Linked q.heap null (x ∷ xs) jp
  front = Linked-left q.heap null (x ∷ xs) (jp ∷ y ∷ ys) null is.linked

  not_head : (jp == q.head) ≡ false
  not_head = rw is.head (ne_eq jp x (λ e. (NotIn-right x xs (jp ∷ y ∷ ys) is.distinct.0).0 e))

  not_tail : (jp == q.tail) ≡ false
  not_tail =
      let e : q.tail ≡ last_of y ys = is.tail ∙ last_of-append x xs (jp ∷ y ∷ ys) in
      let d = Distinct-right (x ∷ xs) jp (y ∷ ys) is.distinct in
      rw e (ne_eq jp (last_of y ys) (λ i. last_of-NotIn jp y ys d.0.0 d.0.1 (sym i)))

  pred_other : last_of x xs ≢ jp
  pred_other =
      let last = last_of-apart x xs jp (y ∷ ys) is.distinct in
      last_of-NotIn jp x xs (λ e. (NotIn-right x xs (jp ∷ y ∷ ys) is.distinct.0).0 (sym e))
        (NotIn-of-jp x xs is.distinct)
    where
      NotIn-of-jp : (z : Ptr) (zs : List Ptr) → Distinct (z ∷ zs ++ jp ∷ y ∷ ys) → NotIn jp zs
      NotIn-of-jp z [] d = tt
      NotIn-of-jp z (w ∷ ws) (o, d) =
          ((λ e. (NotIn-right w ws (jp ∷ y ∷ ys) d.0).0 (sym e)), NotIn-of-jp w ws d)

  -- `job_remove` of a job that is neither first nor last unlinks it, and leaves the others in order.
  pub job_remove-IsQueue :
      (q' : Queue) × (job_remove q jp ≡ some q') × IsQueue q' (x ∷ xs ++ y ∷ ys)
  job_remove-IsQueue =
      let (ne_jp, prev_jp, next_jp, rest) = at_jp in
      let not_null = Linked-NotIn-null q.heap null (x ∷ xs) jp front in
      let some_pred = last_of-NotIn null x xs not_null.0 not_null.1 in
      let some_y : y ≢ null = rest.0 in
      let parts = Distinct-right (x ∷ xs) jp (y ∷ ys) is.distinct in
      (
        record q { heap = past_both q.heap (last_of x xs) y },
        remove_middle q jp (last_of x xs) y not_head not_tail prev_jp next_jp some_pred some_y
            pred_other,
        record {
          linked =
              Linked-append (past_both q.heap (last_of x xs) y) null (x ∷ xs) (y ∷ ys) null
                (Linked-set_prev (set_next q.heap (last_of x xs) y) y (last_of x xs) null (x ∷ xs) y
                  (NotIn-of (x ∷ xs) jp y ys is.distinct)
                  (Linked-end q.heap null x xs jp y (Distinct-left (x ∷ xs) jp (y ∷ ys) is.distinct)
                    front))
                (Linked-front (set_next q.heap (last_of x xs) y) jp y ys null (last_of x xs)
                  parts.1.0
                  (Linked-set_next q.heap (last_of x xs) y jp (y ∷ ys) null
                    (last_of-apart x xs jp (y ∷ ys) is.distinct) rest));
          distinct = Distinct-without (x ∷ xs) jp (y ∷ ys) is.distinct;
          head = is.head;
          tail = is.tail ∙ last_of-append x xs (jp ∷ y ∷ ys) ∙ sym (last_of-append x xs (y ∷ ys));
        },
      )

-- Removing the last of two or more jobs moves `q_tail` alone: the job before it still has the removed
-- job as its successor, so `job_find` returns for any thread what it returned before the removal.
pub job_find-job_remove :
    (fuel id : ℕ) (q : Queue) (x : Ptr) (xs : List Ptr) (jp : Ptr)
    → IsQueue q (x ∷ xs ++ jp ∷ [])
    → (q' : Queue) × (job_remove q jp ≡ some q')
      × (q'.tail ≡ last_of x xs)
      × ((q'.heap (last_of x xs)).next ≡ jp)
      × (job_find fuel q' id ≡ job_find fuel q id)
unfolding job_remove job_find
job_find-job_remove fuel id q x xs jp is =
    let at_jp = Linked-right q.heap null (x ∷ xs) (jp ∷ []) null is.linked in
    let at_pred =
      next_of_last q.heap null x xs jp
        (Linked-left q.heap null (x ∷ xs) (jp ∷ []) null is.linked) in
    let other : jp ≢ x = λ e. (NotIn-right x xs (jp ∷ []) is.distinct.0).0 e in
    let t : q.tail ≡ jp = is.tail ∙ last_of-append x xs (jp ∷ []) in
    let hd : q.head ≡ x = is.head in
    (record q { tail = last_of x xs }, ground arith, refl, at_pred, refl)
  where
    next_of_last :
        (h : Heap) (prev y : Ptr) (ys : List Ptr) (n : Ptr)
        → Linked h prev (y ∷ ys) n
        → (h (last_of y ys)).next ≡ n
    next_of_last h prev y [] n l = l.2
    next_of_last h prev y (z ∷ zs) n l = next_of_last h y z zs n l.3

-- Removing the first of two or more jobs leaves it as the predecessor of the new first job, while
-- `job_find` goes on with the other jobs alone.
pub job_remove_first :
    (fuel id : ℕ) (q : Queue) (jp y : Ptr) (ys : List Ptr)
    → length ys < fuel
    → IsQueue q (jp ∷ y ∷ ys)
    → (q' : Queue) × (job_remove q jp ≡ some q')
      × ((q'.heap q'.head).prev ≡ jp)
      × (job_find (fuel + 1) q' id ≡ first_with q.heap (y ∷ ys) id)
unfolding job_remove job_find
job_remove_first fuel id q jp y ys l is =
    let (ne, p, n, rest) = is.linked in
    let other : last_of y ys ≢ jp = last_of-NotIn jp y ys is.distinct.0.0 is.distinct.0.1 in
    let t : q.tail ≡ last_of y ys = is.tail in
    let hd : q.head ≡ jp = is.head in
    (
      record q { head = y },
      ground arith,
      rest.1,
      find_from-first_with (fuel + 1) q.heap jp (y ∷ ys) id (omega arith) rest,
    )
