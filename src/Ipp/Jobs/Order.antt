-- ===== src/Ipp/Jobs/Order.antt =====
-- The list of pending jobs is a queue: what each operation does to its order.
use apue_2e.Base.{
  ℕ, ◌≡◌, ◌≢◌, refl, ap, sym, ◌∙◌, List, [], ◌∷◌, ◌++◌, arith, subst, ne_eq, append-nil, ◌+◌, ◌^◌,
  ◌<◌, ◌⊎◌,
}
use apue_2e.Dll.{
  Ptr, null, Heap, put, set_next, set_prev, first_or, last_of, Linked, NotIn, Distinct, Queue,
  IsQueue,
}
use apue_2e.Dll.Segments.{
  last_of-append, Distinct-snoc, Distinct-left, Distinct-right, Distinct-without, Linked-NotIn-null,
  NotIn-of, last_of-apart, last_of-NotIn, Linked-append, Linked-left, Linked-right, Linked-put,
  Linked-set_next, Linked-set_prev, Linked-end, Linked-front,
}
use apue_2e.Ipp.Jobs.{get_newjobno, add_job, replace_job, remove_job, unlink_next, unlink_prev}

add-Linked :
    (h : Heap) (jp jobid x : Ptr) (xs : List Ptr)
    → Linked h null (x ∷ xs) null
    → Distinct (x ∷ xs)
    → NotIn jp (x ∷ xs)
    → jp ≢ null
    → Linked
        (set_next
          (put h jp (record { prev = last_of x xs; next = null; tag = jobid }))
          (last_of x xs)
          jp)
        null
        (x ∷ xs ++ jp ∷ [])
        null
unfolding put set_next
add-Linked h jp jobid x xs l d a ne =
    let made : Heap = put h jp (record { prev = last_of x xs; next = null; tag = jobid }) in
    let other = last_of-NotIn jp x xs a.0 a.1 in
    Linked-append (set_next made (last_of x xs) jp) null (x ∷ xs) (jp ∷ []) null
      (Linked-end made null x xs null jp d (Linked-put h jp _ null (x ∷ xs) null a l))
      (ne, ground arith, ground arith, tt)

-- `add_job` puts a new job behind the pending ones.
pub add_job-IsQueue :
    (q : Queue) (xs : List Ptr) (jp jobid : ℕ)
    → IsQueue q xs
    → jp ≢ null
    → NotIn jp xs
    → IsQueue (add_job q jp jobid) (xs ++ jp ∷ [])
unfolding add_job put
add_job-IsQueue q [] jp jobid is ne a = record {
  linked = (ne, ground arith, ground arith, tt);
  distinct = (tt, tt);
  head = ground arith;
  tail = refl;
}
add_job-IsQueue q (x ∷ xs) jp jobid is ne a =
    let not_null = Linked-NotIn-null q.heap null (x ∷ xs) null is.linked in
    let some_last = ne_eq (last_of x xs) null (last_of-NotIn null x xs not_null.0 not_null.1) in
    let made : Heap = put q.heap jp (record { prev = last_of x xs; next = null; tag = jobid }) in
    let e : (add_job q jp jobid).heap ≡ set_next made (last_of x xs) jp = rw (is.tail, some_last) in
    record {
      linked =
          subst (λ h. Linked h null (x ∷ xs ++ jp ∷ []) null) (sym e)
            (add-Linked q.heap jp jobid x xs is.linked is.distinct a ne);
      distinct = Distinct-snoc jp (x ∷ xs) is.distinct a;
      head = rw (is.tail, some_last) is.head;
      tail = sym (last_of-append x xs (jp ∷ []));
    }

replace-Linked :
    (h : Heap) (jp x : Ptr) (xs : List Ptr)
    → Linked h null (x ∷ xs) null
    → NotIn x xs
    → NotIn jp (x ∷ xs)
    → jp ≢ null
    → Linked (set_prev (set_next (set_prev h jp null) jp x) x jp) null (jp ∷ x ∷ xs) null
unfolding set_next set_prev
replace-Linked h jp x xs l d (ne_x, a) ne =
    let linked : Heap = set_next (set_prev h jp null) jp x in
    (
      ne,
      ground arith,
      ground arith,
      Linked-front linked null x xs null jp d (
          Linked-set_next (set_prev h jp null) jp x null (x ∷ xs) null (ne_x, a)
            (Linked-set_prev h jp null null (x ∷ xs) null (ne_x, a) l)),
    )

-- `replace_job` puts a job in front of the pending ones.
pub replace_job-IsQueue :
    (q : Queue) (xs : List Ptr) (jp : Ptr)
    → IsQueue q xs
    → jp ≢ null
    → NotIn jp xs
    → IsQueue (replace_job q jp) (jp ∷ xs)
unfolding replace_job
replace_job-IsQueue q [] jp is ne a = record {
  linked =
      (ne, unfold set_next set_prev in ground arith, unfold set_next set_prev in ground arith, tt);
  distinct = (tt, tt);
  head = refl;
  tail = ground arith;
}
replace_job-IsQueue q (x ∷ xs) jp is ne a =
    let some_head = ne_eq x null is.linked.0 in
    let linked : Heap = set_prev (set_next (set_prev q.heap jp null) jp x) x jp in
    let e : (replace_job q jp).heap ≡ linked = rw (is.head, some_head) in
    record {
      linked =
          subst (λ h. Linked h null (jp ∷ x ∷ xs) null) (sym e)
            (replace-Linked q.heap jp x xs is.linked is.distinct.0 a ne);
      distinct = (a, is.distinct);
      head = refl;
      tail = rw (is.head, some_head) is.tail;
    }

relink_next : Heap → Ptr → List Ptr → Heap
relink_next h p [] = h
relink_next h p (y ∷ ys) = set_prev h y p

relink_prev : Heap → List Ptr → Ptr → Heap
relink_prev h [] n = h
relink_prev h (x ∷ xs) n = set_next h (last_of x xs) n

-- the end of a list that has `p` at its end when it is empty
if_nil : List Ptr → Ptr → Ptr → Ptr
if_nil [] p q = p
if_nil (x ∷ xs) p q = q

unlink_next_lem :
    (q : Queue) (t : Ptr) (ys : List Ptr)
    → (q.heap t).next ≡ first_or ys null
    → NotIn null ys
    → unlink_next q t ≡ record {
      heap = relink_next q.heap (q.heap t).prev ys;
      head = q.head;
      tail = if_nil ys (q.heap t).prev q.tail;
    }
unfolding unlink_next relink_next if_nil
unlink_next_lem q t [] e a = rw e
unlink_next_lem q t (y ∷ ys) e a = rw (e, ne_eq y null a.0)

unlink_prev_lem :
    (q : Queue) (t : Ptr) (xs : List Ptr)
    → (q.heap t).prev ≡ last_of null xs
    → NotIn null xs
    → unlink_prev q t ≡ record {
      heap = relink_prev q.heap xs (q.heap t).next;
      head = if_nil xs (q.heap t).next q.head;
      tail = q.tail;
    }
unfolding unlink_prev relink_prev if_nil
unlink_prev_lem q t [] e a = rw e
unlink_prev_lem q t (x ∷ xs) e a =
    rw (e, ne_eq (last_of x xs) null (last_of-NotIn null x xs a.0 a.1))

relink_next-same : (h : Heap) (p t : Ptr) (ys : List Ptr) → NotIn t ys → relink_next h p ys t ≡ h t
unfolding relink_next set_prev
relink_next-same h p t [] a = refl
relink_next-same h p t (y ∷ ys) a = ground arith

relink_next-Linked :
    (h : Heap) (p t : Ptr) (ys : List Ptr)
    → Linked h t ys null
    → Distinct ys
    → Linked (relink_next h p ys) p ys null
unfolding relink_next
relink_next-Linked h p t [] l d = tt
relink_next-Linked h p t (y ∷ ys) l (o, d) = Linked-front h t y ys null p o l

relink_next-before :
    (h : Heap) (p t prev n : Ptr) (xs ys : List Ptr)
    → Linked h prev xs n
    → Distinct (xs ++ t ∷ ys)
    → Linked (relink_next h p ys) prev xs n
unfolding relink_next
relink_next-before h p t prev n xs [] l d = l
relink_next-before h p t prev n xs (y ∷ ys) l d =
    Linked-set_prev h y p prev xs n (NotIn-of xs t y ys d) l

relink_prev-Linked :
    (h : Heap) (prev n v : Ptr) (xs : List Ptr)
    → Linked h prev xs n
    → Distinct xs
    → Linked (relink_prev h xs v) prev xs v
unfolding relink_prev
relink_prev-Linked h prev n v [] l d = tt
relink_prev-Linked h prev n v (x ∷ xs) l d = Linked-end h prev x xs n v d l

relink_prev-behind :
    (h : Heap) (t prev n v : Ptr) (xs ys : List Ptr)
    → Linked h prev ys n
    → Distinct (xs ++ t ∷ ys)
    → Linked (relink_prev h xs v) prev ys n
unfolding relink_prev
relink_prev-behind h t prev n v [] ys l d = l
relink_prev-behind h t prev n v (x ∷ xs) ys l d =
    Linked-set_next h (last_of x xs) v prev ys n (last_of-apart x xs t ys d) l

head_of_rest :
    (t head n : Ptr) (xs ys : List Ptr)
    → head ≡ first_or (xs ++ t ∷ ys) null
    → n ≡ first_or ys null
    → if_nil xs n head ≡ first_or (xs ++ ys) null
unfolding if_nil
head_of_rest t head n [] ys h e = e
head_of_rest t head n (x ∷ xs) ys h e = h

tail_of_rest :
    (t tail p : Ptr) (xs ys : List Ptr)
    → tail ≡ last_of null (xs ++ t ∷ ys)
    → p ≡ last_of null xs
    → if_nil ys p tail ≡ last_of null (xs ++ ys)
unfolding if_nil
tail_of_rest t tail p xs [] h e = e ∙ ap (last_of null) (sym (append-nil xs))
tail_of_rest t tail p xs (y ∷ ys) h e =
    h ∙ last_of-append null xs (t ∷ y ∷ ys) ∙ sym (last_of-append null xs (y ∷ ys))

-- `remove_job` unlinks a job and leaves the others in their order.
pub remove_job-IsQueue :
    (q : Queue) (xs ys : List Ptr) (t : Ptr)
    → IsQueue q (xs ++ t ∷ ys)
    → IsQueue (remove_job q t) (xs ++ ys)
unfolding remove_job
remove_job-IsQueue q xs ys t is =
    let at_t = Linked-right q.heap null xs (t ∷ ys) null is.linked in
    let front = Linked-left q.heap null xs (t ∷ ys) null is.linked in
    let parts = Distinct-right xs t ys is.distinct in
    let q' : Queue = record {
      heap = relink_next q.heap (q.heap t).prev ys;
      head = q.head;
      tail = if_nil ys (q.heap t).prev q.tail;
    } in
    let same : q'.heap t ≡ q.heap t = relink_next-same q.heap (q.heap t).prev t ys parts.0 in
    let prev : (q'.heap t).prev ≡ last_of null xs = ap (λ c. c.prev) same ∙ at_t.1 in
    let next : (q'.heap t).next ≡ first_or ys null = ap (λ c. c.next) same ∙ at_t.2 in
    rw
      (
        unlink_next_lem q t ys at_t.2 (Linked-NotIn-null q.heap t ys null at_t.3),
        unlink_prev_lem q' t xs prev (Linked-NotIn-null q.heap null xs t front),
      )
      (record {
        linked =
            Linked-append (relink_prev q'.heap xs (q'.heap t).next) null xs ys null
              (subst (λ n. Linked (relink_prev q'.heap xs n) null xs (first_or ys null)) (sym next)
                (relink_prev-Linked q'.heap null t (first_or ys null) xs
                  (relink_next-before q.heap (q.heap t).prev t null t xs ys front is.distinct)
                  (Distinct-left xs t ys is.distinct)))
              (relink_prev-behind q'.heap t (last_of null xs) null _ xs ys
                (subst (λ p. Linked q'.heap p ys null) at_t.1
                  (relink_next-Linked q.heap (q.heap t).prev t ys at_t.3 parts.1))
                is.distinct);
        distinct = Distinct-without xs t ys is.distinct;
        head = head_of_rest t q.head _ xs ys is.head next;
        tail = tail_of_rest t q.tail _ xs ys is.tail at_t.1;
      })

-- A job number is positive as a `long`, and so is the one kept for the next job: one more, or 1 behind
-- the largest.
pub get_newjobno_range :
    (nextjob : ℕ)
    → 0 < nextjob
    → nextjob < 2 ^ 63
    → ((get_newjobno nextjob).0 ≡ nextjob)
      × (0 < (get_newjobno nextjob).1)
      × ((get_newjobno nextjob).1 < 2 ^ 63)
      × (((get_newjobno nextjob).1 ≡ nextjob + 1) ⊎ (nextjob + 1 ≡ 2 ^ 63))
unfolding get_newjobno
get_newjobno_range nextjob h k = (refl, ground arith, ground arith, ground arith)
