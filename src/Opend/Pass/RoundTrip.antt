-- ===== src/Opend/Pass/RoundTrip.antt =====
-- What `recv_fd` makes of what `send_fd` and `send_err` send, however the stream is cut.
use apue_2e.Base.{
  ℕ, zero, suc, ◌+◌, ◌%◌, ◌==◌, ◌<◌, ◌≡◌, ◌≢◌, ◌⊎◌, inl, inr, refl, ap, ap₂, sym, ◌∙◌, subst, Bool,
  true, false, ltb, Option, none, some, List, [], ◌∷◌, ◌++◌, append_assoc, append-nil, length, All,
  All-split, ℤ, pos, negsuc, arith, Bool-cases, ne_eq,
}
use apue_2e.Files.{Bytes}
use apue_2e.Opend.Pass.{
  Msg, Sent, written, message, status_byte, send_two, send_fd, negative, wrote, send_err, Arrival,
  broken, closed, arrived, Scan, plain, final, malformed, scan_last, behind, scan, End, stopped,
  returned, Received, show, conclude, finish, recv_fd,
}

-- A call that writes all it is given.
abbrev pub full : Bytes → ℤ
full text = pos (length text)

abbrev pub two : Msg → ℤ
two m = pos 2

unfoldable pub join : List Bytes → Bytes
join [] = []
join (c ∷ cs) = c ++ join cs

-- The text in pieces of their own, the last of them, perhaps empty, with the message.
unfoldable pub carried : List Bytes → Bytes → Bytes → Option ℕ → List Arrival
carried [] tail end control = arrived (tail ++ end) control ∷ []
carried (c ∷ cs) tail end control = arrived c none ∷ carried cs tail end control

-- What `send_err` hands to the socket: no call of `writen` for an empty text.
unfoldable pub framed : Bytes → Msg → List Sent
framed [] m = message m ∷ []
framed (c ∷ text) m = written (c ∷ text) ∷ message m ∷ []

scan-plain : (s : Bytes) → All (λ c. c ≢ 0) s → scan s ≡ plain
unfolding scan behind
scan-plain [] h = refl
scan-plain (c ∷ s) h = rw (ne_eq c 0 h.0, scan-plain s h.1) refl

scan-final :
    (s : Bytes) (status : ℕ) → All (λ c. c ≢ 0) s → scan (s ++ 0 ∷ status ∷ []) ≡ final s status
unfolding scan behind scan_last
scan-final [] status h = refl
scan-final (c ∷ s) status h = rw (ne_eq c 0 h.0, scan-final s status h.1) refl

-- A user's function that takes the whole text is shown it.
show-full :
    (text : Bytes) (next : Received)
    → ((show full text next).end ≡ next.end)
      × (join (show full text next).shown ≡ text ++ join next.shown)
unfolding show wrote join
show-full [] next = (refl, refl)
show-full (c ∷ text) next =
    let all : (length (c ∷ text) == length (c ∷ text)) ≡ true = ground arith in
    let some_text : ltb 0 (length (c ∷ text)) ≡ true = ground arith in
    rw (some_text, all) (refl, refl)

carried_lem :
    (cs : List Bytes) (tail : Bytes) (status : ℕ) (control : Option ℕ) (rc : ℤ)
    → All (λ c. c ≢ 0) (join cs ++ tail)
    → conclude status control ≡ returned rc
    → ((recv_fd true full (carried cs tail (0 ∷ status ∷ []) control)).end ≡ returned rc)
      × (join (recv_fd true full (carried cs tail (0 ∷ status ∷ []) control)).shown
          ≡ join cs ++ tail)
unfolding recv_fd carried finish join
carried_lem [] tail status control rc h e =
    let (ended, told) = show-full tail (record { end = returned rc; shown = [] }) in
    rw (scan-final tail status h, e) (ended, told ∙ append-nil tail)
carried_lem (c ∷ cs) tail status control rc h e =
    let h' = subst (All (λ c. c ≢ 0)) (append_assoc c (join cs) tail) h in
    let (mine, rest) = All-split (λ c. c ≢ 0) c (join cs ++ tail) h' in
    let (ended, told) = carried_lem cs tail status control rc rest e in
    let next = recv_fd true full (carried cs tail (0 ∷ status ∷ []) control) in
    let (end', told') = show-full c next in
    rw (scan-plain c mine)
      (end' ∙ ended, told' ∙ ap (λ s. c ++ s) told ∙ sym (append_assoc c (join cs) tail))

status-low : (n : ℕ) → n < 255 → status_byte n ≡ suc n
unfolding status_byte
status-low n h =
    let low : (n + 1) % 256 ≡ suc n = omega (arith, h) in
    let some_status : (suc n == 0) ≡ false = ground arith in rw (low, some_status) refl

sends :
    (n : ℕ) (text : Bytes)
    → send_err true full two (negsuc n) text ≡ record {
      rc = pos 0;
      sent = framed text (record { data_bytes = 0 ∷ status_byte n ∷ []; control = none });
    }
unfolding send_err send_fd send_two negative wrote framed
sends n [] = refl
sends n (c ∷ text) =
    let all : (length (c ∷ text) == length (c ∷ text)) ≡ true = ground arith in
    let some_text : ltb 0 (length (c ∷ text)) ≡ true = ground arith in rw (some_text, all) refl

-- `send_err` of an error from -1 to -255 and a text without nulls succeeds on a socket that takes all, and
-- however its text is cut before the message, `recv_fd` shows just that text and returns that error.
pub recv_fd-send_err :
    (n : ℕ) (text : Bytes) (cs : List Bytes) (tail : Bytes)
    → n < 255
    → All (λ c. c ≢ 0) text
    → join cs ++ tail ≡ text
    → (m : Msg) × (send_err true full two (negsuc n) text
        ≡ record { rc = pos 0; sent = framed text m })
      × ((recv_fd true full (carried cs tail m.data_bytes m.control)).end ≡ returned (negsuc n))
      × (join (recv_fd true full (carried cs tail m.data_bytes m.control)).shown ≡ text)
unfolding conclude
recv_fd-send_err n text cs tail h clean cut =
    let m : Msg = record { data_bytes = 0 ∷ status_byte n ∷ []; control = none } in
    let (ended, told) =
      carried_lem cs tail (status_byte n) none (negsuc n) (subst (All (λ c. c ≢ 0)) (sym cut) clean)
        (ap (λ k. conclude k none) (status-low n h)) in
    (m, sends n text, ended, told ∙ cut)

-- `send_fd` of a descriptor sends it with a message on which `recv_fd` returns the descriptor that the
-- system made of it, and shows nothing, whatever the user's function is.
pub recv_fd-send_fd :
    (fd got : ℕ) (userfunc : Bytes → ℤ)
    → (m : Msg) × (send_fd true two (pos fd) ≡ record { rc = pos 0; sent = message m ∷ [] })
      × (m.control ≡ some fd)
      × (recv_fd true userfunc (arrived m.data_bytes (some got) ∷ [])
          ≡ record { end = returned (pos got); shown = [] })
unfolding send_fd send_two recv_fd scan scan_last conclude finish show
recv_fd-send_fd fd got userfunc =
    (record { data_bytes = 0 ∷ 0 ∷ []; control = some fd }, refl, refl, refl)

-- The three ways a loop over the bytes can end, and what the bytes are then.
data View (buf : Bytes) : Type 0 where
  is_plain : scan buf ≡ plain → View buf
  is_final :
      (text : Bytes) (status : ℕ)
      → scan buf ≡ final text status
      → buf ≡ text ++ 0 ∷ status ∷ []
      → View buf
  is_malformed : scan buf ≡ malformed → View buf

last-View : (c : ℕ) (s : Bytes) → c ≡ 0 → View (c ∷ s)
unfolding scan scan_last
last-View c [] e = is_malformed (rw e refl)
last-View c (status ∷ []) e = is_final [] status (rw e refl) (ap (λ d. d ∷ status ∷ []) e)
last-View c (status ∷ d ∷ s) e = is_malformed (rw e refl)

more-View : (c : ℕ) (s : Bytes) → (c == 0) ≡ false → View s → View (c ∷ s)
unfolding scan behind
more-View c s h (is_plain e) = is_plain (rw (h, e) refl)
more-View c s h (is_final text status e b) =
    is_final (c ∷ text) status (rw (h, e) refl) (ap (λ t. c ∷ t) b)
more-View c s h (is_malformed e) = is_malformed (rw (h, e) refl)

view : (buf : Bytes) → View buf
unfolding scan
view [] = is_plain refl
view (c ∷ s) = elim (Bool-cases (c == 0)) [
  | inl null ↦ last-View c s (ground arith)
  | inr other ↦ more-View c s other (view s)
]

show-cases :
    (userfunc : Bytes → ℤ) (text : Bytes) (next : Received)
    → ((show userfunc text next).end ≡ next.end)
      ⊎ ((show userfunc text next).end ≡ returned (negsuc 0))
unfolding show
show-cases userfunc text next = elim (Bool-cases (ltb 0 (length text))) [
  | inl text_there ↦ elim (Bool-cases (wrote (userfunc text) (length text))) [
    | inl whole ↦ inl (rw (text_there, whole) refl)
    | inr less ↦ inr (rw (text_there, less) refl)
  ]
  | inr nothing ↦ inl (rw nothing refl)
]

show-returned :
    (userfunc : Bytes → ℤ) (text : Bytes) (next : Received) (fd : ℕ)
    → (show userfunc text next).end ≡ returned (pos fd)
    → next.end ≡ returned (pos fd)
show-returned userfunc text next fd h = elim (show-cases userfunc text next) [
  | inl e ↦ sym e ∙ h
  | inr e ↦ absurd (cc (sym e ∙ h))
]

finish-returned :
    (userfunc : Bytes → ℤ) (text : Bytes) (status : ℕ) (control : Option ℕ) (fd : ℕ)
    → (finish userfunc text (conclude status control)).end ≡ returned (pos fd)
    → (status ≡ 0) × (control ≡ some fd)
unfolding finish conclude
finish-returned userfunc text zero (some k) fd h =
    let e = show-returned userfunc text (record { end = returned (pos k); shown = [] }) fd h in
    (refl, cc e)
finish-returned userfunc text zero none fd h = absurd (cc h)
finish-returned userfunc text (suc n) control fd h =
    let e = show-returned userfunc text (record { end = returned (negsuc n); shown = [] }) fd h in
    absurd (cc e)

abbrev Came : List Arrival → ℕ → Type 0
Came all fd =
    (xs : List Arrival) × (text : Bytes) × (ys : List Arrival) × (all
      ≡ xs ++ arrived (text ++ 0 ∷ 0 ∷ []) (some fd) ∷ ys)

module _ (userfunc : Bytes → ℤ) (buf : Bytes) (control : Option ℕ) (more : List Arrival)
    (fd : ℕ) where
  -- One round of the loop.
  ends : Scan → End
  ends plain = (show userfunc buf (recv_fd true userfunc more)).end
  ends (final text status) = (finish userfunc text (conclude status control)).end
  ends malformed = stopped

  came :
      View buf
      → ((recv_fd true userfunc more).end ≡ returned (pos fd) → Came more fd)
      → ends (scan buf) ≡ returned (pos fd)
      → Came (arrived buf control ∷ more) fd
  unfolding ends
  came (is_plain e) next h =
      let h' = ap ends (sym e) ∙ h in
      let (xs, text, ys, eq) =
        next (show-returned userfunc buf (recv_fd true userfunc more) fd h') in
      (arrived buf control ∷ xs, text, ys, ap (λ l. arrived buf control ∷ l) eq)
  came (is_final text status e b) next h =
      let h' = ap ends (sym e) ∙ h in
      let (s, c) = finish-returned userfunc text status control fd h' in
      ([], text, more, ap₂ (λ d k. arrived d k ∷ more) (b ∙ ap (λ n. text ++ 0 ∷ n ∷ []) s) c)
  came (is_malformed e) next h = absurd (cc (ap ends (sym e) ∙ h))

abbrev end_of : Received → End
end_of r = r.end

round :
    (userfunc : Bytes → ℤ) (buf : Bytes) (control : Option ℕ) (more : List Arrival) (fd : ℕ)
    (r : Scan)
    → ends userfunc buf control more fd r
      ≡ end_of (elim r [
        | plain ↦ show userfunc buf (recv_fd true userfunc more)
        | final text status ↦ finish userfunc text (conclude status control)
        | malformed ↦ record { end = stopped; shown = [] }
      ])
unfolding ends
round userfunc buf control more fd plain = refl
round userfunc buf control more fd (final text status) = refl
round userfunc buf control more fd malformed = refl

-- Whatever arrives and whatever the user's function returns, a descriptor that `recv_fd` returns came with
-- bytes that end in two nulls.
pub recv_fd-genuine :
    (room : Bool) (userfunc : Bytes → ℤ) (all : List Arrival) (fd : ℕ)
    → (recv_fd room userfunc all).end ≡ returned (pos fd)
    → (xs : List Arrival) × (text : Bytes) × (ys : List Arrival) × (all
        ≡ xs ++ arrived (text ++ 0 ∷ 0 ∷ []) (some fd) ∷ ys)
unfolding recv_fd
recv_fd-genuine true userfunc [] fd h = absurd (cc h)
recv_fd-genuine false userfunc [] fd h = absurd (cc h)
recv_fd-genuine false userfunc (a ∷ more) fd h = absurd (cc h)
recv_fd-genuine true userfunc (broken ∷ more) fd h = absurd (cc h)
recv_fd-genuine true userfunc (closed ∷ more) fd h = absurd (cc h)
recv_fd-genuine true userfunc (arrived buf control ∷ more) fd h =
    came userfunc buf control more fd (view buf) (recv_fd-genuine true userfunc more fd)
      (round userfunc buf control more fd (scan buf) ∙ h)
