-- ===== src/Opend/Pass.antt =====
-- `send_fd`, `send_err` and `recv_fd` of lib/sendfd.c, lib/senderr.c and lib/recvfd.c. What the system calls
-- and the user's function return is an argument. The message area that is allocated on the first call
-- counts as one answer: whether it is there.
pub mod RoundTrip
use apue_2e.Base.{
  ℕ, zero, suc, ◌+◌, ◌%◌, ◌==◌, ◌≡◌, Bool, true, false, ◌&&◌, not, ltb, if◌then◌else◌, Option, none,
  some, List, [], ◌∷◌, ◌++◌, length, ℤ, pos, negsuc,
}
use apue_2e.Files.{Bytes}

-- What one sendmsg(2) is handed: the bytes, and the descriptor that goes with them.
pub record Msg : Type 0 where
  pub data_bytes : Bytes
  pub control : Option ℕ

-- What a function hands to the socket, in order.
pub data Sent : Type 0 where
  written : Bytes → Sent
  message : Msg → Sent

-- A returned `int`, and what went to the socket.
pub record Outcome : Type 0 where
  pub rc : ℤ
  pub sent : List Sent

-- The status byte for the error `-(n + 1)`: `buf[1]` is a `char`, and 0 would say that a descriptor comes.
unfoldable pub status_byte : ℕ → ℕ
status_byte n = if (n + 1) % 256 == 0 then 1 else (n + 1) % 256

-- `if (sendmsg(fd, &msg, 0) != 2)`
unfoldable pub send_two : (Msg → ℤ) → Msg → Outcome
send_two sendmsg m = record {
  rc = elim (sendmsg m) [ pos n ↦ if n == 2 then pos 0 else negsuc 0 | negsuc n ↦ negsuc 0 ];
  sent = message m ∷ [];
}

-- `send_fd`
unfoldable pub send_fd : Bool → (Msg → ℤ) → ℤ → Outcome
unfolding status_byte send_two
send_fd room sendmsg (negsuc n) =
    send_two sendmsg (record { data_bytes = 0 ∷ status_byte n ∷ []; control = none })
send_fd room sendmsg (pos fd) =
    if room
    then send_two sendmsg (record { data_bytes = 0 ∷ 0 ∷ []; control = some fd })
    else record { rc = negsuc 0; sent = [] }

-- `if (errcode >= 0) errcode = -1;`
unfoldable pub negative : ℤ → ℤ
negative (pos n) = negsuc 0
negative (negsuc n) = negsuc n

-- `writen(fd, pMsg, n) != n`
unfoldable pub wrote : ℤ → ℕ → Bool
wrote (pos k) n = k == n
wrote (negsuc k) n = false

-- `send_err`
unfoldable pub send_err : Bool → (Bytes → ℤ) → (Msg → ℤ) → ℤ → Bytes → Outcome
unfolding send_fd negative wrote
send_err room writen sendmsg errcode msg =
    let sent = send_fd room sendmsg (negative errcode) in
    let rc : ℤ = elim sent.rc [ pos n ↦ pos 0 | negsuc n ↦ negsuc 0 ] in
    if ltb 0 (length msg)
    then (if wrote (writen msg) (length msg)
        then record { rc = rc; sent = written msg ∷ sent.sent }
        else record { rc = negsuc 0; sent = written msg ∷ [] })
    else record { rc = rc; sent = sent.sent }

-- What recvmsg(2) returns: -1, 0 when the server is gone, or bytes and perhaps a descriptor with them.
pub data Arrival : Type 0 where
  broken : Arrival
  closed : Arrival
  arrived : Bytes → Option ℕ → Arrival

-- The loop over the bytes that came: no null among them, the last two a null and a status, or a null
-- somewhere else.
pub data Scan : Type 0 where
  plain : Scan
  final : Bytes → ℕ → Scan
  malformed : Scan

unfoldable pub scan_last : Bytes → Scan
scan_last [] = malformed
scan_last (status ∷ []) = final [] status
scan_last (status ∷ c ∷ s) = malformed

unfoldable pub behind : ℕ → Scan → Scan
behind c plain = plain
behind c (final text status) = final (c ∷ text) status
behind c malformed = malformed

unfoldable pub scan : Bytes → Scan
unfolding scan_last behind
scan [] = plain
scan (c ∷ s) = let rest = scan s in if c == 0 then scan_last s else behind c rest

-- How `recv_fd` ends: the process stops in `err_sys` or `err_dump`, the call returns, or it still waits.
pub data End : Type 0 where
  stopped : End
  returned : ℤ → End
  waits : End

-- The end, and what the user's function was called with.
pub record Received : Type 0 where
  pub end : End
  pub shown : List Bytes

-- `if (nr > 0 && (*userfunc)(STDERR_FILENO, buf, nr) != nr) return(-1);` before what follows
unfoldable pub show : (Bytes → ℤ) → Bytes → Received → Received
unfolding wrote
show userfunc text next =
    if ltb 0 (length text)
    then (if wrote (userfunc text) (length text)
        then record { end = next.end; shown = text ∷ next.shown }
        else record { end = returned (negsuc 0); shown = text ∷ [] })
    else next

-- The end behind the final bytes: a descriptor, or the status with its sign changed.
unfoldable pub conclude : ℕ → Option ℕ → End
conclude zero (some fd) = returned (pos fd)
conclude zero none = stopped
conclude (suc n) control = returned (negsuc n)

-- What the final bytes lead to: without a descriptor the process stops before the text is shown.
unfoldable pub finish : (Bytes → ℤ) → Bytes → End → Received
unfolding show
finish userfunc text stopped = record { end = stopped; shown = [] }
finish userfunc text (returned rc) = show userfunc text (record { end = returned rc; shown = [] })
finish userfunc text waits = record { end = waits; shown = [] }

-- `recv_fd`, its loop taken over what the calls of recvmsg return in turn.
unfoldable pub recv_fd : Bool → (Bytes → ℤ) → List Arrival → Received
unfolding scan show conclude finish
recv_fd room userfunc [] = record { end = if room then waits else returned (negsuc 0); shown = [] }
recv_fd room userfunc (a ∷ more) =
    let rest = recv_fd room userfunc more in
    if room
    then elim a [
      | broken ↦ record { end = stopped; shown = [] }
      | closed ↦ record { end = returned (negsuc 0); shown = [] }
      | arrived buf control ↦ elim (scan buf) [
        | plain ↦ show userfunc buf rest
        | final text status ↦ finish userfunc text (conclude status control)
        | malformed ↦ record { end = stopped; shown = [] }
      ]
    ]
    else record { end = returned (negsuc 0); shown = [] }
