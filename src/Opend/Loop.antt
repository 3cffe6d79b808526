-- ===== src/Opend/Loop.antt =====
-- One round of `loop` in opend/loop.select.c, behind select(2). An `fd_set` is a function to Bool. What the
-- system calls return is an argument: the set that select(2) leaves, the connection that `serv_accept` gives,
-- and what read(2) returns on each descriptor.
pub mod Sets
pub mod Rounds
use apue_2e.Base.{
  ℕ, zero, suc, ◌+◌, ◌==◌, Bool, true, false, ltb, if◌then◌else◌, Option, none, some, List, [], ◌∷◌,
  ℤ, pos, negsuc,
}
use apue_2e.Files.{Bytes}
use apue_2e.Opend.Pass.{Msg}
use apue_2e.Opend.Request.{Server, Opened, Request, handled, request}
use apue_2e.Opend.Request
use apue_2e.Opend.Clients.{Client, Added, added, no_memory, unfinished, client_add, client_del}

abbrev pub FdSet : Type 0
FdSet = ℕ → Bool

-- `FD_SET` and `FD_CLR`
unfoldable pub fd_set : ℕ → FdSet → FdSet
fd_set fd set k = if k == fd then true else set k

unfoldable pub fd_clr : ℕ → FdSet → FdSet
fd_clr fd set k = if k == fd then false else set k

-- The variables of the loop; `count` is `maxi + 1`.
pub record State : Type 0 where
  pub clients : List Client
  pub allset : FdSet
  pub maxfd : ℕ
  pub count : ℕ
  pub server : Server

-- What ends the process: `serv_accept`, or the allocation of the table, or read(2) on a descriptor, or
-- `send_fd` in the answer to one fails; or `client_del` finds no entry for a descriptor (`log_quit`).
-- `no_place` is the search of `client_add` behind its two rounds.
pub data Why : Type 0 where
  no_connection : Why
  no_table : Why
  no_place : Why
  unreadable : ℕ → Why
  unanswered : ℕ → Why
  not_found : ℕ → Why

-- A round ends with the state, with the end of the process, in a write behind `errmsg` for a descriptor, or in
-- a read behind the table.
pub data Round : Type 0 where
  running : State → Round
  quits : Why → Round
  overrun : ℕ → Round
  behind_table : Round

unfoldable pub and_then : Round → (State → Round) → Round
and_then (running s) k = k s
and_then (quits why) k = quits why
and_then (overrun fd) k = overrun fd
and_then behind_table k = behind_table

-- What read(2) returns.
pub data Got : Type 0 where
  failed closed : Got
  got : Bytes → Got

-- `client[i]`
unfoldable pub entry : ℕ → List Client → Option Client
entry i [] = none
entry zero (c ∷ t) = some c
entry (suc i) (c ∷ t) = entry i t

-- What follows `client_add`
unfoldable pub joined : ℕ → State → Added → Round
unfolding fd_set
joined clifd s no_memory = quits no_table
joined clifd s unfinished = quits no_place
joined clifd s (added i t) = running (record s {
  clients = t;
  allset = fd_set clifd s.allset;
  maxfd = if ltb s.maxfd clifd then clifd else s.maxfd;
  count = if ltb s.count (i + 1) then i + 1 else s.count;
})

-- A new connection, `none` where `serv_accept` fails.
unfoldable pub accept : (ℕ → ℕ) → Option (ℕ × ℕ) → State → Round
unfolding joined
accept junk none s = quits no_connection
accept junk (some (clifd, uid)) s = joined clifd s (client_add true junk (pos clifd) uid s.clients)

-- `client_del(clifd)`, `FD_CLR` and `close`, on the result of the first
unfoldable pub dropped : ℕ → State → Option (List Client) → Round
unfolding fd_clr
dropped fd s none = quits (not_found fd)
dropped fd s (some t) = running (record s { clients = t; allset = fd_clr fd s.allset })

-- The state behind `request`
unfoldable pub answered : ℕ → State → Request → Round
answered fd s Request.overrun = overrun fd
answered fd s (handled h) =
    if h.quits then quits (unanswered fd) else running (record s { server = h.server })

module _ (room : Bool) (writen : Bytes → ℤ) (sendmsg : Msg → ℤ) (open_file : Bytes → ℤ → Opened)
    (reads : ℕ → Got) (rset : FdSet) where
  -- A client whose descriptor can be read
  unfoldable pub serve_client : ℕ → ℕ → State → Got → Round
  unfolding dropped answered
  serve_client fd uid s failed = quits (unreadable fd)
  serve_client fd uid s closed = dropped fd s (client_del (pos fd) s.clients)
  serve_client fd uid s (got buf) =
      answered fd s (request room writen sendmsg open_file buf uid s.server)

  -- `if ((clifd = client[i].fd) < 0) continue;` and the test of the set
  unfoldable pub look : ℕ → State → ℤ → Round
  unfolding serve_client
  look uid s (negsuc n) = running s
  look uid s (pos fd) =
      let served = serve_client fd uid s (reads fd) in if rset fd then served else running s

  -- The body of the loop over the table
  unfoldable pub visit : State → Option Client → Round
  unfolding look
  visit s none = behind_table
  visit s (some c) = look c.uid s c.fd

  -- `for (i = 0; i <= maxi; i++)`, `n` rounds from `i` on
  unfoldable pub scan : ℕ → ℕ → State → Round
  unfolding and_then visit entry
  scan zero i s = running s
  scan (suc n) i s = and_then (visit s (entry i s.clients)) (scan n (i + 1))

  -- One round of the outer loop
  unfoldable pub round : (ℕ → ℕ) → ℕ → Option (ℕ × ℕ) → State → Round
  unfolding accept scan
  round junk listenfd connection s =
      if rset listenfd then accept junk connection s else scan s.count 0 s

-- The state in front of the first round.
unfoldable pub started : ℕ → Server → State
unfolding fd_set
started listenfd server = record {
  clients = [];
  allset = fd_set listenfd (λ k. false);
  maxfd = listenfd;
  count = 0;
  server = server;
}
