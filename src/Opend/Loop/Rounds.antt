-- ===== src/Opend/Loop/Rounds.antt =====
-- Every round of the loop keeps the sets and the table of clients in step.
use apue_2e.Base.{
  ℕ, zero, suc, ◌+◌, ◌≤◌, ◌<◌, ◌==◌, ◌≡◌, refl, ap, sym, ◌∙◌, subst, Bool, true, false, ◌||◌, ltb,
  if◌then◌else◌, Option, none, some, List, [], ◌∷◌, ◌++◌, length, length-append, ℤ, pos, negsuc,
  arith, Bool-cases, inl, inr,
}
use apue_2e.Files.{Bytes}
use apue_2e.Opend.Pass.{Msg}
use apue_2e.Opend.Request.{Server, Opened, Request, Handled, handled, request}
use apue_2e.Opend.Clients.{Client, is_fd, client_del}
use apue_2e.Opend.Clients.Kept.{client_add-Joined}
use apue_2e.Opend.Loop.{
  FdSet, fd_set, fd_clr, State, Round, running, quits, no_connection, unreadable, unanswered,
  overrun, behind_table, and_then, Got, failed, closed, got, entry, accept, joined, dropped,
  answered, serve_client, look, visit, scan, round, started,
}
use apue_2e.Opend.Loop.Sets.{
  has_fd, Distinct, Free, Free-put, has_fd-put, Distinct-put, has_fd-extra, Distinct-extra,
  Free-extra, All-no_fd, client_del-Removed,
}

-- The set for select(2) holds the descriptor of the listener and those of the table, each in one entry;
-- `maxfd` is none of them below, the listener is no client, and all entries behind `maxi` are available.
pub record InStep (listenfd : ℕ) (s : State) : Type 0 where
  pub sets : (k : ℕ) → s.allset k ≡ ((k == listenfd) || has_fd k s.clients)
  pub distinct : Distinct s.clients
  pub highest : (k : ℕ) → s.allset k ≡ true → k ≤ s.maxfd
  pub listener : has_fd listenfd s.clients ≡ false
  pub free : Free s.count s.clients
  pub inside : s.count ≤ length s.clients

-- How a round can end the process, or write behind `errmsg`: `serv_accept` fails for a listener that select(2)
-- reports, read(2) fails on a descriptor that it reports, or what was read there is a request that `send_fd`
-- fails for or that `errmsg` has no room for.
pub data Ends (answer : Bytes → ℕ → Server → Request) (reads : ℕ → Got) (rset : FdSet)
    (connection : Option (ℕ × ℕ)) (listenfd : ℕ) : Round → Type 0 where
  refused :
      rset listenfd ≡ true
      → connection ≡ none
      → Ends answer reads rset connection listenfd (quits no_connection)
  read_failed :
      {fd : ℕ}
      → rset fd ≡ true
      → reads fd ≡ failed
      → Ends answer reads rset connection listenfd (quits (unreadable fd))
  send_failed :
      {fd uid : ℕ} {buf : Bytes} {server : Server} {h : Handled}
      → rset fd ≡ true
      → reads fd ≡ got buf
      → answer buf uid server ≡ handled h
      → h.quits ≡ true
      → Ends answer reads rset connection listenfd (quits (unanswered fd))
  too_long :
      {fd uid : ℕ} {buf : Bytes} {server : Server}
      → rset fd ≡ true
      → reads fd ≡ got buf
      → answer buf uid server ≡ Request.overrun
      → Ends answer reads rset connection listenfd (overrun fd)

-- A round that goes on does so in step, and with a table of `size` entries.
data Goes (answer : Bytes → ℕ → Server → Request) (reads : ℕ → Got) (rset : FdSet)
    (connection : Option (ℕ × ℕ)) (listenfd size : ℕ) : Round → Type 0 where
  goes :
      {s : State}
      → InStep listenfd s
      → length s.clients ≡ size
      → Goes answer reads rset connection listenfd size (running s)
  stops :
      {r : Round}
      → Ends answer reads rset connection listenfd r
      → Goes answer reads rset connection listenfd size r

-- The client of an entry has its descriptor in the table.
entry-has_fd :
    (i fd : ℕ) (c : Client) (t : List Client)
    → entry i t ≡ some c
    → c.fd ≡ pos fd
    → has_fd fd t ≡ true
unfolding entry has_fd is_fd
entry-has_fd i fd c [] e h = absurd (cc e)
entry-has_fd zero fd c (d ∷ t) e h =
    let same : d ≡ c = ap (λ o. elim o [ none ↦ d | some x ↦ x ]) e in
    let its : d.fd ≡ pos fd = ap (λ (x : Client). x.fd) same ∙ h in
    let self : (fd == fd) ≡ true = ground arith in rw (its, self) refl
entry-has_fd (suc i) fd c (d ∷ t) e h = ground (arith, entry-has_fd i fd c t e h)

entry-inside : (i : ℕ) (t : List Client) → i < length t → (c : Client) × (entry i t ≡ some c)
unfolding entry
entry-inside i [] h = absurd (omega arith)
entry-inside zero (c ∷ t) h = (c, refl)
entry-inside (suc i) (c ∷ t) h = entry-inside i t (omega (arith, h))

fd_clr-true : (fd k : ℕ) (set : FdSet) → fd_clr fd set k ≡ true → set k ≡ true
unfolding fd_clr
fd_clr-true fd k set h = elim (Bool-cases (k == fd)) [
  | inl e ↦ absurd (cc (h' e))
  | inr e ↦ sym (rw e refl) ∙ h
]
  where
    h' : (k == fd) ≡ true → false ≡ true
    h' e = sym (rw e refl) ∙ h

if_false : (b : Bool) {c : Bool} → c ≡ false → (if b then false else c) ≡ false
if_false true h = refl
if_false false h = h

no_client :
    (listenfd fd : ℕ) (t : List Client)
    → has_fd fd t ≡ true
    → has_fd listenfd t ≡ false
    → (fd == listenfd) ≡ false
no_client listenfd fd t h l = elim (Bool-cases (fd == listenfd)) [
  | inr e ↦ e
  | inl e ↦
      let same : fd ≡ listenfd = ground arith in absurd (cc (sym h ∙ ap (λ k. has_fd k t) same ∙ l))
]

module _ (listenfd : ℕ) where
  dropped-Goes :
      {answer : Bytes → ℕ → Server → Request} {reads : ℕ → Got} {rset : FdSet}
      {connection : Option (ℕ × ℕ)} (fd : ℕ) (s : State)
      → InStep listenfd s
      → has_fd fd s.clients ≡ true
      → Goes answer reads rset connection listenfd
          (length s.clients)
          (dropped fd s (client_del (pos fd) s.clients))
  unfolding dropped fd_clr
  dropped-Goes fd s h e =
      let (u, r) = client_del-Removed fd s.clients e h.distinct in
      let other : (fd == listenfd) ≡ false = no_client listenfd fd s.clients e h.listener in
      rw (r.result) (
        goes
          (record {
            sets = λ k. cleared k u (r.fds k) other;
            distinct = r.distinct;
            highest = λ k a. h.highest k (fd_clr-true fd k s.allset a);
            listener = r.fds listenfd ∙ if_false (listenfd == fd) h.listener;
            free = r.free s.count h.free;
            inside = omega (arith, h.inside, r.size);
          })
          r.size)
    where
      cleared :
          (k : ℕ) (u : List Client)
          → has_fd k u ≡ (if k == fd then false else has_fd k s.clients)
          → (fd == listenfd) ≡ false
          → fd_clr fd s.allset k ≡ ((k == listenfd) || has_fd k u)
      cleared k u q other = elim (Bool-cases (k == fd)) [
        | inl same ↦
            let it : k ≡ fd = ground arith in
            let no : (k == listenfd) ≡ false = ap (λ j. j == listenfd) it ∙ other in
            rw (q, same, no) refl
        | inr differs ↦ rw (q, differs) (h.sets k)
      ]

  -- A descriptor outside the set is neither the listener nor in the table.
  fresh_fd :
      (fd : ℕ) (s : State)
      → InStep listenfd s
      → s.allset fd ≡ false
      → ((fd == listenfd) ≡ false) × (has_fd fd s.clients ≡ false)
  fresh_fd fd s h e = (ground (arith, h.sets fd, e), ground (arith, h.sets fd, e))

  same_fd : (fd k : ℕ) → is_fd (pos fd) (pos k) ≡ true → k ≡ fd
  unfolding is_fd
  same_fd fd k e = ground arith

  entered :
      (fd k : ℕ) (s : State) (t : List Client)
      → InStep listenfd s
      → has_fd k t ≡ ((fd == k) || has_fd k s.clients)
      → fd_set fd s.allset k ≡ ((k == listenfd) || has_fd k t)
  unfolding fd_set
  entered fd k s t h e = elim (Bool-cases (k == fd)) [
    | inl same ↦ let q : (fd == k) ≡ true = ground arith in rw (e, same, q) (ground arith)
    | inr other ↦ let q : (fd == k) ≡ false = ground arith in rw (e, other, q) (h.sets k)
  ]

  higher :
      (fd k : ℕ) (s : State)
      → InStep listenfd s
      → fd_set fd s.allset k ≡ true
      → k ≤ (if ltb s.maxfd fd then fd else s.maxfd)
  unfolding fd_set
  higher fd k s h e = ground (arith, h.highest k)

  accept-Goes :
      (junk : ℕ → ℕ) (clifd uid : ℕ) (s : State)
      → InStep listenfd s
      → s.allset clifd ≡ false
      → (t : State) × (accept junk (some (clifd, uid)) s ≡ running t) × InStep listenfd t
  unfolding accept joined is_fd
  accept-Goes junk clifd uid s h new =
      let fresh = fresh_fd clifd s h new in
      let j = client_add-Joined junk clifd uid s.clients (All-no_fd clifd s.clients fresh.1) in
      let p = j.spot in
      let old = p.here in
      let c : Client = record { fd = pos clifd; uid = uid } in
      let t = p.before ++ c ∷ p.behind in
      let i = length p.before in
      let count = if ltb s.count (i + 1) then i + 1 else s.count in
      let as_grown = ap length p.split in
      let size = length-append {0} p.before (old ∷ p.behind) in
      let size' = length-append {0} p.before (c ∷ p.behind) in
      let shape = ap length j.shape ∙ length-append {0} s.clients j.extra in
      let olds : (k : ℕ) → has_fd k (p.before ++ old ∷ p.behind) ≡ has_fd k s.clients = λ k.
        ap (has_fd k) (sym p.split ∙ j.shape) ∙ has_fd-extra k s.clients j.extra j.extra_free in
      let fds : (k : ℕ) → has_fd k t ≡ ((clifd == k) || has_fd k s.clients) =
        λ k. has_fd-put k p.before old c p.behind p.hit ∙ ap (λ b. (clifd == k) || b) (olds k) in
      (
        record {
          clients = t;
          allset = fd_set clifd s.allset;
          maxfd = if ltb s.maxfd clifd then clifd else s.maxfd;
          count = count;
          server = s.server;
        },
        ap (joined clifd s) j.result,
        record {
          sets = λ k. entered clifd k s t h (fds k);
          distinct =
              Distinct-put p.before old c p.behind p.hit
                (λ k e. olds k ∙ ap (λ q. has_fd q s.clients) (same_fd clifd k e) ∙ fresh.1)
                (subst Distinct p.split (
                  subst Distinct (sym j.shape)
                    (Distinct-extra s.clients j.extra j.extra_free h.distinct)));
          highest = λ k. higher clifd k s h;
          listener = fds listenfd ∙ rw (fresh.0, h.listener) refl;
          free = Free-put s.count count p.before old c p.behind (ground arith) (ground arith) (
              subst (Free s.count) p.split (
                subst (Free s.count) (sym j.shape)
                  (Free-extra s.count s.clients j.extra j.extra_free h.free)));
          inside = ground (arith, h.inside, as_grown, size, size', shape);
        },
      )

  module _ (room : Bool) (writen : Bytes → ℤ) (sendmsg : Msg → ℤ) (open_file : Bytes → ℤ → Opened)
      (reads : ℕ → Got) (rset : FdSet) (connection : Option (ℕ × ℕ)) where
    abbrev Ending : ℕ → Round → Type 0
    Ending = Goes (request room writen sendmsg open_file) reads rset connection listenfd

    answered-Goes :
        (fd uid : ℕ) (buf : Bytes) (s : State) (r : Request)
        → InStep listenfd s
        → rset fd ≡ true
        → reads fd ≡ got buf
        → request room writen sendmsg open_file buf uid s.server ≡ r
        → Ending (length s.clients) (answered fd s r)
    unfolding answered
    answered-Goes fd uid buf s Request.overrun h q g e = stops (too_long q g e)
    answered-Goes fd uid buf s (handled a) h q g r = elim (Bool-cases a.quits) [
      | inl e ↦ rw e (stops (send_failed q g r e))
      | inr e ↦ rw e (
          goes
            (record {
              sets = h.sets;
              distinct = h.distinct;
              highest = h.highest;
              listener = h.listener;
              free = h.free;
              inside = h.inside;
            })
            refl)
    ]

    serve_client-Goes :
        (fd uid : ℕ) (s : State) (r : Got)
        → InStep listenfd s
        → has_fd fd s.clients ≡ true
        → rset fd ≡ true
        → reads fd ≡ r
        → Ending
            (length s.clients)
            (serve_client room writen sendmsg open_file reads rset fd uid s r)
    unfolding serve_client
    serve_client-Goes fd uid s failed h e q g = stops (read_failed q g)
    serve_client-Goes fd uid s closed h e q g = dropped-Goes fd s h e
    serve_client-Goes fd uid s (got buf) h e q g =
        answered-Goes fd uid buf s (request room writen sendmsg open_file buf uid s.server) h q g
          refl

    look-Goes :
        (uid : ℕ) (s : State) (f : ℤ)
        → InStep listenfd s
        → ((fd : ℕ) → f ≡ pos fd → has_fd fd s.clients ≡ true)
        → Ending (length s.clients) (look room writen sendmsg open_file reads rset uid s f)
    unfolding look
    look-Goes uid s (negsuc n) h e = goes h refl
    look-Goes uid s (pos fd) h e = elim (Bool-cases (rset fd)) [
      | inl q ↦ rw q (serve_client-Goes fd uid s (reads fd) h (e fd refl) q refl)
      | inr q ↦ rw q (goes h refl)
    ]

    visit-Goes :
        (i : ℕ) (s : State)
        → InStep listenfd s
        → i < length s.clients
        → Ending
            (length s.clients)
            (visit room writen sendmsg open_file reads rset s (entry i s.clients))
    unfolding visit
    visit-Goes i s h k =
        let (c, e) = entry-inside i s.clients k in
        subst (λ o. Ending (length s.clients) (visit room writen sendmsg open_file reads rset s o))
          (sym e) (look-Goes c.uid s c.fd h (λ fd q. entry-has_fd i fd c s.clients e q))

    and_then-Goes :
        (size : ℕ) (r : Round) (next : State → Round)
        → Ending size r
        → ((t : State) → InStep listenfd t → length t.clients ≡ size → Ending size (next t))
        → Ending size (and_then r next)
    unfolding and_then
    and_then-Goes size (running s) next (goes h e) k = k s h e
    and_then-Goes size (quits why) next (stops e) k = stops e
    and_then-Goes size (overrun fd) next (stops e) k = stops e
    and_then-Goes size (running s) next (stops e) k = elim e [ ]
    and_then-Goes size behind_table next (stops e) k = elim e [ ]

    scan-Goes :
        (n i size : ℕ) (s : State)
        → InStep listenfd s
        → length s.clients ≡ size
        → i + n ≤ size
        → Ending size (scan room writen sendmsg open_file reads rset n i s)
    unfolding scan
    scan-Goes zero i size s h e k = goes h e
    scan-Goes (suc n) i size s h e k =
        and_then-Goes size _ _
          (subst
            (λ m. Ending m (visit room writen sendmsg open_file reads rset s (entry i s.clients))) e
            (visit-Goes i s h (omega (arith, e, k))))
          (λ t h' e'. scan-Goes n (i + 1) size t h' e' (omega (arith, k)))

-- How a round ends: in step, or as `Ends` says.
pub data Settled (answer : Bytes → ℕ → Server → Request) (reads : ℕ → Got) (rset : FdSet)
    (connection : Option (ℕ × ℕ)) (listenfd : ℕ) : Round → Type 0 where
  settled :
      {s : State} → InStep listenfd s → Settled answer reads rset connection listenfd (running s)
  ended :
      {r : Round}
      → Ends answer reads rset connection listenfd r
      → Settled answer reads rset connection listenfd r

Goes-Settled :
    {answer : Bytes → ℕ → Server → Request} {reads : ℕ → Got} {rset : FdSet}
    {connection : Option (ℕ × ℕ)} {listenfd size : ℕ} {r : Round}
    → Goes answer reads rset connection listenfd size r
    → Settled answer reads rset connection listenfd r
Goes-Settled (goes h e) = settled h
Goes-Settled (stops e) = ended e

-- A connection has a descriptor that is not in use.
unfoldable pub IsNew : State → Option (ℕ × ℕ) → Type 0
IsNew s none = Unit
IsNew s (some (fd, uid)) = s.allset fd ≡ false

module _ (room : Bool) (writen : Bytes → ℤ) (sendmsg : Msg → ℤ) (open_file : Bytes → ℤ → Opened)
    (listenfd : ℕ) where
  scanned :
      (reads : ℕ → Got) (rset : FdSet) (connection : Option (ℕ × ℕ)) (s : State)
      → InStep listenfd s
      → Settled
          (request room writen sendmsg open_file)
          reads
          rset
          connection
          listenfd
          (scan room writen sendmsg open_file reads rset s.count 0 s)
  scanned reads rset connection s h = Goes-Settled (
      scan-Goes listenfd room writen sendmsg open_file reads rset connection s.count 0
        (length s.clients) s h refl (omega (arith, h.inside)))

  pub round-Settled :
      (junk : ℕ → ℕ) (reads : ℕ → Got) (rset : FdSet) (connection : Option (ℕ × ℕ)) (s : State)
      → InStep listenfd s
      → IsNew s connection
      → Settled
          (request room writen sendmsg open_file)
          reads
          rset
          connection
          listenfd
          (round room writen sendmsg open_file reads rset junk listenfd connection s)
  unfolding round IsNew
  round-Settled junk reads rset none s h new = elim (Bool-cases (rset listenfd)) [
    | inl e ↦ rw e (ended (refused e refl))
    | inr e ↦ rw e (scanned reads rset none s h)
  ]
  round-Settled junk reads rset (some (fd, uid)) s h new = elim (Bool-cases (rset listenfd)) [
    | inl e ↦
        let (t, ran, after) = accept-Goes listenfd junk fd uid s h new in
        rw (e, ran) (settled after)
    | inr e ↦ rw e (scanned reads rset (some (fd, uid)) s h)
  ]

-- The states that the rounds of the loop lead to. What the system calls return may differ from round to round.
pub data Reaches (listenfd : ℕ) (server : Server) : State → Type 0 where
  begins : Reaches listenfd server (started listenfd server)
  then_round :
      {s t : State} (room : Bool) (writen : Bytes → ℤ) (sendmsg : Msg → ℤ)
      (open_file : Bytes → ℤ → Opened) (junk : ℕ → ℕ) (reads : ℕ → Got) (rset : FdSet)
      (connection : Option (ℕ × ℕ))
      → Reaches listenfd server s
      → IsNew s connection
      → round room writen sendmsg open_file reads rset junk listenfd connection s ≡ running t
      → Reaches listenfd server t

started-InStep : (listenfd : ℕ) (server : Server) → InStep listenfd (started listenfd server)
unfolding started fd_set has_fd Distinct Free
started-InStep listenfd server = record {
  sets = λ k. ground arith;
  distinct = tt;
  highest = λ k e. ground arith;
  listener = refl;
  free = tt;
  inside = omega arith;
}

Settled-InStep :
    {answer : Bytes → ℕ → Server → Request} {reads : ℕ → Got} {rset : FdSet}
    {connection : Option (ℕ × ℕ)} {listenfd : ℕ} {r : Round} {t : State}
    → Settled answer reads rset connection listenfd r
    → r ≡ running t
    → InStep listenfd t
Settled-InStep {listenfd = listenfd} {t = t} (settled {s} h) e =
    subst (InStep listenfd)
      (ap (λ r. elim r [ running u ↦ u | quits why ↦ s | overrun fd ↦ s | behind_table ↦ s ]) e) h
Settled-InStep (ended (refused q c)) e = absurd (cc e)
Settled-InStep (ended (read_failed q g)) e = absurd (cc e)
Settled-InStep (ended (send_failed q g r b)) e = absurd (cc e)
Settled-InStep (ended (too_long q g r)) e = absurd (cc e)

in_step :
    (listenfd : ℕ) (server : Server) (s : State) → Reaches listenfd server s → InStep listenfd s
in_step listenfd server s begins = started-InStep listenfd server
in_step listenfd server t
      (then_round {s} room writen sendmsg open_file junk reads rset connection r new e) =
    Settled-InStep
      (round-Settled room writen sendmsg open_file listenfd junk reads rset connection s
        (in_step listenfd server s r) new)
      e

-- In every state that the rounds lead to, when each new connection has a descriptor that is not in use: the
-- set for select(2) holds the descriptor of the listener and those of the table of clients, and no others;
-- no client has the listener's or that of another; `maxfd` is at least each of them; and all entries behind
-- `maxi` are available. The next round ends in such a state again, unless `serv_accept` fails for the listener,
-- or, on a descriptor that select(2) reports, read(2) fails or brings a request whose answer cannot be sent or
-- that `errmsg` has no room for: it reads nothing behind the table, and `client_del` finds the entry of each
-- client whose connection is closed.
pub Reaches-InStep :
    (listenfd : ℕ) (server : Server) (s : State) (room : Bool) (writen : Bytes → ℤ)
    (sendmsg : Msg → ℤ) (open_file : Bytes → ℤ → Opened) (junk : ℕ → ℕ) (reads : ℕ → Got)
    (rset : FdSet) (connection : Option (ℕ × ℕ))
    → Reaches listenfd server s
    → IsNew s connection
    → InStep listenfd s
      × Settled
          (request room writen sendmsg open_file)
          reads
          rset
          connection
          listenfd
          (round room writen sendmsg open_file reads rset junk listenfd connection s)
Reaches-InStep listenfd server s room writen sendmsg open_file junk reads rset connection r new =
    let h = in_step listenfd server s r in
    (h, round-Settled room writen sendmsg open_file listenfd junk reads rset connection s h new)
