-- ===== src/Opend/Request.antt =====
-- `cli_args` of opend.fe/cliargs.c, `request` of opend/request.c, and the request that `csopen` of
-- open/open.c writes. open(2), the socket and the text of strerror(3) are arguments. Log lines are left out.
pub mod Asked
use apue_2e.Base.{
  ℕ, suc, ◌+◌, ◌-◌, ◌==◌, Bool, true, false, ◌||◌, not, ltb, if◌then◌else◌, Option, none, some,
  List, [], ◌∷◌, ◌++◌, length, replicate, ℤ, pos, negsuc, str_eq,
}
use apue_2e.Files.{Bytes}
use apue_2e.CText.{cstr, atol, decimal, codes}
use apue_2e.Tools.BufArgs.{buf_args}
use apue_2e.Opend.Pass.{Msg, Outcome, send_fd, send_err, Received, recv_fd, Arrival}

abbrev pub max_line : ℕ
max_line = 4096

-- CL_OPEN
abbrev pub cl_open : Bytes
cl_open = codes "open"

-- The variables of opend/main.c that a request leaves behind.
pub record Server : Type 0 where
  pub errmsg : Bytes
  pub oflag : ℤ
  pub pathname : Bytes

-- `cli_args`
unfoldable pub cli_args : List Bytes → Server → ℤ × Server
cli_args (command ∷ path ∷ flags ∷ []) s =
    if str_eq command cl_open
    then (pos 0, record s { pathname = path; oflag = atol flags })
    else (negsuc 0, record s { errmsg = codes "usage: <pathname> <oflag>\n" })
cli_args argv s = (negsuc 0, record s { errmsg = codes "usage: <pathname> <oflag>\n" })

-- What open(2) returns: a descriptor, or -1 with the text of strerror(3).
pub data Opened : Type 0 where
  descriptor : ℕ → Opened
  refused : Bytes → Opened

-- `%*.*s` with the length of the buffer for both numbers: the C string in it, blanks in front.
unfoldable pub right_justified : Bytes → Bytes
unfolding cstr
right_justified buf = replicate (length buf - length (cstr buf)) b' ' ++ cstr buf

unfoldable pub last : Bytes → ℕ
last [] = 0
last (c ∷ []) = c
last (c ∷ d ∷ s) = last (d ∷ s)

-- What `sprintf` puts in `errmsg` for a request that is not a string, and for one that open(2) refuses.
unfoldable pub unterminated : ℕ → Bytes → Bytes
unfolding right_justified
unterminated uid buf =
    codes "request from uid "
    ++ (decimal uid ++ (codes " not null terminated: " ++ (right_justified buf ++ codes "\n")))

unfoldable pub cannot_open : Bytes → Bytes → Bytes
cannot_open path why = codes "can't open " ++ (path ++ (codes ": " ++ (why ++ codes "\n")))

-- What a request leaves: the variables, what was sent, the calls of open(2), the descriptors closed, and
-- whether `log_sys` ended the process.
pub record Handled : Type 0 where
  pub server : Server
  pub reply : Outcome
  pub asked : List (Bytes × ℤ)
  pub closed_fds : List ℕ
  pub quits : Bool

-- A request ends with its result, or with a write behind the end of `errmsg`.
pub data Request : Type 0 where
  overrun : Request
  handled : Handled → Request

unfoldable pub is_neg : ℤ → Bool
is_neg (pos n) = false
is_neg (negsuc n) = true

module _ (room : Bool) (writen : Bytes → ℤ) (sendmsg : Msg → ℤ) where
  -- `send_err(clifd, -1, errmsg)`
  unfoldable pub complain : Server → List (Bytes × ℤ) → Request
  complain s asked = handled (record {
    server = s;
    reply = send_err room writen sendmsg (negsuc 0) s.errmsg;
    asked = asked;
    closed_fds = [];
    quits = false;
  })

  -- `sprintf(errmsg, ...)` before it
  unfoldable pub complain_with : Bytes → Server → List (Bytes × ℤ) → Request
  unfolding complain
  complain_with text s asked =
      if ltb (length text) max_line then complain (record s { errmsg = text }) asked else overrun

  -- `send_fd(clifd, newfd)` and `close(newfd)`
  unfoldable pub answer : Server → ℕ → Request
  unfolding is_neg
  answer s newfd =
      let reply = send_fd room sendmsg (pos newfd) in
      handled (record {
        server = s;
        reply = reply;
        asked = (s.pathname, s.oflag) ∷ [];
        closed_fds = if is_neg reply.rc then [] else newfd ∷ [];
        quits = is_neg reply.rc;
      })

  -- What comes behind `buf_args`, on the result of `cli_args`.
  unfoldable pub serve : (Bytes → ℤ → Opened) → ℤ × Server → Request
  unfolding cannot_open complain complain_with answer is_neg
  serve open_file (rc, s) =
      if is_neg rc then complain s [] else elim (open_file s.pathname s.oflag) [
        | refused why ↦ complain_with (cannot_open s.pathname why) s ((s.pathname, s.oflag) ∷ [])
        | descriptor newfd ↦ answer s newfd
      ]

  -- `request` on the `nread` bytes of the buffer
  unfoldable pub request : (Bytes → ℤ → Opened) → Bytes → ℕ → Server → Request
  unfolding last unterminated complain complain_with serve cli_args
  request open_file buf uid s =
      if not (last buf == 0)
      then complain_with (unterminated uid buf) s []
      else elim (buf_args (cstr buf)) [
        | none ↦ complain s []
        | some argv ↦ serve open_file (cli_args argv s)
      ]

-- `%d`
unfoldable pub int_text : ℤ → Bytes
int_text (pos n) = decimal n
int_text (negsuc n) = b'-' ∷ decimal (suc n)

-- The three pieces that `csopen` hands to writev(2), and the null behind them. `none` where `sprintf`
-- writes behind the end of its buffer of ten bytes.
unfoldable pub asking : Bytes → ℤ → Option Bytes
unfolding int_text
asking name oflag =
    if ltb (length (b' ' ∷ int_text oflag)) 10
    then some (cl_open ++ (b' ' ∷ []) ++ (name ++ ((b' ' ∷ int_text oflag) ++ 0 ∷ [])))
    else none
