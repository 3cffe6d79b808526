-- ===== src/Opend/Request/Asked.antt =====
-- What the server makes of the request that `csopen` writes, and what `recv_fd` in `csopen` then returns.
use apue_2e.Base.{
  ℕ, suc, ◌<◌, ◌≡◌, ◌≢◌, refl, ap, sym, ◌∙◌, subst, true, false, ltb, some, List, [], ◌∷◌, ◌++◌,
  append_assoc, append-nil, length, All, All-join, All-map, ℤ, pos, negsuc, arith, ne_eq,
  str_eq_refl,
}
use apue_2e.Files.{Bytes}
use apue_2e.CText.{cstr, atol, decimal}
use apue_2e.CText.RoundTrip.{atol-decimal, decimal-IsDigit, IsDigit, dec_head}
use apue_2e.Tools.BufArgs.{is_white, flush, words_from, words, leading, buf_args, buf_args-words}
use apue_2e.Opend.Pass.{Msg, message, send_fd, send_err, recv_fd, arrived, returned}
use apue_2e.Opend.Pass.RoundTrip.{
  full, two, join, carried, framed, recv_fd-send_fd, recv_fd-send_err,
}
use apue_2e.Opend.Request.{
  max_line, cl_open, Server, cli_args, Opened, descriptor, refused, last, cannot_open, Handled,
  handled, complain, complain_with, answer, serve, request, int_text, asking, is_neg,
}

-- A byte that neither ends a word nor a string.
abbrev pub IsPlain : ℕ → Type 0
IsPlain c = (is_white c ≡ false) × (c ≢ 0)

words_from-plain : (w v s : Bytes) → All IsPlain v → words_from w (v ++ s) ≡ words_from (w ++ v) s
unfolding words_from
words_from-plain w [] s h = ap (λ u. words_from u s) (sym (append-nil w))
words_from-plain w (c ∷ v) s h =
    rw (h.0.0) (
      words_from-plain (w ++ c ∷ []) v s h.1 ∙ ap (λ u. words_from u s) (append_assoc w (c ∷ []) v))

words_from-blank : (w s : Bytes) → words_from w (b' ' ∷ s) ≡ flush w ++ words_from [] s
unfolding words_from is_white
words_from-blank w s = refl

open-IsPlain : All IsPlain cl_open
unfolding is_white
open-IsPlain =
    ((refl, omega arith), ((refl, omega arith), ((refl, omega arith), ((refl, omega arith), tt))))

abbrev line : Bytes → Bytes → Bytes
line name flags = cl_open ++ (b' ' ∷ []) ++ (name ++ b' ' ∷ flags)

-- The request as a string has three words.
words-line :
    (c : ℕ) (name : Bytes) (d : ℕ) (flags : Bytes)
    → All IsPlain (c ∷ name)
    → All IsPlain (d ∷ flags)
    → words (line (c ∷ name) (d ∷ flags)) ≡ cl_open ∷ (c ∷ name) ∷ (d ∷ flags) ∷ []
unfolding words flush words_from
words-line c name d flags plain digits =
    let behind = words_from-plain [] (d ∷ flags) [] digits in
    let all_flags : words_from [] (d ∷ flags) ≡ (d ∷ flags) ∷ [] =
      ap (words_from []) (sym (append-nil (d ∷ flags))) ∙ behind in
    words_from-plain [] cl_open (b' ' ∷ (c ∷ name) ++ b' ' ∷ d ∷ flags) open-IsPlain
    ∙ words_from-blank cl_open ((c ∷ name) ++ b' ' ∷ d ∷ flags)
    ∙ ap (λ ws. cl_open ∷ ws)
        (words_from-plain [] (c ∷ name) (b' ' ∷ d ∷ flags) plain
          ∙ words_from-blank (c ∷ name) (d ∷ flags)
          ∙ ap (λ ws. (c ∷ name) ∷ ws) all_flags)

cstr-ended : (s : Bytes) → All (λ c. c ≢ 0) s → cstr (s ++ 0 ∷ []) ≡ s
unfolding cstr
cstr-ended [] h = refl
cstr-ended (c ∷ s) h = rw (ne_eq c 0 h.0, cstr-ended s h.1) refl

last-append : (s : Bytes) (c : ℕ) → last (s ++ c ∷ []) ≡ c
unfolding last
last-append [] c = refl
last-append (a ∷ []) c = refl
last-append (a ∷ b ∷ s) c = last-append (b ∷ s) c

digit-IsPlain : (c : ℕ) → IsDigit c → IsPlain c
unfolding is_white
digit-IsPlain c h = (ground arith, omega (arith, h.0))

bare : (t : Bytes) → All IsPlain t → All (λ c. c ≢ 0) t
bare t h = All-map IsPlain t (λ c k. k.1) h

line-clean :
    (name flags : Bytes) → All IsPlain name → All IsPlain flags → All (λ c. c ≢ 0) (line name flags)
line-clean name flags p q =
    All-join (λ c. c ≢ 0) cl_open (b' ' ∷ name ++ b' ' ∷ flags) (bare cl_open open-IsPlain)
      (
        omega arith,
        All-join (λ c. c ≢ 0) name (b' ' ∷ flags) (bare name p) (omega arith, bare flags q),
      )

buf_args-line :
    (c : ℕ) (name : Bytes) (d : ℕ) (flags : Bytes)
    → All IsPlain (c ∷ name)
    → All IsPlain (d ∷ flags)
    → buf_args (line (c ∷ name) (d ∷ flags)) ≡ some (cl_open ∷ (c ∷ name) ∷ (d ∷ flags) ∷ [])
unfolding leading
buf_args-line c name d flags p q =
    buf_args-words (line (c ∷ name) (d ∷ flags)) cl_open ((c ∷ name) ∷ (d ∷ flags) ∷ [])
      (words-line c name d flags p q)

-- The number of the flags as text.
digits_of : (n : ℕ) → (d : ℕ) × (t : Bytes) × (decimal n ≡ d ∷ t) × All IsPlain (d ∷ t)
unfolding decimal
digits_of n =
    let (d, t, e) = dec_head n n in
    (d, t, e, subst (All IsPlain) e (All-map IsDigit (decimal n) digit-IsPlain (decimal-IsDigit n)))

-- The variables behind a request with three words.
abbrev saved : Server → Bytes → ℕ → Server
saved s name n = record s { pathname = name; oflag = pos n }

accepted :
    (name : Bytes) (n : ℕ) (s : Server)
    → cli_args (cl_open ∷ name ∷ decimal n ∷ []) s ≡ (pos 0, saved s name n)
unfolding cli_args
accepted name n s =
    let flags : atol (decimal n) ≡ pos n =
      ap atol (sym (append-nil (decimal n))) ∙ atol-decimal n [] tt in
    rw (str_eq_refl cl_open) (ap (λ f. (pos 0, record s { pathname = name; oflag = f })) flags)

fitting :
    (text : Bytes) (s : Server) (asked : List (Bytes × ℤ))
    → length text < max_line
    → complain_with true full two text s asked
      ≡ complain true full two (record s { errmsg = text }) asked
unfolding complain_with
fitting text s asked h = let room : ltb (length text) max_line ≡ true = ground arith in rw room refl

module _ (c : ℕ) (name : Bytes) (n uid : ℕ) (s : Server) (open_file : Bytes → ℤ → Opened)
    (plain : All IsPlain (c ∷ name)) (short : length (decimal n) < 9) where
  buf : Bytes
  buf = line (c ∷ name) (decimal n) ++ 0 ∷ []

  asks : asking (c ∷ name) (pos n) ≡ some buf
  unfolding asking int_text buf
  asks =
      let room : ltb (suc (length (decimal n))) 10 ≡ true = ground arith in
      rw room (
        ap (λ t. some (cl_open ++ b' ' ∷ (c ∷ t)))
          (sym (append_assoc name (b' ' ∷ decimal n) (0 ∷ []))))

  parsed : buf_args (cstr buf) ≡ some (cl_open ∷ (c ∷ name) ∷ decimal n ∷ [])
  unfolding buf
  parsed =
      let (d, t, e, p) = digits_of n in
      subst
        (λ f. buf_args (cstr (line (c ∷ name) f ++ 0 ∷ [])) ≡ some (cl_open ∷ (c ∷ name) ∷ f ∷ []))
        (sym e)
        (ap buf_args (cstr-ended (line (c ∷ name) (d ∷ t)) (line-clean (c ∷ name) (d ∷ t) plain p))
          ∙ buf_args-line c name d t plain p)

  served :
      request true full two open_file buf uid s
      ≡ serve true full two open_file (pos 0, saved s (c ∷ name) n)
  unfolding request buf
  served =
      rw (last-append (line (c ∷ name) (decimal n)) 0, parsed)
        (ap (serve true full two open_file) (accepted (c ∷ name) n s))

  opens :
      (fd : ℕ)
      → open_file (c ∷ name) (pos n) ≡ descriptor fd
      → request true full two open_file buf uid s ≡ answer true full two (saved s (c ∷ name) n) fd
  unfolding serve is_neg
  opens fd e = served ∙ rw e refl

  refuses :
      (why : Bytes)
      → open_file (c ∷ name) (pos n) ≡ refused why
      → length (cannot_open (c ∷ name) why) < max_line
      → request true full two open_file buf uid s
        ≡ complain true full two
            (record (saved s (c ∷ name) n) { errmsg = cannot_open (c ∷ name) why })
            ((c ∷ name, pos n) ∷ [])
  unfolding serve is_neg
  refuses why e low =
      served
      ∙ rw e
          (fitting (cannot_open (c ∷ name) why) (saved s (c ∷ name) n) ((c ∷ name, pos n) ∷ []) low)

  -- For a name that is not empty and has neither white space nor nulls, and flags that are not
  -- negative and have fewer than nine digits: when open(2) gives the server a descriptor and the
  -- socket takes all, the server asks for exactly that name and those flags, sends the descriptor and
  -- closes its own, and `recv_fd` on the message returns the descriptor that arrives with it and shows
  -- nothing.
  pub csopen-opened :
      (fd got : ℕ) (userfunc : Bytes → ℤ)
      → open_file (c ∷ name) (pos n) ≡ descriptor fd
      → (b : Bytes) × (h : Handled) × (m : Msg) × (asking (c ∷ name) (pos n) ≡ some b)
        × (request true full two open_file b uid s ≡ handled h)
        × (h.reply ≡ record { rc = pos 0; sent = message m ∷ [] })
        × (h.asked ≡ (c ∷ name, pos n) ∷ [])
        × (h.closed_fds ≡ fd ∷ [])
        × (m.control ≡ some fd)
        × (recv_fd true userfunc (arrived m.data_bytes (some got) ∷ [])
            ≡ record { end = returned (pos got); shown = [] })
  unfolding answer is_neg
  csopen-opened fd got userfunc e =
      let (m, sends, control, receives) = recv_fd-send_fd fd got userfunc in
      let h : Handled = record {
        server = saved s (c ∷ name) n;
        reply = send_fd true two (pos fd);
        asked = (c ∷ name, pos n) ∷ [];
        closed_fds = fd ∷ [];
        quits = false;
      } in
      let same : answer true full two (saved s (c ∷ name) n) fd ≡ handled h = rw sends refl in
      (buf, h, m, asks, opens fd e ∙ same, sends, refl, refl, control, receives)

  -- For a name that is not empty and has neither white space nor nulls, and flags that are not
  -- negative and have fewer than nine digits: when open(2) refuses them, and the name with the reason
  -- has no null and fits `errmsg`, the server answers with that text on a socket that takes all.
  -- However the text is cut on its way, `recv_fd` with a function that takes all shows just it and
  -- returns -1. The server asked for exactly the name and the flags, and closes nothing.
  pub csopen-refused :
      (why : Bytes) (cs : List Bytes) (tail : Bytes)
      → open_file (c ∷ name) (pos n) ≡ refused why
      → length (cannot_open (c ∷ name) why) < max_line
      → All (λ d. d ≢ 0) (cannot_open (c ∷ name) why)
      → join cs ++ tail ≡ cannot_open (c ∷ name) why
      → (b : Bytes) × (h : Handled) × (m : Msg) × (asking (c ∷ name) (pos n) ≡ some b)
        × (request true full two open_file b uid s ≡ handled h)
        × (h.reply ≡ record { rc = pos 0; sent = framed (cannot_open (c ∷ name) why) m })
        × (h.asked ≡ (c ∷ name, pos n) ∷ [])
        × (h.closed_fds ≡ [])
        × ((recv_fd true full (carried cs tail m.data_bytes m.control)).end ≡ returned (negsuc 0))
        × (join (recv_fd true full (carried cs tail m.data_bytes m.control)).shown
            ≡ cannot_open (c ∷ name) why)
  unfolding complain
  csopen-refused why cs tail e low clean cut =
      let text = cannot_open (c ∷ name) why in
      let (m, sends, ended, told) = recv_fd-send_err 0 text cs tail (omega arith) clean cut in
      let h : Handled = record {
        server = record (saved s (c ∷ name) n) { errmsg = text };
        reply = send_err true full two (negsuc 0) text;
        asked = (c ∷ name, pos n) ∷ [];
        closed_fds = [];
        quits = false;
      } in
      (buf, h, m, asks, refuses why e low, sends, refl, refl, ended, told)
