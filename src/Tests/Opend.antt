-- ===== src/Tests/Opend.antt =====
-- The open server at concrete requests and tables.
use apue_2e.Base.{
  ◌<◌, ◌==◌, ◌≡◌, ◌≢◌, refl, true, false, none, some, List, [], ◌∷◌, ◌++◌, length, All, ℤ, pos,
  negsuc, arith,
}
use apue_2e.Files.{Bytes}
use apue_2e.CText.{decimal}
use apue_2e.Tools.BufArgs.{is_white}
use apue_2e.Opend.Pass.{Msg, message, send_err, arrived, closed, recv_fd, returned, Arrival}
use apue_2e.Opend.Pass.RoundTrip.{
  full, two, join, carried, framed, recv_fd-send_err, recv_fd-genuine,
}
use apue_2e.Opend.Request.{
  Server, Opened, descriptor, refused, Handled, handled, request, asking, cannot_open,
}
use apue_2e.Opend.Request.Asked.{IsPlain, csopen-opened, csopen-refused}
use apue_2e.Opend.Clients.{Client, added, available, connected, client_add, client_del, is_fd}
use apue_2e.Opend.Clients.Kept.{client_del-client_add}
use apue_2e.Opend.Loop.{fd_set, Got, round, started}
use apue_2e.Opend.Loop.Rounds.{InStep, Settled, IsNew, begins, Reaches-InStep}

abbrev hello : Bytes
hello = 104 ∷ 105 ∷ 10 ∷ []

recv_fd-send_err_example :
    (m : Msg) × (send_err true full two (negsuc 12) hello
      ≡ record { rc = pos 0; sent = framed hello m })
    × ((recv_fd true full (carried ((104 ∷ 105 ∷ []) ∷ []) (10 ∷ []) m.data_bytes m.control)).end
        ≡ returned (negsuc 12))
    × (join
          (recv_fd true full
            (carried ((104 ∷ 105 ∷ []) ∷ []) (10 ∷ []) m.data_bytes m.control)).shown
        ≡ hello)
recv_fd-send_err_example =
    recv_fd-send_err 12 hello ((104 ∷ 105 ∷ []) ∷ []) (10 ∷ []) (omega arith)
      (omega arith, (omega arith, (omega arith, tt))) (unfold join in refl)

abbrev arrivals : List Arrival
arrivals = arrived hello none ∷ arrived (104 ∷ 0 ∷ 0 ∷ []) (some 7) ∷ closed ∷ []

recv_fd-genuine_example :
    (xs : List Arrival) × (text : Bytes) × (ys : List Arrival) × (arrivals
      ≡ xs ++ arrived (text ++ 0 ∷ 0 ∷ []) (some 7) ∷ ys)
unfolding recv_fd
recv_fd-genuine_example = recv_fd-genuine true full arrivals 7 refl

abbrev idle : Server
idle = record { errmsg = []; oflag = pos 0; pathname = [] }

-- A directory with one file, which opens as descriptor 5.
one_file : Bytes → ℤ → Opened
one_file name flags = descriptor 5

no_file : Bytes → ℤ → Opened
no_file name flags = refused (104 ∷ [])

name-IsPlain : All IsPlain (97 ∷ 98 ∷ [])
unfolding is_white
name-IsPlain = ((refl, omega arith), ((refl, omega arith), tt))

short_flags : length (decimal 577) < 9
unfolding decimal
short_flags = omega arith

csopen-opened_example :
    (b : Bytes) × (h : Handled) × (m : Msg) × (asking (97 ∷ 98 ∷ []) (pos 577) ≡ some b)
    × (request true full two one_file b 1000 idle ≡ handled h)
    × (h.reply ≡ record { rc = pos 0; sent = message m ∷ [] })
    × (h.asked ≡ (97 ∷ 98 ∷ [], pos 577) ∷ [])
    × (h.closed_fds ≡ 5 ∷ [])
    × (m.control ≡ some 5)
    × (recv_fd true full (arrived m.data_bytes (some 9) ∷ [])
        ≡ record { end = returned (pos 9); shown = [] })
unfolding one_file
csopen-opened_example =
    csopen-opened 97 (98 ∷ []) 577 1000 idle one_file name-IsPlain short_flags 5 9 full refl

abbrev complaint : Bytes
complaint = cannot_open (97 ∷ 98 ∷ []) (104 ∷ [])

complaint_clean : All (λ d. d ≢ 0) complaint
unfolding cannot_open
complaint_clean = (
  omega arith,
  (
    omega arith,
    (
      omega arith,
      (
        omega arith,
        (
          omega arith,
          (
            omega arith,
            (
              omega arith,
              (
                omega arith,
                (
                  omega arith,
                  (
                    omega arith,
                    (
                      omega arith,
                      (
                        omega arith,
                        (
                          omega arith,
                          (omega arith, (omega arith, (omega arith, (omega arith, tt)))),
                        ),
                      ),
                    ),
                  ),
                ),
              ),
            ),
          ),
        ),
      ),
    ),
  ),
)

csopen-refused_example :
    (b : Bytes) × (h : Handled) × (m : Msg) × (asking (97 ∷ 98 ∷ []) (pos 577) ≡ some b)
    × (request true full two no_file b 1000 idle ≡ handled h)
    × (h.reply ≡ record { rc = pos 0; sent = framed complaint m })
    × (h.asked ≡ (97 ∷ 98 ∷ [], pos 577) ∷ [])
    × (h.closed_fds ≡ [])
    × ((recv_fd true full (carried [] complaint m.data_bytes m.control)).end ≡ returned (negsuc 0))
    × (join (recv_fd true full (carried [] complaint m.data_bytes m.control)).shown ≡ complaint)
unfolding no_file cannot_open
csopen-refused_example =
    csopen-refused 97 (98 ∷ []) 577 1000 idle no_file name-IsPlain short_flags (104 ∷ []) []
      complaint refl (omega arith) complaint_clean (unfold join in refl)

abbrev table : List Client
table = record { fd = pos 4; uid = 1 } ∷ record { fd = negsuc 0; uid = 0 } ∷ []

client_del-client_add_example :
    (xs : List Client) × (ys : List Client) × (u : List Client) × (client_add true
        (λ i. i)
        (pos 6)
        500
        table
      ≡ added (length xs) (xs ++ record { fd = pos 6; uid = 500 } ∷ ys))
    × All (λ c. available c ≡ false) xs
    × (connected xs ++ connected ys ≡ connected table)
    × (client_del (pos 6) (xs ++ record { fd = pos 6; uid = 500 } ∷ ys) ≡ some u)
    × (connected u ≡ connected table)
client_del-client_add_example =
    client_del-client_add (λ i. i) 6 500 table (unfold is_fd in (refl, (refl, tt)))

-- A connection in the first round.
Reaches-InStep_example :
    InStep 4 (started 4 idle)
    × Settled
        (request true full two one_file)
        (λ fd. Got.closed)
        (λ k. k == 4)
        (some (5, 500))
        4
        (round true full two one_file
          (λ fd. Got.closed)
          (λ k. k == 4)
          (λ i. 0)
          4
          (some (5, 500))
          (started 4 idle))
unfolding started fd_set IsNew
Reaches-InStep_example =
    Reaches-InStep 4 idle (started 4 idle) true full two one_file (λ i. 0) (λ fd. Got.closed)
      (λ k. k == 4) (some (5, 500)) begins refl
