-- ===== src/Tests/Status.antt =====
-- `printer_status` of ipp/printd.c on a short response.
use apue_2e.Base.{◌+◌, ◌*◌, ◌==◌, ◌≡◌, refl, true, ◌&&◌, leb, [], ◌∷◌, ◌++◌, arith}
use apue_2e.Files.{Bytes}
use apue_2e.CText.{is_space, is_digit, scan, codes}
use apue_2e.Ipp.Status.{Answer, returned, spins, printer_status, is_success, no_eol, begins_with}
use apue_2e.Ipp.Status.Scan.{is_end, ending}
use apue_2e.Ipp.Status.Response.{Head, IsHead, text, printer_status-verdict, printer_status-spins}

abbrev head : Head
head = record {
  version = codes "HTTP/1.1";
  spaces = 32 ∷ [];
  code0 = 50;
  code = codes "00";
  sep = 32;
  reason = codes "OK";
  eol = 13;
  front = 10 ∷ codes "Cache: c" ++ 13 ∷ 10 ∷ [];
  blanks = 32 ∷ [];
  len0 = 56;
  len = [];
  stop = 13;
}

head-IsHead : IsHead head
unfolding is_space is_digit is_success no_eol scan begins_with
head-IsHead = record {
  version = refl;
  spaces = (refl, tt);
  code0 = refl;
  code = (refl, (refl, tt));
  sep = refl;
  reason = (refl, (refl, tt));
  eol = refl;
  front = λ s.
      (refl, (refl, (refl, (refl, (refl, (refl, (refl, (refl, (refl, (refl, (refl, tt)))))))))));
  blanks = (refl, tt);
  len0 = refl;
  len = tt;
  stop = refl;
  success = refl;
}

-- A line end behind the length, the empty line, and a header for request 7 with status 0.
abbrev middle : Bytes
middle = 10 ∷ codes "X: y" ++ 13 ∷ []

abbrev answer : Answer
answer = record {
  bytes_read = text head (middle ++ ending (1 ∷ 1 ∷ 0 ∷ 0 ∷ 0 ∷ 0 ∷ 0 ∷ 7 ∷ []));
  behind = [];
}

printer_status-verdict_example :
    printer_status 40 true 7 (answer ∷ [])
    ≡ returned (((((0 * 256 + 0) * 256 + 0) * 256 + 7) == 7) && leb (0 * 256 + 0) 255)
unfolding is_end scan
printer_status-verdict_example =
    printer_status-verdict head head-IsHead middle 1 1 0 0 0 0 0 7 [] 40 true 7 answer [] refl
      (omega arith) (λ t. (refl, (refl, (refl, (refl, (refl, (refl, tt))))))) (omega arith)
      (omega arith)

-- The same response, cut in front of the empty line.
abbrev cut : Answer
cut = record { bytes_read = text head middle; behind = [] }

printer_status-spins_example : printer_status 40 true 7 (cut ∷ answer ∷ []) ≡ spins
unfolding is_end
printer_status-spins_example =
    printer_status-spins head head-IsHead middle 40 true 7 cut (answer ∷ []) refl (omega arith)
      (omega arith) (refl, (refl, (refl, (refl, (refl, (refl, tt)))))) (omega arith)
