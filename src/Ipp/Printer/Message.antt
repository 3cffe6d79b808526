-- ===== src/Ipp/Printer/Message.antt =====
-- The IPP header that the daemon sends, read back as IPP defines it.
use apue_2e.Base.{
  ℕ, zero, suc, ◌+◌, ◌*◌, ◌%◌, ◌<◌, ◌≤◌, ◌==◌, ◌≡◌, false, if◌then◌else◌, false, Option, none, some,
  List, [], ◌∷◌, ◌++◌, length, length-append, arith, Bool-cases, inl, inr,
}
use apue_2e.Files.{Bytes}
use apue_2e.CText.{codes}
use apue_2e.Ipp.Options.{be16, add_option, length-add_option, take_option}
use apue_2e.Ipp.Client.{Req}
use apue_2e.Ipp.Printer.{ibufsz, strsz, be32, printer_uri, document_format, ipp_header}

-- The attributes up to the tag 3, at most `fuel` of them.
unfoldable pub attributes : ℕ → Bytes → Option (List (ℕ × Bytes × Bytes))
attributes zero s = none
attributes (suc fuel) [] = none
attributes (suc fuel) (t ∷ s) =
    let found : Option (List (ℕ × Bytes × Bytes)) = elim (take_option (t ∷ s)) [
      | none ↦ none
      | some (tag, name, val, rest) ↦ elim (attributes fuel rest) [
        | none ↦ none
        | some more ↦ some ((tag, name, val) ∷ more)
      ]
    ] in
    if t == 3 then some [] else found

-- A number, high byte first.
pub big_endian : ℕ → Bytes → ℕ
big_endian n [] = n
big_endian n (b ∷ s) = big_endian (n * 256 + b) s

format-at_most : (flags : ℕ) → length (document_format flags) ≤ 22
unfolding document_format
format-at_most flags = elim (Bool-cases (flags % 2 == 1)) [
  | inl e ↦ rw e (omega arith)
  | inr e ↦ rw e (omega arith)
]

length-printer_uri : (printer : Bytes) → length (printer_uri printer) ≡ 11 + length printer
unfolding printer_uri
length-printer_uri printer = omega (arith, length-append printer (codes ":631"))

length-ipp_header :
    (printer : Bytes) (jobid : ℕ) (req : Req)
    → length (ipp_header printer jobid req)
      ≡ 160
        + length printer
        + length req.usernm
        + length req.jobnm
        + length (document_format req.flags)
unfolding ipp_header be16 be32
length-ipp_header printer jobid req =
    let start : Bytes = 1 ∷ 1 ∷ (be16 2 ++ (be32 jobid ++ 1 ∷ [])) in
    let charset = add_option start 71 (codes "attributes-charset") (codes "utf-8") in
    let language = add_option charset 72 (codes "attributes-natural-language") (codes "en-us") in
    let uri = add_option language 69 (codes "printer-uri") (printer_uri printer) in
    let user = add_option uri 66 (codes "requesting-user-name") req.usernm in
    let job = add_option user 66 (codes "job-name") req.jobnm in
    let format = add_option job 73 (codes "document-format") (document_format req.flags) in
    omega (
      arith,
      length-append format (3 ∷ []),
      length-add_option job 73 (codes "document-format") (document_format req.flags),
      length-add_option user 66 (codes "job-name") req.jobnm,
      length-add_option uri 66 (codes "requesting-user-name") req.usernm,
      length-add_option language 69 (codes "printer-uri") (printer_uri printer),
      length-add_option charset 72 (codes "attributes-natural-language") (codes "en-us"),
      length-add_option start 71 (codes "attributes-charset") (codes "utf-8"),
      length-printer_uri printer,
    )

-- For a user and a job with names that fit their fields with a null, and a printer with a name of at most 12
-- bytes, the header fits `ibuf` and the address of the printer fits `str`, whatever the number and the format.
pub ipp_header_fits :
    (printer : Bytes) (jobid : ℕ) (req : Req)
    → length printer ≤ 12
    → length req.usernm < 64
    → length req.jobnm < 256
    → (length (ipp_header printer jobid req) ≤ ibufsz) × (length (printer_uri printer) < strsz)
ipp_header_fits printer jobid req p u j = (
  omega (arith, length-ipp_header printer jobid req, format-at_most req.flags, p, u, j),
  omega (arith, length-printer_uri printer, p),
)

-- A header that is made is the text of `ipp_header`, and fits.
record Made (printer : Bytes) (jobid : ℕ) (req : Req) (ibuf : Bytes) : Type 0 where
  whole : ipp_header printer jobid req ≡ ibuf
  fits : length (ipp_header printer jobid req) ≤ ibufsz
  uri_fits : length (printer_uri printer) < strsz
