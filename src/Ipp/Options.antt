-- ===== src/Ipp/Options.antt =====
-- ipp/printd.c: an attribute of an IPP header.
use apue_2e.Base.{
  ℕ, ◌+◌, ◌*◌, ◌/◌, ◌%◌, ◌<◌, ◌≡◌, ap, ◌∙◌, sym, leb, if◌then◌else◌, [], ◌∷◌, ◌++◌, append-nil,
  append_assoc, leb_le, length-append, Option, none, some, length, take, drop, take-append,
  drop-append, arith,
}
use apue_2e.Files.{Bytes}

-- The two bytes of `htons(n)` for an `int16_t`.
unfoldable pub be16 : ℕ → Bytes
be16 n = (n % 65536 / 256) ∷ (n % 256) ∷ []

-- `add_option`, behind what stands in the buffer.
unfoldable pub add_option : Bytes → ℕ → Bytes → Bytes → Bytes
add_option cp tag optname optval =
    cp ++ ((tag % 256) ∷ (be16 (length optname) ++ (optname ++ (be16 (length optval) ++ optval))))

-- A length of two bytes, high byte first, and so many bytes, as IPP writes a name or a value.
pub take_field : Bytes → Option (Bytes × Bytes)
take_field [] = none
take_field (a ∷ []) = none
take_field (a ∷ b ∷ s) =
    if leb (a * 256 + b) (length s) then some (take (a * 256 + b) s, drop (a * 256 + b) s) else none

-- An attribute as IPP defines it: a tag, a name and a value.
abbrev decode_value : ℕ → Bytes → Option (Bytes × Bytes) → Option (ℕ × Bytes × Bytes × Bytes)
decode_value tag name none = none
decode_value tag name (some (val, rest)) = some (tag, name, val, rest)

abbrev decode_name : ℕ → Option (Bytes × Bytes) → Option (ℕ × Bytes × Bytes × Bytes)
decode_name tag none = none
decode_name tag (some (name, s)) = decode_value tag name (take_field s)

pub take_option : Bytes → Option (ℕ × Bytes × Bytes × Bytes)
take_option [] = none
take_option (tag ∷ s) = decode_name tag (take_field s)

take_field-be16 :
    (s rest : Bytes)
    → length s < 65536
    → take_field (be16 (length s) ++ (s ++ rest)) ≡ some (s, rest)
unfolding take_field be16
take_field-be16 s rest h =
    let e : length s % 65536 / 256 * 256 + length s % 256 ≡ length s = omega arith in
    rw (e, leb_le (length s) (length (s ++ rest)) (omega (arith, length-append {0} s rest)))
      (rw (take-append s rest, drop-append s rest))

-- An attribute that `add_option` puts behind a buffer is read back by the IPP encoding: tag, name, value.
pub take_option-add_option :
    (cp : Bytes) (tag : ℕ) (optname optval : Bytes)
    → tag < 256
    → length optname < 65536
    → length optval < 65536
    → take_option (drop (length cp) (add_option cp tag optname optval))
      ≡ some (tag, optname, optval, [])
unfolding add_option take_option
take_option-add_option cp tag optname optval ht hn hv =
    let value = take_field-be16 optval [] hv in
    rw (drop-append) (
      rw (take_field-be16 optname (be16 (length optval) ++ optval) hn) (
        rw (ap (λ v. take_field (be16 (length optval) ++ v)) (sym (append-nil optval)) ∙ value)
          (ap (λ t. some (t, optname, optval, [])) (omega arith))))

-- The same with what follows the attribute.
pub take_option-add_option_rest :
    (tag : ℕ) (optname optval rest : Bytes)
    → tag < 256
    → length optname < 65536
    → length optval < 65536
    → take_option (add_option [] tag optname optval ++ rest) ≡ some (tag, optname, optval, rest)
unfolding add_option take_option be16
take_option-add_option_rest tag optname optval rest ht hn hv =
    let value = be16 (length optval) ++ optval in
    let value_rest = be16 (length optval) ++ (optval ++ rest) in
    let e : (optname ++ value) ++ rest ≡ optname ++ value_rest = append_assoc optname value rest in
    rw e (
      rw (take_field-be16 optname value_rest hn) (
        rw (take_field-be16 optval rest hv)
          (ap (λ t. some (t, optname, optval, rest)) (omega arith))))

pub length-add_option :
    (cp : Bytes) (tag : ℕ) (optname optval : Bytes)
    → length (add_option cp tag optname optval) ≡ length cp + (5 + length optname + length optval)
unfolding add_option be16
length-add_option cp tag optname optval =
    let value = length-append optname (be16 (length optval) ++ optval) in
    omega (
      arith,
      length-append cp
          ((tag % 256) ∷ (be16 (length optname) ++ (optname ++ (be16 (length optval) ++ optval)))),
      value,
    )
