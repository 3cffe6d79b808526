-- ===== src/CText.antt =====
-- C strings and the conversions of the C library that the sources call: `strchr`, `atol`, `isspace`,
-- `sprintf` of a decimal with a field width. Proofs are in CText/RoundTrip.antt.
pub mod RoundTrip
use Prim.Native.String.{String}
use Prim.Native.Char.{code}
use apue_2e.Base.{
  ℕ, zero, suc, ◌+◌, ◌-◌, ◌*◌, ◌/◌, ◌%◌, List, [], ◌∷◌, ◌++◌, Bool, ◌&&◌, ◌||◌, ltb, leb, ◌==◌,
  if◌then◌else◌, Option, none, some, ℤ, pos, negsuc, length, replicate,
}
use apue_2e.Files.{Bytes}

-- The bytes of a text constant.
abbrev pub codes : String → Bytes
codes String.[] = []
codes (String.◌∷◌ c s) = code c ∷ codes s

-- The C string at the start of a buffer: what stands before the first null byte.
unfoldable pub cstr : Bytes → Bytes
cstr [] = []
cstr (c ∷ s) = let rest = cstr s in if c == 0 then [] else c ∷ rest

-- `p = strchr(s, sep)` and `*p++ = 0`: the string cut at the first `sep`, `none` if there is none.
unfoldable pub cut_at : ℕ → Bytes → Option (Bytes × Bytes)
cut_at sep [] = none
cut_at sep (c ∷ s) =
    let rest = cut_at sep s in
    if c == sep then some ([], s) else elim rest [ none ↦ none | some (a, b) ↦ some (c ∷ a, b) ]

unfoldable pub is_space : ℕ → Bool
is_space c = (c == 32) || (leb 9 c && leb c 13)

unfoldable pub is_digit : ℕ → Bool
is_digit c = leb 48 c && leb c 57

unfoldable pub scan : ℕ → Bytes → ℕ
unfolding is_digit
scan n [] = n
scan n (c ∷ s) = let rest = scan (n * 10 + (c - 48)) s in if is_digit c then rest else n

unfoldable pub negate : ℕ → ℤ
negate zero = pos 0
negate (suc n) = negsuc n

-- `atol` with no bound on the result: blanks, a sign, and the digits up to another byte.
unfoldable pub atol : Bytes → ℤ
unfolding is_space scan negate
atol [] = pos 0
atol (c ∷ s) =
    let rest = atol s in
    if is_space c
    then rest
    else if c == b'-'
    then negate (scan 0 s)
    else if c == b'+'
    then pos (scan 0 s)
    else pos (scan 0 (c ∷ s))

-- `%ld` of a number that is not negative, on fuel above the number.
unfoldable pub dec : ℕ → ℕ → Bytes
dec zero n = []
dec (suc fuel) n =
    let front = dec fuel (n / 10) in if ltb n 10 then (48 + n) ∷ [] else front ++ (48 + n % 10) ∷ []

unfoldable pub decimal : ℕ → Bytes
unfolding dec
decimal n = dec (suc n) n

-- `%*ld` with the width `w`: blanks in front, and never cut.
unfoldable pub padded : ℕ → ℕ → Bytes
unfolding decimal
padded w n = replicate (w - length (decimal n)) b' ' ++ decimal n
