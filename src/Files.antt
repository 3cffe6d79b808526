-- ===== src/Files.antt =====
-- A regular file as its bytes: what read(2), write(2) and lseek(2) at a known offset do to it.
-- Proofs about reads behind writes are in Files/Frame.antt.
pub mod Frame
pub mod Commute
use apue_2e.Base.{ℕ, zero, suc, List, [], ◌∷◌, take, drop}

abbrev pub Bytes : Type 0
Bytes = List ℕ

-- `lseek(fd, off, SEEK_SET); read(fd, buf, n)`: short at the end of the file.
unfoldable pub read_at : Bytes → ℕ → ℕ → Bytes
read_at f off n = take n (drop off f)

-- `lseek(fd, off, SEEK_SET); write(fd, bs, length bs)`: a gap behind the end is filled with zeros.
unfoldable pub write_at : Bytes → ℕ → Bytes → Bytes
write_at [] zero bs = bs
write_at (x ∷ f) zero [] = x ∷ f
write_at (x ∷ f) zero (b ∷ bs) = b ∷ write_at f zero bs
write_at [] (suc off) bs = 0 ∷ write_at [] off bs
write_at (x ∷ f) (suc off) bs = x ∷ write_at f off bs
