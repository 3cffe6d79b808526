-- ===== src/Ftw.antt =====
-- file/ftw4.c: the descent of a directory tree. What lstat(2), opendir(3) and readdir(3) report is a tree
-- that does not change during the walk. The path is the string in the buffer `fullpath`, whose size
-- the source does not test: a string that does not fit with its null is a write behind it.
pub mod Free
pub mod Visits
pub mod Counted
use apue_2e.Base.{
  ℕ, zero, suc, ◌+◌, ◌-◌, ◌==◌, ltb, Bool, true, false, ◌||◌, if◌then◌else◌, List, [], ◌∷◌, ◌++◌,
  length, take, ℤ, pos, negsuc, str_eq, replicate,
}
use apue_2e.Files.{Bytes}
use apue_2e.CText.{codes}

-- `st_mode & S_IFMT` of what is not a directory; `unknown` is none of the constants.
pub data Kind : Type 0 where
  regular block char_special fifo symlink socket unknown : Kind

-- What stands behind a name: lstat fails, no directory, a directory that opendir cannot open, or one with
-- the names that readdir returns, dot and dot-dot among them.
mutual
  pub data Tree : Type 0 where
    no_stat : Tree
    leaf : Kind → Tree
    unreadable : Tree
    dir : Names → Tree

  pub data Names : Type 0 where
    end : Names
    name : Bytes → Tree → Names → Names

-- The type argument of `func`, with the kind that is in `statbuf`.
pub data TypeOf : Type 0 where
  ftw_f : Kind → TypeOf
  ftw_d ftw_dnr ftw_ns : TypeOf

-- What `func` does to a state of its own, and what it returns.
abbrev pub Func : Type 0 → Type 0
Func S = Bytes → TypeOf → S → ℤ × S

unfoldable pub is_zero : ℤ → Bool
is_zero (pos zero) = true
is_zero (pos (suc n)) = false
is_zero (negsuc n) = false

abbrev pub slash : ℕ
slash = b'/'

-- `strcmp(dirp->d_name, ".") == 0 || strcmp(dirp->d_name, "..") == 0`
unfoldable pub is_dots : Bytes → Bool
is_dots n = str_eq n (codes ".") || str_eq n (codes "..")

-- The value returned, the string left in `fullpath`, and the state of `func`.
pub record Walked (S : Type 0) : Type 0 where
  pub ret : ℤ
  pub path : Bytes
  pub state : S

-- What `func` returned for a file, the path as it is
unfoldable pub visited : {S : Type 0} → Bytes → ℤ × S → Walked S
visited path (ret, state) = record { ret = ret; path = path; state = state }

-- The walk ends, or writes behind `fullpath`.
pub data Walk (S : Type 0) : Type 0 where
  walked : Walked S → Walk S
  overrun : Walk S

-- `ptr[-1] = 0`
unfoldable pub restored : {S : Type 0} → ℕ → Walk S → Walk S
restored n overrun = overrun
restored n (walked w) = walked (record w { path = take n w.path })

-- `len` is the size of the buffer: a string of `len` bytes has no room for its null.
module _ {S : Type 0} (func : Func S) (len : ℕ) where
  unfoldable mutual
    -- `dopath` on the string in `fullpath`
    pub dopath : Tree → Bytes → S → Walk S
    dopath no_stat path s = walked (visited path (func path ftw_ns s))
    dopath (leaf k) path s = walked (visited path (func path (ftw_f k) s))
    dopath unreadable path s =
        let (ret, t) = func path ftw_d s in
        let last = walked (visited (path ++ slash ∷ []) (func (path ++ slash ∷ []) ftw_dnr t)) in
        if is_zero ret
        then (if ltb (length path + 1) len then last else overrun)
        else walked (visited path (ret, t))
    dopath (dir es) path s =
        let (ret, t) = func path ftw_d s in
        let w =
          entries es (length path + 1)
            (record { ret = ret; path = path ++ slash ∷ []; state = t }) in
        if is_zero ret
        then (if ltb (length path + 1) len then restored (length path) w else overrun)
        else walked (visited path (ret, t))

    -- The loop over readdir: `ptr` is the offset behind the slash.
    entries : Names → ℕ → Walked S → Walk S
    entries end ptr w = walked w
    entries (name n child es) ptr w =
        let path = take ptr w.path ++ n in
        let skip = entries es ptr w in
        let below : Walk S = elim (dopath child path w.state) [
          | overrun ↦ overrun
          | walked v ↦ if is_zero v.ret then entries es ptr v else walked v
        ] in
        if is_dots n then skip else if ltb (length path) len then below else overrun

  -- `myftw`: `len` is the size of the buffer that `path_alloc` gives.
  unfoldable pub myftw : Tree → Bytes → S → Walk S
  unfolding dopath
  myftw tree pathname s = if len == 0 then overrun else dopath tree (take (len - 1) pathname) s

-- The counters of the program.
pub record Counts : Type 0 where
  pub nreg : ℕ
  pub ndir : ℕ
  pub nblk : ℕ
  pub nchr : ℕ
  pub nfifo : ℕ
  pub nslink : ℕ
  pub nsock : ℕ

-- `myfunc`
unfoldable pub myfunc : Func Counts
myfunc path ftw_d c = (pos 0, record c { ndir = c.ndir + 1 })
myfunc path ftw_dnr c = (pos 0, c)
myfunc path ftw_ns c = (pos 0, c)
myfunc path (ftw_f regular) c = (pos 0, record c { nreg = c.nreg + 1 })
myfunc path (ftw_f block) c = (pos 0, record c { nblk = c.nblk + 1 })
myfunc path (ftw_f char_special) c = (pos 0, record c { nchr = c.nchr + 1 })
myfunc path (ftw_f fifo) c = (pos 0, record c { nfifo = c.nfifo + 1 })
myfunc path (ftw_f symlink) c = (pos 0, record c { nslink = c.nslink + 1 })
myfunc path (ftw_f socket) c = (pos 0, record c { nsock = c.nsock + 1 })
myfunc path (ftw_f unknown) c = (pos 0, c)
