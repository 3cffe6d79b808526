-- ===== src/Tests/Ftw.antt =====
-- The walk of file/ftw4.c through a directory of three files.
use apue_2e.Base.{arith, ◌≡◌}
use apue_2e.Base.{take, length, pos}
use apue_2e.CText.{codes}
use apue_2e.Ftw.{
  Tree, leaf, dir, unreadable, end, name, regular, fifo, myftw, Walked, walked, Counts, myfunc,
}
use apue_2e.Ftw.Visits.{longest, myftw-run}
use apue_2e.Ftw.Free.{is_hidden, visits, run}
use apue_2e.Ftw.Counted.{grown, number, myftw-grown}

-- `.`, a file, and a directory with a fifo and a directory that cannot be opened.
abbrev tree : Tree
tree = dir (
    name (codes ".") unreadable (
      name (codes "a") (leaf regular) (
        name (codes "d") (dir (name (codes "f") (leaf fifo) (name (codes "x") unreadable end)))
          end)))

abbrev none_yet : Counts
none_yet = record { nreg = 0; ndir = 0; nblk = 0; nchr = 0; nfifo = 0; nslink = 0; nsock = 0 }

myftw-run_example :
    (w : Walked Counts) × (myftw myfunc 7 tree (codes "t") none_yet ≡ walked w)
    × ((w.ret, w.state) ≡ run myfunc (visits tree (codes "t")) none_yet)
    × (take (length (codes "t")) w.path ≡ codes "t")
unfolding longest is_hidden
myftw-run_example = myftw-run myfunc 7 tree (codes "t") none_yet (omega arith)

myftw-grown_example :
    (w : Walked Counts) × (myftw myfunc 7 tree (codes "t") none_yet ≡ walked w)
    × (w.ret ≡ pos 0)
    × (w.state ≡ grown none_yet (λ p. number p tree))
unfolding longest is_hidden
myftw-grown_example = myftw-grown 7 tree (codes "t") none_yet (omega arith)
