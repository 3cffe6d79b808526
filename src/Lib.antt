-- ===== src/Lib.antt =====
-- Programs and library functions of Advanced Programming in the UNIX Environment, 2nd edition: the ones
-- that keep data of their own. Paths are from the root of the repository.
--
-- db/db.c is a database library over two files. The index file begins with a free list pointer and a hash
-- table of 137 pointers, each six decimal digits wide; behind them stand index records, each with the
-- pointer to the next record of its chain, its length, its key, and the place of its data in the data
-- file. Db/State is the struct DB with the bytes of both files, the position of the index file and the
-- locks taken so far (`Cmd` passes that state and stops on err_dump and err_quit). Db/Fields has _db_hash,
-- _db_readptr, _db_writeptr, _db_readdat and _db_writedat; Db/Index has _db_readidx and _db_writeidx;
-- Db/Chain has _db_find_and_lock, _db_dodelete and _db_findfree; Db/Calls has db_open, db_fetch,
-- db_delete, db_store, db_rewind and db_nextrec. Db/Layout says what the files hold without the code that
-- reads them, and is what the theorems on the calls speak of. Db/Whole is the database as a whole: the
-- free list and all chains, which share no byte (`Holds`), every key in the chain of its hash and no key
-- twice (`IsDb`), and the map from keys to data that they stand for (`Represents`). A walk along a chain
-- runs on fuel: one more than the length of the chain is enough, and a chain that loops stops as
-- `spinning`.
--
-- ipp/printd.c is a print spooler: Ipp/Jobs is its list of pending jobs and the job numbers, Ipp/Workers
-- its list of client threads, Ipp/Options the attributes that it writes into a request to the printer, and
-- Ipp/Status the function that reads the answer of the printer (printer_status with readmore). It runs on
-- fuel: more than the number of bytes in front of the length field is enough, and the loop that the code
-- cannot leave stops as `spins`. Ipp/Client has client_thread, which stores the file of a client and
-- queues its job, Ipp/Submit has submit_file of the print command in ipp/print.c, which sends that file,
-- and Ipp/Printer one round of printer_thread, which takes a job from the queue, sends it to the printer
-- and keeps or unlinks its files. The nodes are those of Dll, doubly linked cells at addresses, shared
-- with the queue of threads/rwlock.c in Threads/Rwlock. Threads/Refs has the counted objects of
-- threads/mutex2.c and threads/mutex3.c.
--
-- Opend is the open server: Opend/Pass has send_fd, send_err and recv_fd of lib/sendfd.c, lib/senderr.c
-- and lib/recvfd.c, Opend/Request has cli_args of opend.fe/cliargs.c, request of opend/request.c and the
-- request that csopen of open/open.c writes, and Opend/Clients the table of opend/client.c, whose search
-- is entered at most twice. Opend/Loop is one round of the server's loop over select(2), in
-- opend/loop.select.c, over the table and the requests; `Reaches` is the sequence of rounds. The loop over
-- poll(2) is not modelled.
--
-- Ftw is the directory walk of file/ftw4.c, with myftw, dopath and myfunc, over a tree that stands for the
-- directories. Threads/Getenv has the three versions of getenv of threadctl/getenv1.c, getenv2.c and
-- getenv3.c, over the list of the strings of the environment.
--
-- Reads has readn of lib/readn.c and tread and treadn of ipp/util.c, Tools/BufArgs has buf_args of
-- lib/bufargs.c, Tools/TtyModes has lib/ttymodes.c, Tools/Popen has popen and pclose of lib/popen.c, and
-- Tools/Timeout has timeout of threadctl/timeout.c. Files and CText have the byte ranges of a file and the
-- C text functions that the code calls: strchr, atol and the formats of sprintf. Base has what all share.
-- Tests has runs and instances at fixed inputs.
--
-- What is assumed and what is left out. A call of malloc, fork or open gives what it was asked for, or the
-- argument that stands for it says otherwise. A regular file takes every write whole, and a read of it is
-- short only at its end. A lock is granted when it is asked for, so that a function runs as if alone while
-- it holds its lock; what another thread does in between is an argument where a function gives up its lock
-- (foo_rele). Buffers are the C strings they hold: the length check of _db_writeidx, which comes after its
-- sprintf, and the overlap of source and destination of that sprintf in _db_dodelete are not seen. What a
-- socket carries and what a terminal does with settings are arguments. Signals, processes and the example
-- programs around single system calls are not modelled. Of ipp/printd.c, the start of the daemon, its
-- signals, its log and the file of the next job number are left out.
pub mod Base
pub mod Files
pub mod CText
pub mod Db
pub mod Dll
pub mod Ipp
pub mod Threads
pub mod Reads
pub mod Tools
pub mod Ftw
pub mod Opend
pub mod Tests
