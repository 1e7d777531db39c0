-- ===== src/Lib.antt =====
-- Functions of the library and the programs of Advanced Programming in the UNIX Environment, 3rd
-- edition (apue.3e/): the database library, memory streams, the print spooler, the open server,
-- terminal modes, whole transfers, pipes to commands, job queues and reference counts shared by
-- threads, semaphores, an argument splitter, and two solutions of its exercises.
--
-- The parts, the files that model them and how they correspond to the code:
-- * Db (apue.3e/db/db.c, apue_db.h). State.antt has the constants, the DB structure as the record
--   Db with the contents of the two files, the locks that the process holds and the offset of the
--   index file's descriptor, and the monad M: a call gives a value and a new Db, or the message
--   with which the process ends. Io.antt has the functions that read and write records (_db_hash,
--   _db_readptr, _db_readidx, _db_readdat, _db_writedat, _db_writeidx, _db_writeptr), Calls.antt
--   and Open.antt the others, from _db_find_and_lock to db_open; a model drops the leading
--   underscore. Layout.antt says what stands in the files, Chain.antt what a chain of records is,
--   Image.antt and Image/ what both files hold, as a heap of records, and Whole.antt what a whole
--   database is and the map from keys to data that it stands for. Io/, Find.antt, Append.antt,
--   Insert.antt, Empty.antt and Whole/ have the proofs.
-- * Memstream (apue.3e/exercises/fmemopen.c). struct memstream is the record Stream, with the buffer
--   as the bytes that the caller owns. An access outside the buffer is a value, out_of_bounds.
-- * Printer/Jobs and Printer/Workers (apue.3e/printer/printd.c): the job list, the job numbers and the
--   list of worker threads, on the linked lists of Dll. A function is what it does while it holds its
--   lock.
-- * Opend (apue.3e/ipc2/opend/client.c, loop.poll.c, request.c, cliargs.c): the client table, the loop
--   over the polled descriptors, and in Opend/Requests what is done with a request; open, strerror and
--   send_fd are parameters.
-- * Tty (apue.3e/lib/ttymodes.c), Transfer (apue.3e/lib/readn.c, writen.c, and tread and treadn of
--   apue.3e/printer/util.c): the system calls are parameters on a world W, and what a theorem needs of
--   them is a named hypothesis (Obeys, Bounded, Flows).
-- * Popen (apue.3e/lib/popen.c) and Dup2 (Chapter03/my_dup2.c): the results of the system calls are
--   arguments or parameters.
-- * Threads (apue.3e/threads/rwlock.c, Chapter11/exercise_3.c): the job queue that threads share, on
--   the lists of Printer/Jobs, and in Threads/Wait the threads that wait for jobs, whose steps may come
--   in any order. pthread_equal is a parameter.
-- * Args (apue.3e/lib/bufargs.c): buf_args on the bytes of its buffer, with strtok as C defines it.
-- * Semaph (apue.3e/lib/semaph.c): sem_create, sem_open, sem_close, sem_rm, sem_op, sem_wait and
--   sem_signal by processes whose system calls come in any order. A process stands at a call; request
--   is the call and resume the code that follows it. Semaph/Kernel is the interface to semget, semop
--   and semctl, with the laws that they document; Semaph/Run has the steps.
-- * Refs (apue.3e/threads/mutex2.c, mutex3.c): objects with a reference count in a hash table. foo_rele
--   of mutex2.c is two steps, rele_first and rele_last, between which it holds no lock; Refs/Run has
--   the references that threads hold and their steps.
-- * Prelude, Text, File: lists, the C library's numbers and strings, and the bytes of a file.
--
-- The parts interact as the code's do: Printer/Jobs prints and reads its job number with Text, Opend
-- splits a request with Args, and Db prints and reads its records with Text and keeps them in the
-- files of File.
--
-- Bounds and fuel. A loop over a chain in the index file may run for ever on a damaged file; it
-- takes fuel, and on a chain of n records n + 1 rounds are enough; so they are on the free list.
-- readn and writen take n rounds for n bytes, since every round but the last transfers one; the
-- walk over the workers takes as many rounds as there are workers, and job_find one more than
-- there are jobs; foo_find and foo_rele take one round more than their bucket has objects.
-- Offsets and lengths in a file are natural numbers, and a transfer is of no more bytes than an
-- ssize_t holds; the hash and a size_t wrap at 2^64, a job number at 2^31, an int at 2^32 where a
-- value is converted to it (the offset of a seek, atoi, nextjob, a uid that is printed, the size of
-- the stack of my_dup2) and the amount of sem_op at 2^16; f_count is no greater than the number of
-- references, and does not wrap in the model.
--
-- Not modelled: db_close, _db_free, mstream_close and tty_termios, which release memory or return an
-- address; the failure of system calls on open files in db.c, which ends the process; the overlap of
-- the sprintf by which _db_dodelete prints idxbuf onto itself, which has the text of a copy; the read
-- in front of the buffer by handle_request of no bytes, which the loop never passes on; the network
-- exchange of the print spooler; sets of other keys in semaph.c, whose identifiers a set of the key
-- never had; the programs that only show a system call.
pub mod Prelude
pub mod Text
pub mod File
pub mod Db
pub mod Memstream
pub mod Dll
pub mod Printer
pub mod Tty
pub mod Transfer
pub mod Opend
pub mod Popen
pub mod Dup2
pub mod Threads
pub mod Args
pub mod Semaph
pub mod Refs
