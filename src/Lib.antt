-- ===== src/Lib.antt =====
-- The C programs of the repository's operating systems exercises (SysOpy): each is a program or two
-- with state of its own, and they share no code. This library models the ones with the most logic.
--
-- - Prelude: names of the standard library, tests, list lemmas, and integers over the native
--   numbers. A step that is undefined in C (a read outside an array, through a null or a freed
--   pointer) is `none` of an Option, and `>>=` passes it on.
-- - CString: `strcmp`, `strtok` and `atoi` over lists of bytes, for the programs that parse text;
--   CString/Decimal has what `printf` writes for `%d`, CString/Reading `fgets`, and CString/Words
--   splits a text by the loop over `strtok`, on as much fuel as the text has bytes and one more, as
--   each round takes a byte.
-- - Buffer: SysOpy/lab9/src/zad1/main.c. `add_to_buffer` and `remove_from_buffer` are addToBuffer and
--   removeFromBuffer, one step each, as the mutex covers their bodies; Buffer/Threads interleaves any
--   number of producers and consumers, with the waits on the condition variables and spurious
--   wake-ups; Buffer/Ring and Buffer/History hold the invariant, Buffer/Progress its consequences.
-- - SemBuffer: SysOpy/lab9/src/zad2/main.c, the same program with counting semaphores; SemBuffer/Same
--   relates its calls to those of Buffer, whose invariant it takes over.
-- - Records: SysOpy/lab2/src/zad1/zad1.c. `sort` and `copy` over a file that is a list of bytes;
--   Records/Program has the commands of `parse`, over files by their names. The
--   loop of `copy` runs on fuel, one more than the bytes of the source, as every round but the last
--   takes at least one of them.
-- - Barber: SysOpy/lab7/src/zad1, barber.c and client.c. One round of each loop is a function on the
--   shared record and the message queue; Barber/System interleaves the rounds of all processes;
--   Barber/Semaphore models the semaphore that orders them, as each of the two programs starts it.
-- - PosixBarber: SysOpy/lab7/src/zad2, the same loops over POSIX objects, a round as one step.
-- - Queues: SysOpy/lab6/src/zad1/server.c. `handle` is the switch of `receive`, over the messages that
--   `msgrcv` delivers; replies are collected in the state. Queues/Commands
--   has the client, SysOpy/lab6/src/zad1/client.c: what it sends for a line.
-- - PosixQueues: SysOpy/lab6/src/zad2, server.c and client.c: the same requests as texts with fields;
--   PosixQueues/Session is a client's whole run.
-- - Blocks: SysOpy/lab1/src/zad1/blocklibrary.c, the arrays of blocks with their heap.
-- - Cluster: SysOpy/lab10/src/zad1, server.c (the table of nodes, `monitor`, `ping`, `calc`) and
--   client.c (a node). What sockets deliver, and which of them still take a message, are arguments;
--   Cluster/Session runs the server and the nodes together.
-- - Datagrams: SysOpy/lab10/src/zad2, the cluster over datagrams. `on_datagram` is a round of
--   `monitor`, `node_receive` one of the node's loop, Datagrams/Ping the thread that is not started.
-- - Signals: SysOpy/lab4/src/zad2/zad2.c, the parent that counts and grants requests; Signals/Options has
--   `countEnumValue` and `parse`, Signals/System interleaves the parent with its children.
-- - Counters: SysOpy/lab4/src/zad3/zad3.c, a parent and a child that answer each other's signals.
--   `step` is a statement of the parent or a run of `signalHandling` in either process, `run` any
--   sequence of them.
-- - DirSearch: SysOpy/lab2/src/zad2/zad2.c and SysOpy/lab3/src/zad1/zad1.c, the search for files by
--   their dates. `dir_info_stat`, `dir_info_nftw` and `dir_info_vfork` are the three walks of a tree.
-- - Runner: SysOpy/lab3/src/zad2/zad2.c and SysOpy/lab3/src/zad3a/zad3a.c. `read_lines` and
--   `report_lines` are the loops of the two readAndExecute, on fuel for the bytes of the file and one
--   more; what the programs do that are run is an argument.
-- - Pipeline: SysOpy/lab5/src/zad1/zad1.c. `pipeline` splits a line, `child_fds` is what a child has
--   open; Pipeline/Filters lets the processes of a line run.
-- - Fifo: SysOpy/lab5/src/zad2, master.c and slave.c, by the blocks that are in the FIFO each time that it is
--   open.
-- - Tester: SysOpy/lab1/src/zad2/tester.c and SysOpy/lab1/src/zad3a/tester_dynamic.c, clients of
--   Blocks. `main` and `main_loaded` are their dynamic modes, Tester/Static has the static one;
--   Tester/Memory follows the blocks that the array owns.
-- - Toggle: SysOpy/lab4/src/zad1/zad1.c, a parent that stops and starts a script; the handler of SIGTSTP
--   is taken in steps, as SIGINT may come between them.
-- - Filter: SysOpy/lab8/src/zad1/main.c. `cells` are the pixels of a thread of `calculate`, `step` its
--   next action, `run` any order of the threads' steps, `all_finished` the test of the wait in
--   `doSomeWork`. Filter/Image reads and writes the files, its loop over the lines on fuel for the bytes
--   that are left and one more; Filter/Main is `main`.
--
-- Numbers are natural numbers or unbounded integers; an `int` that the sizes or the input can
-- take out of its range is `none` (`products_fit`, `fits_int`, `max_block_size`), as is a text
-- that its buffer does not hold (`result_text`, `prepare_message`), and elsewhere the comments
-- say where the C code keeps below an `int`. Not modelled are the formatting and time stamps of
-- what is printed, the creation and removal of IPC objects, the arguments of most programs, and
-- the exercises in other languages.
pub mod Prelude
pub mod Barber
pub mod Blocks
pub mod Buffer
pub mod CString
pub mod Cluster
pub mod Counters
pub mod Datagrams
pub mod DirSearch
pub mod Fifo
pub mod Filter
pub mod Pipeline
pub mod PosixBarber
pub mod PosixQueues
pub mod Queues
pub mod Records
pub mod Runner
pub mod SemBuffer
pub mod Signals
pub mod Tester
pub mod Toggle
