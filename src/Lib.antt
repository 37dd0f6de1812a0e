-- ===== src/Lib.antt =====
-- A verification library for the assignments of an operating systems course, all in C: a heap
-- allocator (mem-allocator), a C library (mini-libc), a parallel graph traversal (parallel-graph),
-- a shell and a web server. The programs do not call each other; each has a module tree of its own
-- on the shared modules Base and Ring.
--
-- Osmem models mem-allocator/src/osmem.c. A state holds the block headers as a function from
-- addresses, the payload bytes, `list_head`, `list_tail` and the kernel's state. Each C function
-- is the definition of the same name in snake case in Osmem/Code.antt, and for `os_realloc` in
-- Osmem/Realloc.antt (`checkPrealloc` is `check_prealloc`); the two identical tails of `os_malloc`
-- and `os_calloc` are `take_block`, `use_best` and `grow_heap`, and the branches of `os_realloc`
-- are `after_coalesce`, `move_block`, `shrink_block`, `merge_next` and `relocate`. A command ends
-- with a value, with a fault (an access to an address that the process does not own), with an exit
-- (`DIE`) or out of fuel. Sizes and addresses are `size_t` with their wrap-around
-- (Base/Word.antt). The kernel (`sbrk`, `mmap`, `munmap`, `getpagesize`, the set of owned
-- addresses) and the library's `memset` and `memcpy` are a record of parameters. A `memset` or
-- `memcpy` of bytes that the process does not own is a fault, and one that reaches into a header
-- leaves there what a parameter of the model says. Osmem/Blocks.antt and its children hold the
-- view of the heap as a list of blocks: merging, best fit, splitting, the places of the blocks in
-- memory. Osmem/Chain, Coalesce, Splice, BestFit, Clear, Take, Malloc, Free, Dangling, Overlap and
-- Resize relate the code to that view; Osmem/Heap.antt has the invariant. Osmem/Unix.antt says
-- what the allocator relies on of `sbrk` and `mmap`; Append, Extend, Preallocate, Mapping, Overrun
-- and Grow are about the functions that ask the kernel for memory, Obtained says what a call that
-- hands out a block has done, and Ready and Serve take the branches of `os_malloc` and `os_calloc`
-- together. `fuel` bounds each walk over the list: a list of n blocks needs n + 1 rounds, and the
-- first call adds a block.
--
-- CString models mini-libc/src/string/string.c over a byte memory: CString/Code.antt holds every
-- function, CString/Str.antt says what a string in memory is, and Copy, Compare, Search and Find
-- hold the theorems. A `char` is signed, and an `int` has 32 bits. `fuel` bounds a walk to the
-- NUL: a string of n bytes needs n + 1 rounds.
--
-- Graph models parallel-graph/src: Graph/Code.antt holds the graph of os_graph.h, the construction
-- of os_graph.c (`create_graph_from_data`) and the recursion of serial.c (`process_node`, whose
-- loop is `process_all`). An array is a function from its indices, and an access outside it is
-- `none`; `malloc` succeeds. Graph/Reach.antt defines the paths, Graph/Count.antt counts the nodes
-- not visited, Graph/Build.antt and Graph/Serial.antt hold the theorems. `fuel` bounds the depth
-- of the recursion, which is at most the number of nodes.
--
-- Pool models the worker threads of parallel-graph/src/os_threadpool.c with the `action` of
-- parallel.c. A state is the shared variables and, for each thread, where it stands; `advance` is
-- the stretch of a thread up to its next lock, which no other thread can disturb, and
-- `run_threads` runs the threads in the order of a schedule, a list of thread numbers. The start
-- is the moment when `process_node` has put the first task into the queue; a thread that waits may
-- go on at any time. Pool/Invariant.antt has the invariant, Pool/Steps, Marks and Scan prove it
-- for the steps, Pool/Run.antt for whole schedules; Pool/Result.antt draws the conclusions for a
-- run in which all threads have ended, and Pool/Measure.antt bounds the length of every run.
-- Pool/OsList.antt has the operations of os_list.h on the two fields of its nodes, and
-- Pool/Tasks.antt the tasks and the queue in memory; Pool/Queue, Destroy and Refine relate them to
-- the queue of the steps. The rings that they and mini-libc's lists of mappings are made of stand
-- in Ring.antt. Pool/Startup.antt has what the threads do before their loop, with the flag, the
-- condition variable and its mutex, as a relation `Transition`; a thread wakes only by a
-- broadcast. Pool/LostWakeup, Awake and Progress are about it. That one worker wakes before the
-- first task is in the queue is outside the model.
--
-- Shell models mini-shell/src/cmd.c, utils.c and main.c with the parse tree of
-- util/parser/parser.h (Shell/Syntax.antt). Code that calls the system is the tree of its calls
-- (Shell/Process.antt), each with what the process does with the reply; `fork` carries the child's
-- tree. Shell/Code.antt holds the words, the built-in commands and the redirections,
-- Shell/Run.antt the commands (`parse_simple`, `run_in_parallel`, `run_on_pipe`, `parse_command`),
-- Shell/Main.antt the lines. Shell/Kernel.antt runs a tree under a kernel, which is a record of
-- parameters; Shell/Refine, Operators and Meaning relate `parse_command` to what a command tree
-- means, Shell/Tidy and Descriptors say which descriptors a process holds, Shell/Words and Line
-- are about the texts. The generated `parse_line` is a parameter. Messages, the prompt and the
-- freeing of strings are left out, and `malloc` succeeds; `level` and `father` are not used by the
-- code. A loop of the shell is a structural recursion, over the lines that `read_line` returns.
--
-- Mm models mini-libc/src/mm and mini-libc/src/crt/__libc_start_main.c. A state holds the four
-- fields of `struct mem_list` as functions of an address, the bytes, `errno` and the kernel's
-- state (Mm/State.antt); Mm/Code.antt has the functions of mmap.c, mem_list.c and malloc.c under
-- their names, with the system calls as parameters, and an access through NULL is a fault. Ring
-- and Ring/Splice are about the pointers of the circular list, Mm/Find, Update and Holds about the
-- operations, Mm/Mappings about the list as addresses and lengths, Mm/Malloc and Cleanup about
-- `malloc`, `free` and the start-up. `fuel` bounds each walk round the list: n items need n + 1
-- rounds.
--
-- Sys models the other functions of mini-libc/src: Sys/Code.antt has those of io, stat, process
-- and stdio over one parameter for the system call. Sys/Wrappers and Puts hold the theorems.
-- `fuel` bounds the two loops of `puts`: a string of n bytes needs n + 1 rounds of each.
--
-- Aws models async-web-server/src/aws.c on one connection. Aws/State.antt holds `struct
-- connection`, whether its memory is still allocated, the bytes that its socket took, and the
-- kernel, whose calls are parameters with BUFSIZ and `http_parser_execute`; an access to a freed
-- connection, or a path that does not fit its buffer, is a fault. Aws/Buffer.antt has the buffers
-- as lists of bytes, Aws/Code.antt the functions of the socket, Aws/Files.antt those from
-- `connection_open_file` to `send_file`, with the asynchronous reads, and Aws/Handlers.antt
-- `handle_input`, `handle_output`, `handle_client` and `handle_new_connection`; the bytes of an
-- asynchronous read come with its event. Aws/Send, Receive, NotFound and Reply hold the theorems.
-- `fuel` bounds the loops on a socket, each round of which moves a byte at least, and `rounds` the
-- loop of `handle_input`.
--
-- Not modelled: the printf library beside the allocator, the HTTP parser and the log library,
-- which are copies of other projects; the freeing of the graph's nodes; the reading and printing
-- of a graph; the shell's generated parser; the web server's loop over the events of many
-- connections, and the setting up of its listening socket; samples and tests. Of `os_realloc`
-- there are theorems on some of its branches; `calloc` and `realloc` of mini-libc are modelled,
-- with no theorem about them. The theorems on `os_malloc` suppose that the kernel grants what they
-- say; a failing `sbrk` or `mmap` ends in the code's `DIE` or in a fault, of which there is no
-- theorem.
pub mod Base
pub mod Aws
pub mod CString
pub mod Graph
pub mod Mm
pub mod Osmem
pub mod Pool
pub mod Ring
pub mod Shell
pub mod Sys
