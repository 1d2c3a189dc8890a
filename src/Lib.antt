-- ===== src/Lib.antt =====
-- ninit: a model of pid 1's supervisor, with the theorems that make it correct.
--
-- ninit boots from a dependency graph that ninitctl has compiled into one image. The supervisor
-- verifies the image, starts the services without prerequisites, and from then on reacts to exits,
-- readiness reports, timeouts, restart times and the commands of clients. A service that comes up
-- is released: the unmet counts of its dependents fall, and those that wait for nothing more are
-- started, or come up at once where they are targets. A service that goes down takes this back,
-- and one that fails for good marks all that waits for it as skipped.
--
-- The files and the code that they model:
--   Graph: the records of the image and their accessors (src/ngraph.h). IsWellFormed is what the
--     supervisor relies on.
--   Verify: ng_verify (src/ngraph.c), check by check, and the graph that the accessors read. What
--     the checks on strings and the checksum find is a part of the image.
--   Supervisor/Core: states, flags, unmet counts, counters and the release queue, with the
--     functions of src/state.c and src/fail.c that only touch these.
--   Supervisor/Sys: struct run, the shared variables of src/ninit.c and the kernel.
--   Supervisor/Live, Output, Drain: the live list (src/pidmap.c), absorb, drain_out and the
--     helpers of src/drain.c.
--     Output/Lines has the reading byte by byte that absorb is compared with.
--   Supervisor/Start, Release, Exit, Notify, Ops, Boot, Steps: launch, spawn and service_failed
--     (src/spawn.c, src/reap.c), complete (src/state.c), child_exited and fire_restart
--     (src/reap.c), drain_notify and drain_exec (src/drain.c), check_timeouts (src/signals.c), the
--     operations of src/command.c, start_graph and the main loop (src/ninit.c).
--   Supervisor/Invariant and Supervisor/Keeps: the invariant, and that every operation keeps it.
--   Pids: the table of pids (src/pidmap.c), with what a search finds (Pids/Find), the two changes
--     (Pids/Put, Gap, Del), the map that it stands for (Pids/Refines) and its size (Pids/Size).
--     Supervisor/Lookup has find_pid.
--   Schedule: the order in which ninitctl numbers the services (ctl/graph.c), with its heap
--     (Schedule/Heap), the loop (Schedule/Steps), the order (Schedule/Whole) and the edges by it
--     (Schedule/Forward); the arrays that link_graph makes of the edges (Schedule/Link), its search
--     for a cycle (Schedule/Visit), and both with order_graph (Schedule/Numbered). The order is kept
--     as a list with the last service first, path and iter as a list with the top frame first, and
--     qsort() of the edges is left out.
--   Names: the lookup of services by name (ctl/graph.c), with strcmp as a parameter.
--   Argv: a direct argv in the string table: direct_problem (src/ngraph.c), the loop of child_exec
--     that reads it (src/spawn.c) and what write_image writes (ctl/image.c), with the strings
--     (Argv/Strings), the bound (Argv/Bounded) and the round trip (Argv/Decoded).
--   Text: unescape_mount (src/shutdown.c) and put_num (src/spawn.c), with what writes and reads the
--     same text (Text/Unescape, Text/Digits). Supervisor/Due has live_due (src/ninit.c) and the
--     helpers of help/time.h.
--   Shell: the emergency shell of src/fail.c, that its counters are bounded (Shell/Bounded), that
--     giving up is final (Shell/Over) and comes (Shell/GivesUp).
--   Logging: the ring of src/logging.c, with its cells (Logging/Cells), the text of lines that it
--     stands for (Logging/Lines, Eol, Text) and log_line (Logging/Readers); the console (Logging/Console,
--     Whole, Shown); the repetitions of ninit_log and log_tick (Logging/Repeat), with the lines that the
--     log stands for (Repeat/Marks, Again, Folded, Kept, Logged, Calls).
--   Stop: build_prereqs and stop_ordered (src/stop.c), with what the prerequisite lists are
--     (Stop/Transpose) and the order of the stop (Stop/Order, Rounds, Whole).
--   Examples: a small image, runs of it, and the theorems at them.
--
-- The model. An array is a function of its index. The 8-bit, 16-bit and 32-bit counters that the
-- code changes in place wrap as in the code. Times are milliseconds, a pid of 0 is none, a
-- descriptor is open or closed. The kernel (World, and Console for the emergency shell) gives an
-- arbitrary answer to each question, by the number of the question: the clock, read(), the system
-- calls of launch(), the cgroup files. A read is taken to give no more bytes than were asked for.
-- The main loop is a list of events, each the turn of one service of the graph or the top of the
-- loop, in any order, so the loops over the live list are covered in every order of their bodies.
-- The reap event names the service that find_pid finds. The rounds of an ordered stop and what
-- happens to the emergency shell are lists as well. The console of the log answers write(2) by a
-- list, and takes nothing more after it while the batch lasts. The texts that snprintf makes are
-- parameters (Printer). What the log says is kept as a list next to the bytes that it writes.
--
-- Bounds. reclaim_loop has n_svc rounds: each takes one service off the queue, and a service is
-- queued once. release_loop has (n_svc + 2) squared rounds: each round takes a service off the
-- queue, a release queues one that was not released, and only a start of a service that was
-- pending can take releases back. drain_exec bounds the reads that a signal interrupts in a row;
-- the code has no such bound. A search of the pid table has as many rounds as there are slots,
-- and so has the closing of a gap: a free slot ends both. table_size doubles 64 at most ten
-- times, which 8192 services do not exceed. put_num has 11 rounds, and a number of 32 bits has at
-- most 10 digits. direct_args has as many rounds as the text has bytes, and each round takes at
-- least one byte. lookup() has as many rounds as there are names, and each round leaves fewer.
-- The loop of schedule() has a round for each service; sift_up and sift_down have as many rounds
-- as the heap has cells, and each round goes at least one level of the heap up or down. visit()
-- has a round for each edge and each service, which takes an edge or ends a service, and one for
-- the last look at the empty stack; with fewer it would give out_of_rounds. ring_eol has a round
-- for each byte of the ring, and each round passes one at least; make_room has a round for each
-- byte that the ring holds. The array queue of src/state.c has n_svc cells, and its model is a list
-- without a bound. A height is taken not to reach 2^32, the positions of the ring not to reach
-- 2^64, and the lines logged not to reach 2^32.
--
-- Not modelled: which lines the parts log (but those of services), the opening of the console and
-- the callback of ring_put, log_raw, print_welcome, the console of the emergency shell, the control
-- socket and its text, unmounting and power off, cgroup files, and of ninitctl all but the lookup
-- of names, link_graph from the edges on, order_graph, and the direct argv in the image. Nor is
-- memory that runs out, where ng_verify refuses the image and build_prereqs makes no lists.
-- build_prereqs takes the last offset of the reverse edges where src/stop.c takes n_edges;
-- ng_verify of src/ngraph.c checks that both are equal.
pub mod Logging
pub mod Prelude
pub mod Graph
pub mod Verify
pub mod Supervisor
pub mod Stop
pub mod Pids
pub mod Shell
pub mod Schedule
pub mod Text
pub mod Argv
pub mod Names
pub mod Examples
