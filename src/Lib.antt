-- ===== src/Lib.antt =====
-- mysh, a Unix shell (src/*.c): its parser, here-documents, expansion of words, history, job table,
-- built-ins, pipelines of processes, signals and the loop that runs them.
--
-- One round of the shell (src/main.c) reports finished jobs, reads a line, records it in the
-- history, parses it to a pipeline of commands, expands the words of each command, and runs it, in
-- the shell itself or in forked children; the job table is also written by the SIGCHLD handler.
-- The modules model the parts of that round, one file tree each:
--
--   Base                 lists over the native numbers, C's `int` as a signed integer, and the
--                        Boolean tests
--   Cstring              the C library's functions on strings: a string is the list of its bytes
--                        before the NUL. strtok_r, isspace, atoi and the conversions of printf are
--                        written out, as the C standard and POSIX have them
--   Parser               src/parser.c, src/parser.h: parse_command and parse_pipeline, with the same
--                        names. A pointer into the line is the string it points at. The `while`
--                        loops are parse_loop and segment_loop; -1 is `syntax_error` with the message
--   Parser.Buffer        src/parser.c: the same loops on the line's bytes in memory, where strtok_r
--                        writes its NULs (Cstring.Memory, as POSIX has it) and the commands hold
--                        addresses; the functions have _at behind the name
--   Parser.Grammar       what a segment means, and in Parser.Language what a line means, said without
--                        the loops; Parser.Printer writes a command
--   Expand               src/expand.c: expand_variables with its growing buffer, expand_word and
--                        expand_pipeline. malloc, realloc, getenv and glob are the record
--                        System; any call of realloc may fail, also where a later one succeeds
--   Expand.Memory        src/expand.c: the same on a heap, each string in its block, with
--                        free_expansions
--   History              src/history.c, src/history.h: all functions. strdup is a parameter
--   Jobs                 src/jobs.c, src/jobs.h: all functions. A job_t pointer is the index of its
--                        slot; jobs_mark_done is the call that the SIGCHLD handler makes
--   Jobs.Directory       the job table without its slots: a map from ids to jobs, and its acts
--   Heredoc              src/heredoc.c: all functions, over the lines of stdin (bytes before a NUL).
--                        mkstemp and write are the record Files; a descriptor's offset is at the
--                        start of its file, since lseek puts it there
--   Executor             src/executor.c: format_pipeline_label, status_to_code and
--                        wait_foreground_group, on the list of what waitpid reports of the group
--   Process              what the kernel keeps for a process: descriptors, dispositions, the mask;
--                        dup2, close and exec as POSIX has them
--   Spawn                src/executor.c: spawn_pipeline, on the shell's descriptor table. pipe and
--                        fork are the record Kernel. Each child is a value, with the table that it
--                        has where it calls exec_child
--   Spawn.Exec           src/executor.c: apply_redirection, reset_child_signals and exec_child, which
--                        ends in an exit or in the image of a program. open and execvp are the
--                        record Loader
--   Spawn.Execute        src/executor.c: execute_pipeline, in the foreground and the background
--   Builtins             src/builtins.c, src/shell.h: all built-ins and run_builtin. The calls of the
--                        system are the record Process, on a state of its own; what is written is a
--                        log in order. Blocking SIGCHLD is what makes the table the shell's alone
--   Signals              src/signals.c: the SIGCHLD handler, on the list of what waitpid reports
--   Signals.Install      src/signals.c: install_signal_handlers, block_sigchld, unblock_sigchld
--   Signals.Interleaving the shell, its handler and its children as steps in any order, the shell's
--                        guarded by the mask as execute_pipeline, main and signals.c guard them.
--                        fg and bg are not among these steps, but in Signals.Resumed
--   Signals.Resumed      src/builtins.c: fg and bg as further steps, and the runs in which no leader of
--                        a stopped job ends
--   Repl                 src/main.c: main, its loop and one round of it. All records of the system
--                        together are the record Os
--
-- Bounds and fuel. The arrays' capacities are those of the source: 64 arguments, 16 commands, 64
-- jobs, 256 bytes of a label, 1000 lines, names of 255 bytes. parse_loop, segment_loop and
-- expand_loop run on fuel, one more than the length of the string: each round takes at least one
-- byte off it. An `int` that counts (the next job id, the lines entered) is a natural number: 2^31
-- jobs or lines are not reached. atoi (the arguments of exit, fg, bg and kill) is the value that the
-- text spells, as the C standard has it where an `int` can hold the value; it leaves other texts open,
-- and what the built-ins do with them is not modelled.
--
-- The loop of main runs on one more than the number of input lines: a round reads at least one line.
--
-- Not modelled. The copies that strdup makes of glob's matches (src/expand.c) are taken to succeed.
-- What perror adds to its prefix is left out, and so is the order between what the reading of
-- here-documents prints and its messages. A first argument that expansion loses, since memory runs
-- out, is read as the empty string, where the program passes NULL to strcmp. The SIGCHLD handler runs
-- at two places of a round, while a line is awaited and before the commands run; in
-- Signals.Interleaving and Signals.Resumed it runs anywhere, and there the stages behind the first
-- are left out. The built-ins of a pipeline run on a copy of the shell's state in the child. A round
-- (Repl) parses its line as a string; Parser.Buffer is the same parser in memory.
pub mod Base
pub mod Cstring
pub mod Parser
pub mod Jobs
pub mod History
pub mod Expand
pub mod Heredoc
pub mod Executor
pub mod Builtins
pub mod Signals
pub mod Process
pub mod Spawn
pub mod Repl
