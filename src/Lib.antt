-- ===== src/Lib.antt =====
-- psi, a portable coding agent: the parts of its C core that keep state or compute.
--
-- psi is a C host for a Lua program. The host keeps the messages of a session
-- (src/core/session.c), streams HTTP bodies from a helper thread to the main thread
-- (src/core/http_async.c), starts child processes (src/core/process.c), reads its command line
-- (src/runtime/cli.c), and gives the Lua screens fast primitives for terminal text (src/lua/vm.c,
-- with the cell widths of src/core/wcwidth.c). Each of these is a tree here.
--
-- - Message: `struct psi_message` and its roles (include/psi/message.h, src/core/session.c).
-- - Session: `struct psi_session` and every function of src/core/session.c, with the two message
--   views of src/lua/vm.c. `malloc` is a record of granted requests. Invariant and Prefix hold
--   what an append keeps, Run the abstract log, Keep the binary search over the budget, Estimate
--   the token sums.
-- - Http: the queue of `struct psi_http_stream`, one function for each critical section of
--   src/core/http_async.c. Queue is about one call, Threads about every interleaving of the
--   helper's and the poller's sections, Ahead about a drain between the two sections of a push,
--   Deadline about the clock of a waiting poll. Buffered is `psi_http_post` and its write
--   callback (src/core/http_buffered.c), over the calls that curl makes and the code it returns.
-- - Process: `psi_process_append_bytes`, `psi_process_poll` and `psi_process_finish` on a Unix
--   host over scripts of what the system answers (Poll and Finish), the writes to a child
--   (Write), the quoting and joining of a Windows command line, the search for the raw tail of
--   cmd.exe, and UTF-8 to UTF-16 (src/core/process.c). Quote and CommandLine read the line back
--   by the rules of CommandLineToArgvW for arguments, Utf16 by RFC 2781.
-- - Cli: `psi_cli_normalize_argv` and all that `psi_cli_parse` decides (src/runtime/cli.c).
-- - Paths: joining, expanding and resolving paths, and the parent of one (src/lua/vm.c).
--   Directories is `psi_vm_mkdir_p` over any `stat` and `mkdir`.
-- - Wcwidth: the binary search and the order of the tables of src/core/wcwidth.c.
-- - Text: the text primitives of src/lua/vm.c. Scan is the shape of their loops, Escape, Utf8,
--   Classes, Cluster and Width what they read and measure, Builder the growing buffer, Sgr, Wrap
--   and Fill the styles and lines of `lfn_tui_text_wrap_ansi`.
-- - Screen: the renderer of src/lua/vm.c. Output is one piece that it writes, Render the cache of
--   the drawn lines and `lfn_tui_render_lines`. Terminal reads the pieces, Compare and Shows
--   relate the cache to the rows, Run is about sequences of calls, Refused about a refused copy.
-- - Keys: from the bytes of the terminal to key events (src/lua/vm.c): reading with a timeout,
--   the collector, the conversions of `sscanf` (Scanf), the key table (Names),
--   `psi_vm_tui_normalize_key` and `lfn_tui_poll_key` (Event). Mouse holds the buttons as a
--   terminal numbers them. Collect, Wheel and Typed are about the input that is taken.
-- - Driver: src/runtime/tui_mode.c. Driver holds the guard of the standard descriptors, Run the
--   life of a session over a list of what the system answers, `psi_run_tui_mode` to the exit
--   handler. Saved and Guard follow the descriptors, Drives, Left, Fresh and Restored the whole
--   session. The calls that return to what was saved (dup2 of a saved descriptor, the original
--   attributes) are taken to be granted.
-- - Shell: the quoting of src/lua/vm.c and src/runtime/tui_mode.c, and the call of the external
--   editor. Word reads a word as a POSIX shell does.
-- - Prelude: the names, tests and list lemmas that they share. Each tree has its runs in Tests.
--
-- How the code is carried over. A C string or a byte buffer is a list of numbers, a struct a
-- record, and a function that mutates one returns the new record. A position in a text is the
-- suffix from it on, and a loop that moves it tells how many bytes a round takes, so loops over a
-- text need no fuel. A size_t is a natural number whose wrap-around at 2 ^ 64 is written where
-- the code can reach it. An allocation is an argument that grants or refuses it, and NULL or an
-- error status is `none`; freeing is the loss of the value. The input of the terminal is a list
-- of bytes, each with the milliseconds that pass before it can be read.
--
-- Fuel stands in five loops. The two binary searches have one unit more than there are entries,
-- and the three loops that double a capacity have as many as bytes are needed: a round of the
-- first drops an entry, and one of the second adds a byte.
--
-- Bounds. The milliseconds of a wait, widths and line counts are C `int`s, which natural numbers
-- stand for: a text of fewer than 2 ^ 31 / 3 bytes keeps them in range. The other arguments of
-- Lua are taken to fit in the `int` that they are cast to; the cast of byte_index_for_width and
-- the `int` that reads the numbers of an SGR sequence wrap at 2 ^ 32.
--
-- Not modelled: fork, pipes, and the start of a child process; curl, mbedTLS, cJSON, Lua and
-- argtable3, which the code only calls (what argtable3 has read is a parameter); the entries of
-- the width tables, which are data and a parameter; the debug log's path in
-- src/runtime/tui_mode.c and the other file functions of src/lua/vm.c; and the Lua programs.
pub mod Prelude
pub mod Message
pub mod Session
pub mod Http
pub mod Wcwidth
pub mod Text
pub mod Cli
pub mod Process
pub mod Paths
pub mod Screen
pub mod Shell
pub mod Keys
pub mod Driver
