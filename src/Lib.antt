-- ===== src/Lib.antt =====
-- The benchmark programs of this repository, modelled and verified: echo servers over five
-- networking libraries, and the clients that measure them. Paths are from the repository's root.
--
-- How the parts interact. Each program is one process: `main` reads the command line, sets handlers
-- and runs the library's event loop, which calls the handlers one at a time (in the Boost.Beast server,
-- which may have several threads, those of one session or of the listener). A client sends a message
-- and waits for its echo; a server sends back what it receives and counts it, and prints a line of
-- statistics whenever its own test on the counters says so. The libraries (uSockets, uWebSockets,
-- websocketpp, flashws, Boost.Beast) are not in the repository: what a call of theirs returns is an
-- argument of the handler (the fields of `Env`, `Boot`, `Acceptor`, a number of bytes taken), and
-- what a theorem relies on is one of its hypotheses (`IsWriter`, `IsFine`, the laws of `FlashWs`).
--
-- Prelude      tests, lists, bounded reads and writes of memory, machine words, signed numbers,
--              exclusive or, association lists
-- Stats        the counters and the line of `count_stats`, which the four counting servers share;
--              Stats/Totals: what lines and counters add up to
-- Args         `atoi`, `std::to_string` and the argument checks, with how a program exits;
--              Args/Server: the checks of src/uwebsockets and src/websocketpp/echo_server.cpp
-- Payload      the random digits that the clients send
-- Usockets     src/usockets-tcp: Server is echo_server.cpp (`on_data` is on_echo_socket_data,
--              `on_writable` is on_echo_socket_writable, and so on), with Owed, Echo and History for
--              what a socket owes its peer, Loop for all sockets at once, Hazards for the cases in
--              which bytes are lost, Main for `main`; HttpsClient is https_client.cpp
--              (`try_request`, its handlers and `main`)
-- Uws          src/uwebsockets: Server is echo_server.cpp, Client is echo_client.cpp
-- Wpp          src/websocketpp/echo_server.cpp; sends may throw
-- Fws          src/flashws: the buffers, Starts for how `main` ends before the loop, Server for
--              echo_server.cpp (`on_read` is the lambda of SetOnRead), with Server/Loop for all of
--              its connections; Client for echo_client.cpp: Callbacks (WriteFirstMsg, SetOnRead,
--              EndClient), Fleet and Main (TestWsClient), Loop for the events of all clients, which
--              share one context, in any order, and Loop/Launch from the command line to them;
--              Exchange for what a connection carries; Network for all clients and all connections of
--              the server at once, each side reading what the other one wrote, from both command
--              lines
-- Agreement    src/uwebsockets and src/websocketpp: the two servers on the same history
-- Beast        src/boost-beast/echo_server.cpp: the session with its steps, Listener and Main, and
--              Server for the listener with all of its sessions
-- Tests        the theorems at concrete inputs
--
-- State and errors. The globals and the contexts of a program are records; a handler maps the state
-- before to the state after. In the flashws programs a callback ends (`done`), stops the program by
-- `std::abort` or FWS_ASSERT (`aborts`), or writes out of a buffer or to a closed file (`faults`); in
-- the uSockets server an access out of a buffer gives `none`. What was sent and printed is kept in
-- lists, the last item first. A Boost.Beast session is a step relation: one operation is pending and
-- completes with any error code.
--
-- Bounds. Unsigned counters wrap at 2^64 (`add64`, `inc64`), uint8_t and uint32_t fields are taken
-- modulo 2^8 and 2^32; signed sums of bytes are kept without a bound, which they do not reach. Loops
-- recurse on a list or a number; `to_string` of `n` runs on `n + 1` units of fuel, one for each digit
-- and so enough. `atoi` and `atoll` are not cut to the type of their result, beyond which C leaves
-- them undefined: a theorem that spells numbers in decimal bounds them.
--
-- `OnClose` of the flashws client. `WSocket::Close` is taken to call `OnClose` (`on_close`) before it
-- returns, and `socket_count()` to count the socket that closes still: the last echo then ends the
-- program once. A server that closes a client's connection is an event of the client's loop
-- (`closes`) that the theorems do not allow, for the echoes that are left to it do not come. Where the socket is not counted any more, the last echo ends the
-- program twice (Client/Callbacks/Hazards).
--
-- Not modelled: floating-point rates and quantiles (a report holds the numbers they are computed
-- from), printing on the standard output other than the counted lines, sleeping, TLS set-up beyond
-- its success, and the Python scripts. src/usockets-tcp/flat_hash_map.h is a copy of another
-- project's library.
pub mod Fws
pub mod Payload
pub mod Prelude
pub mod Stats
pub mod Agreement
pub mod Args
pub mod Beast
pub mod Usockets
pub mod Uws
pub mod Wpp
pub mod Tests
