-- ===== src/Lib.antt =====
-- SOCKSv5 proxy: a verification library of the server in src/server, of the monitoring client in
-- src/client/mon_client.c, and of what they use of src/shared. Paths below are relative to the repository's root.
--
-- The program. A client connects and sends a greeting, credentials and a request; each message is
-- read into a byte buffer (src/shared/buffer.c) and taken from it byte by byte by a parser of its
-- own (src/server/hello.c, auth.c, request.c). The credentials are looked up in a table of users
-- (src/server/user_table.c). Once the origin is connected, bytes are relayed in both directions
-- (src/server/socks5.c and connect.c) until both sides have ended. Connections and bytes are
-- counted (src/server/metrics.c), and connections are written to a log in memory
-- (src/server/access_log.c). A second port speaks a monitoring protocol
-- (src/shared/mon_protocol.c, src/server/mon_parser.c and mon_nio.c), with a client of its own
-- (src/client/mon_client.c). One thread serves all descriptors: the selector (src/shared/selector.c)
-- calls the handlers of those that are ready, and the handlers register and unregister descriptors.
-- A name is resolved in a thread of its own (src/server/dns_resolver.c), whose end the selector
-- delivers as a job.
--
-- The files.
--   Base: names of the library that all modules use, the tests on numbers, integers, and lemmas
--     on lists and on C strings (Base/Lists, Base/Text).
--   Codes: the numbers of the SOCKS protocol.
--   Buffer: src/shared/buffer.c. Pointers are offsets into the storage; an operation that fails
--     an assertion, or leaves the storage, is `none`. Buffer/Valid has the invariant of buffer.h,
--     Buffer/Fifo the view of a buffer as a queue of bytes.
--   Consume: the loop that the four `_consume` functions share, over a parser and its final
--     states. It runs on fuel, the number of bytes held; each round takes one, so that is enough
--     (Consume/Stream, which also relates the loop to a run over a list of bytes).
--   Hello, Auth, Request: the parsers of src/server/hello.c, auth.c and request.c with their
--     replies. A uint8_t counter wraps at 256. Their child modules Parse have the messages.
--   UserTable: src/server/user_table.c. The static table is a value that each operation takes and
--     returns.
--   AccessLog, Metrics: src/server/access_log.c and metrics.c, likewise. What time(2) returns is
--     an argument.
--   MonProtocol, MonParser: src/shared/mon_protocol.c and src/server/mon_parser.c. The loop over
--     empty arguments runs on fuel, the number of arguments, which is as often as it can run.
--   MonPayload, MonNio: src/server/mon_nio.c, the payloads of the responses, and the requests and
--     handlers. The static tables of the server are one value that a handler takes and returns;
--     the loop over the access log runs on fuel, the number of entries in it.
--   Stm: src/shared/stm.c, over any state that the hooks change; a call of abort(3) is `none`.
--   Parser: src/shared/parser.c, the parser that a table of transitions drives.
--   Socks5: the state of a connection, src/server/include/socks5.h.
--   Handshake: the handlers of the greeting and of the credentials in src/server/socks5.c, with the
--     state that each one returns.
--   Relay: the handlers of the relay phase, in src/server/socks5.c and connect.c. What read(2)
--     and write(2) return is an argument, and the calls on the sockets are a list of effects;
--     `metrics_add_bytes` counts the bytes of the `to_` effects. Relay/Flow, Relay/Tunnel
--     and Relay/Step are about one handler, Relay/Transparent and Relay/Session about sequences.
--   Lifecycle: the references of a connection and its closing, in src/server/socks5.c; its calls are
--     effects too. The close handlers that the selector calls are in Connect and Pool.
--   Selector: the table of descriptors of src/shared/selector.c and the operations on it.
--     Selector/Map has the invariant of the table and its view as a finite map, Selector/Register
--     and Selector/Unregister the operations on that view, Selector/Capacity the growth, and
--     Selector/Closing the unregistration with a close callback that unregisters others.
--   EventLoop: the round of the event loop, the jobs of other threads and the end of the selector,
--     over any handlers; what pselect(2) answers is an argument. The loop of selector_destroy runs
--     on fuel, one more than the items, each of which it passes once (EventLoop/Destroy).
--   Resolver: src/server/dns_resolver.c, the start of the thread and its end as two steps.
--   Connect: src/server/connect.c up to the relay. The answers of socket(2), connect(2) and the
--     selector for an address are a record, an Attempt, and the attempts are an argument, as is
--     what getsockname(2) answers.
--   RequestPhase: the handlers of the request and of the reply in src/server/socks5.c. inet_ntop(3)
--     is an argument.
--   Dispatch: the table of states in src/server/socks5.c as a machine of Stm, and the handlers of
--     the client's descriptor in src/server/socks5nio.c. A hook that fails an assertion ends the run.
--   Pool: src/server/socks5nio.c, the connections of the server. The loop of the forced shutdown
--     runs on fuel, one more than the connections (Pool/Shutdown).
--   MonFormat, MonClient: src/client/mon_client.c, what is printed for a payload, and the requests
--     and the handlers of the client.
--   Args: src/shared/args.c, the command line of the server. ClientStart: src/client/client_args.c,
--     that of the client. The options that getopt_long(3) finds are an argument, and `none` is a
--     call of exit(3).
-- The modules named Tests hold runs and instances of the theorems.
--
-- Conventions. A byte is a natural number; a theorem that needs it to be below 256 says so. A
-- null pointer is `none`. An array of C is a list, and a write outside it leaves the list as it
-- is; the theorems on well-formed states say that the writes stay inside. A C string is a list
-- with a zero byte.
--
-- Not modelled: the start of the server and of the client (src/server/main.c, src/client/main.c)
-- and src/shared/netutils.c, which are printing and system calls around what is modelled;
-- selector_init and the texts of selector_error; the drawing on a terminal (src/client/client_ui.c and src/client/ui); the tests,
-- and src/doc. Locks are left out: what a mutex guards is one step.
pub mod Base
pub mod Codes
pub mod Buffer
pub mod Consume
pub mod Hello
pub mod Auth
pub mod Request
pub mod UserTable
pub mod AccessLog
pub mod Metrics
pub mod MonProtocol
pub mod MonParser
pub mod MonPayload
pub mod MonNio
pub mod MonFormat
pub mod MonClient
pub mod Stm
pub mod Parser
pub mod Socks5
pub mod Handshake
pub mod Selector
pub mod EventLoop
pub mod Relay
pub mod Resolver
pub mod Connect
pub mod RequestPhase
pub mod Dispatch
pub mod Pool
pub mod Args
pub mod ClientStart
pub mod Lifecycle
