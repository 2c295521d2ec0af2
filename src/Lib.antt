-- ===== src/Lib.antt =====
-- A verification library beside the crate sosistab3-obfsws (a websocket transport) and wsocks, the
-- proxy that runs over it.
--
-- The program has three parts. A pipe (src/pipe.rs) is a handle over two bounded channels and a flag,
-- which its clones share; a background task takes messages from one channel to the websocket and from
-- the websocket to the other. The listener (src/listener.rs) checks the handshake of each incoming
-- connection and hands the pipes over through a channel. The proxy (src/bin.todo/wsocks.rs) sends
-- frames over streams that run on those pipes, and hides a session id in each pipe's metadata.
--
-- Where each part is:
--   Base, Io, Channel, Transport, Base64   lists, Rust slices with their panics, big-endian words,
--       results, and the interfaces of what is not part of the repository (smol::channel,
--       futures_util's write_all, read_exact and read, base64), each an operation record with laws;
--   Pipe          ObfsWsPipe and Shared (the store of the clones), new, poll_write, poll_flush,
--       poll_close, poll_read, remote_addr of src/pipe.rs; an operation takes the store and returns it;
--   Pipe/Read     poll_read against read_reference, the bytes of the stream, pending polls;
--   Pipe/Write    poll_write, poll_flush, poll_close and remote_addr on every branch;
--   Pipe/Loops    send_loop and recv_loop as step functions from one await to the next, raced, and
--       every interleaving of them with the handle's calls as a list of events, and two pipes over one
--       websocket;
--   Pipe/Connect  ObfsWsPipe::connect: the dialled address, the request, the order of its calls;
--   Listener      pipe_get_metadata, the task of one connection, accept, of src/listener.rs;
--   Listener/Run  ObfsWsListener::from, pipe_accept_loop with its tasks, and accept, as a list of events;
--       a pipe is its handle there, and its store and its loops are Pipe/Loops';
--   Wsocks/Protocol, Wsocks/Frame   the messages of src/bin.todo/wsocks.rs, Frame::send, Frame::recv;
--   Wsocks/Errors   the conversions from std::io::Error to NetworkError and to the SOCKS statuses;
--   Wsocks/Etag   Etag::new, calc_hash, generate and from;
--   Wsocks/Start  hex2key, the information that server prints, the key and the id of client;
--   Wsocks/Main   the options, client up to its tasks, server from the key file to its loop, and
--       async_main; Main/Restart is about a server that starts again on its disk;
--   Wsocks/Handshake   a client's way from the printed key through Etag::generate and the listener to
--       the session table;
--   Wsocks/Info   cfg_info, build_info and env_info over what the compiler decides;
--   Wsocks/Mux    the retain of a multiplexer's pipes;
--   Wsocks/Client/Manager   pipemgr_fut of client;
--   Wsocks/Client/Socks, Wsocks/Client/Http   the tasks of socks_fut and of http_fut, up to the
--       forwarding; Wsocks/Client/Proxy has what they share;
--   Wsocks/Client/Requests   request_fut with its tasks, and the channels between it and the front ends;
--   Wsocks/Client/Fronts   the loops of socks_fut and http_fut: the tasks of many connections, which share
--       those requests;
--   Wsocks/Request   the client's request for a connection and the server's task that answers it;
--   Wsocks/Forward   tcp_forward_loop: a round of up_fut and of down_fut, and rounds one after another;
--   Wsocks/Forward/Race   the race of up_fut and down_fut, in any order of their rounds, and two
--       such ends over one stream;
--   Wsocks/Server/Keys   the loop of server that reads the key file or writes a new one;
--   Wsocks/Server/Deadline   the manager of a session's pipes, and the message of the session's end;
--   Wsocks/Server/Life   server_session_loop: the manager, the loop that accepts streams and the tests
--       of the forwarding tasks, as a list of events;
--   Wsocks/Server/Sessions   the loop of server that sorts the accepted pipes into sessions;
--       Sessions/Refinement gives its abstract table, a map from hashes to pipes;
--   Wsocks/Server/Rounds   that loop over many rounds, between which sessions end;
--   Examples/Meter   what recv_fut of examples/obfsws-test-1.rs and examples/obfsws-test-2.rs counts and
--       prints;
--   Examples/First   obfsws_test_1: the measuring loop, raced with the task that sends;
--   Examples/Second   obfsws_test_2: the measuring loop, raced with the task that sends.
--
-- Bytes are numbers; a panic (a slice out of range, an assertion, an unwrap, a subtraction below
-- zero) is the value panic of Exec. Endless loops are step functions, and a run of them is over a
-- finite list of events. The loop for the server's key runs on fuel: it gives up in its tenth round,
-- so that ten rounds are enough. The decimal digits of a port run on five rounds of fuel, which a
-- 16-bit number does not exceed. The 128-bit counters of the examples are numbers without a bound: a
-- measurement would take 2 ^ 128 rounds or bytes to pass it.
--
-- Not modelled: the parsing of the command line, and the binding of sockets; the echoing servers of
-- the examples and the set-up of their pipes; the re-exports and the constant of src/lib.rs;
-- logging, TCP and TLS, the websocket protocol, the multiplexer of sosistab2, the wire format of
-- bincode and floating-point numbers, which are libraries, hardware, or input and output; what the
-- code relies on of them is a parameter, with laws where the theorems need them. The tests' modules
-- instantiate each parameter by concrete functions.
pub mod Base
pub mod Io
pub mod Channel
pub mod Base64
pub mod Pipe
pub mod Listener
pub mod Transport
pub mod Examples
pub mod Wsocks
