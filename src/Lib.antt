-- ===== src/Lib.antt =====
-- sape carries tunnels between two peers over libp2p. A listener registers at a relay and waits;
-- a dialler resolves a dial target (a circuit address, an mDNS name or a pairing code), opens a
-- stream, sends one request on it, and from then on the stream is copied to and from a socket. With
-- jump hops the request for the stream travels through several relays, each of which opens the
-- next leg and passes the answer back. A dialler can also be a local SOCKS5 and HTTP proxy, and the
-- options of each role can be asked for on a terminal instead of the command line.
--
-- Files and sources, with paths from the repository's root:
--   Text, Text.*        Rust's texts as lists of code points: split, strip_prefix, parse of u8, u16,
--                       from_utf8, split_whitespace
--   Cli                 src/cli.rs: the options and the commands
--   Terminal, .*        the prompts of the crate inquire, as an interface
--   Interactive, .*     src/interactive.rs: the questions, their validators and the commands
--   Pairing, Pairing.*  src/pairing.rs: generate_code, is_pairing_code, the list of words
--   Address, Address.*  src/types.rs: validate_relay_address, relay_base_from_circuit_address,
--                       peer_id_from_multiaddr, on a multiaddress as the list of its protocols
--   Target, Target.*    src/types.rs: DialTarget and ForwardSpec, read from text
--   Identity, .*        src/types.rs: generate_ed25519, resolve_keypair, load_or_create_identity,
--                       resolve_identity, on a file system as a state
--   Wire, Wire.*        the frames of src/tunnel.rs and src/jump.rs, and streams
--   Tunnel, Jump        src/tunnel.rs and src/jump.rs: the messages and their readers and writers
--   Forward, Forward.*  src/forward/mod.rs, local.rs, reverse.rs: acknowledgements and what each
--                       side does per connection
--   Proxy, Proxy.*      src/forward/socks5.rs: proxy_connection (the task that run_socks5 spawns),
--                       handle_http_connect, handle_socks5_client
--   Listen, Listen.*    src/client/listen.rs: the set-up of run_listen (set_up), which starts the
--                       listeners of src/client/builder.rs, its loop and the task of one stream
--   Relay, Relay.*      src/relay.rs: handle_jump_request, one hop of a jump chain; the relays of a
--                       whole chain; run_relay's listen addresses and loop (serve)
--   Swarm, Swarm.*      src/client/swarm.rs: the waits for a relay, a peer, mDNS and rendezvous, and
--                       the loop behind a session (Swarm.Drive)
--   Dial, Dial.*        src/client/dial.rs: resolve_target (the match of run_dial on the target),
--                       the jump chain and its session, parse_dial_mode, and what is started for the
--                       mode (run_dial_mode), with the loops of run_local_forward and run_socks5;
--                       run_dial itself, which joins these; a dialler with its relays and a
--                       listener (Dial.EndToEnd)
--   Protocol, .*        src/protocol.rs and the namespace check of src/lib.rs
--   Run, Run.*          src/lib.rs, run: from the environment and the command line to the command
--   Libp2p              what is relied on of libp2p's text forms
--   Prelude, Prelude.*  names of the library, Boolean tests, lists, results, state with errors
-- Each component's theorems stand in its child modules, and the examples in its module Tests.
--
-- A stream is seen from one end: the bytes that the other end sends before it closes, the bytes
-- written so far, and how many more bytes the connection carries before it breaks. So a cut or a
-- break at any byte is a stream like any other. A handler is a function from a state to a result
-- and a state, in the order of the source's awaits; an early return with `?` is an error of it.
-- What a task does to the outside is the list of its effects, in order. Sockets, files, the swarm
-- and the attempts to open a stream are functions that answer, and are arguments of the handlers.
--
-- The swarm is the list of the events that it will report, each with the millisecond at which it
-- is there. A `timeout` is a time at which the wait ends with an error, and an inner one counts
-- unless the outer one ends before it. A wait without a limit that nothing ends is an error value of
-- its own, which stands for a call that does not return. An event holds what the code reads of it
-- or could compare: a discovery has no namespace, so what a dialler asked is kept beside the swarm,
-- and that an answer is one to a question is a hypothesis on the rendezvous points.
--
-- A proxy's client is the list of what each read of its socket gives, so a request may arrive in any
-- pieces; behind these reads is the end of the stream or an error of the socket. A terminal is a state from which the crate's prompts take their answers.
--
-- Integers are natural numbers. A u8, u16 or u32 is bounded where the source reads or converts it,
-- and a conversion that fails is an error as in the source. The attempts of a relay to open a
-- stream are a recursion on the number of those left, which starts at 10, so that no fuel is
-- needed. The loop over the headers of an HTTP request runs on fuel, as many rounds as the client has
-- bytes to send and one more, which is enough since each round but the last takes a byte. The other
-- loops are recursions on the list they run through.
--
-- Opening a stream and reading from one take no time, and a read gets bytes or the end: a peer that
-- keeps a stream open and sends nothing cannot be expressed. So nothing is said of how long the
-- answer to a jump request takes, for which the code sets no limit.
--
-- Not modelled: libp2p itself and the configuration of its behaviours (src/client/builder.rs
-- except start_listeners, src/client/mod.rs except DialMode, the start of the relay's swarm), the
-- copying of bytes by tokio once a stream is connected (src/netcat.rs), tokio's channel between the
-- jump requests of a relay and its loop, and the set-up of logging. What clap makes of the
-- arguments, postcard, Ed25519, the text forms of libp2p, the server side of fast_socks5 and the
-- prompts of inquire are parameters, with what is relied on of them as hypotheses.
pub mod Prelude
pub mod Text
pub mod Pairing
pub mod Address
pub mod Libp2p
pub mod Target
pub mod Identity
pub mod Wire
pub mod Tunnel
pub mod Jump
pub mod Forward
pub mod Listen
pub mod Relay
pub mod Proxy
pub mod Swarm
pub mod Cli
pub mod Terminal
pub mod Interactive
pub mod Run
pub mod Dial
pub mod Protocol
