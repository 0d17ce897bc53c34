-- ===== src/Lib.antt =====
-- f2p forwards TCP and UDP services between peers. A client authenticates on a control stream, asks
-- for a service and opens data streams to it, over libp2p or over a connection that the two sides
-- have punched through their NATs.
--
-- The parts, with the file that models each:
--   internal/message/message.go, message_api.go    Message: frames of a length and a protobuf message
--       (writeFull is write_full, sendMessage is send_message, receiveMessage is receive_message), the
--       senders and SendWithTTL (send_with_ttl). A connection is the bytes sent, the bytes to come and
--       the outcomes of the coming writes, which may be short or fail.
--   internal/message/dispatcher.go                 Message.Dispatcher: the reader's loop as events
--       (start, check, enqueue, read_fails), the queues by type, WaitFor as turns (wait_turn) between
--       wake-ups (wait_for), Close (close). Message.Dispatcher.History runs lists of events.
--   proto                                          Proto: the messages. The codec is a parameter.
--   internal/compress/zstd.go                      Compress: ConfigureZstdParams and the uvarints;
--       Compress.Duplex: ZstdDuplex with Write (write), Read (read) and SetInfo (set_info);
--       Compress.Closing: Close.
--   internal/version/version.go                    Version: the protocols' names, as code points.
--   internal/config/config.go                      Config (Load), Config.Saving (Save),
--       Config.Validation (ValidateConfig), Config.Passwords, Config.Setup (the interactive setup).
--   internal/server                                Server: NewServer's registry and the answers to
--       service requests; Server.Auth: handleAuthOnControl; Server.Sessions: the table of clients, with
--       the streams of libp2p and of direct QUIC connections; Server.Heartbeat: the loop of
--       monitorControlStream; Server.Data: handleDataConnection and connectAndProxy; Server.Direct:
--       detectNATType, handleHolePunchSignaling, handlePunchAndQUIC; Server.Relays:
--       createAutoRelayPeerSource; Server.Shutdown: Stop and its notices.
--   internal/client                                Client: verifyServiceOnControlStream
--       (verify_service), authenticateWithServer and the back-off; Client.Services:
--       verifyServiceConfiguration against the server's answers; Client.Listeners: startLocalServices;
--       Client.Connection: the clean-up, closeControlStream and Stop; Client.HolePunch: attemptHolePunch; Client.Connecting: the two
--       set-ups; Client.Cycles: connectToServer and startConnectionManager; Client.Monitor:
--       monitorControlStream; Client.Streams: openDataStream and handleLocalConnForProtocol.
--   internal/holepunch                             Holepunch: kinds of NAT, DeterminePunchMethod and the
--       packets; Holepunch.Signaling: the messages and both sides of the exchange; Holepunch.Stun: the
--       parser of STUN responses, whose layout Holepunch.Stun.Layout has; Holepunch.Detection: DetectNAT; Holepunch.Ports: the shuffled ports;
--       Holepunch.Sockets: the UDP sockets and what they hear; Holepunch.Punch and Holepunch.Spray: the
--       ways to punch; Holepunch.Execute: ExecutePunch; Holepunch.Direct: the session token.
--   internal/pipe/pipe.go                          Pipe: BothWithIdle, as events.
--   cmd/f2p/main.go                                CommandLine: the arguments, what main does, and the
--       changes of the password and of the identity.
-- Wire has the integers and exact reads that the frames share, Prelude the lists, numbers and maps.
--
-- How they interact: a data stream carries Message's frames, through Compress when its protocol's name
-- ends in /data+zstd; the server's answers come from the configuration that Config loads; the sizes
-- that Config.Loading bounds are those of Compress; the passwords of Config.Passwords decide in
-- Server.Auth; a session of Server.Sessions is what a data stream needs to be served. A cycle of
-- Client.Cycles cleans up with Client.Connection, punches with Client.HolePunch, which runs
-- Holepunch.Execute and then Holepunch.Direct as Server.Direct does on the other side, and sets up over
-- libp2p or QUIC; the decision on compression that Client keeps is the one of Server, and says how
-- Client.Streams opens a data stream and how Server.Sessions reads it.
--
-- Numbers are natural numbers; counters of 64 bits and lengths of 32 wrap as in Go; lifetimes and
-- sizes that may be negative are integers. Time is an argument of what reads the clock.
-- Loops are structural, with these bounds: the loop of Write has as many rounds as there are bytes,
-- since a chunk has one at least; a uvarint has at most ten bytes; the parser of attributes has as many
-- rounds as there are bytes, of which each takes four. `write_loop` of Message ends with its outcomes.
-- The loops that wait run on fuel: a round that lasts 100 ms at least fits 51 times into 5 seconds and
-- 301 times into 30, a confirmation of 50 ms 21 times into one second, a poll of half a second 31 times
-- into 15 seconds, the last round being the one that sees that the time is over.
--
-- Parameters: the protobuf, TOML, JSON, zstd and bcrypt libraries, by records of their functions, with
-- the documented behaviour that a theorem relies on as a named predicate (IsFaithful, IsReadBack,
-- IsDecoding, IsLossless, Hashes).
--
-- Not modelled: logging, the terminal and what is printed; TLS, the QUIC transport, the libp2p host and
-- its DHT, which the code only calls; Start of the server and of the client,
-- the accept loops of the client (tcp.go, udp.go), and runServer and runClient, which connect
-- these calls. Read and write deadlines of the UDP sockets appear as waits of any length. Go's
-- scheduler appears as the order of the events and as what arrives in each wait; the data races that a
-- missing lock would allow do not.
pub mod Client
pub mod CommandLine
pub mod Compress
pub mod Config
pub mod Holepunch
pub mod Message
pub mod Pipe
pub mod Prelude
pub mod Proto
pub mod Server
pub mod Version
pub mod Wire
