-- ===== src/Lib.antt =====
-- RTSP in Go (package rtspProtocon, with a server, a client and a proxy): the wire formats, the
-- resource managers, the requests of the client and their handlers, the access control and the
-- relay of the proxy, modelled with what they do on errors, on overflow, under their mutexes and
-- where their goroutines interleave.
--
-- The parts of the program and the modules that model them:
--
--  * Base: Go's ints, byte strings, maps and mutexes, and lemmas about them. A map is an
--    association list; a method that locks runs on the mutex and the state, and a call that waits
--    for ever is the value `blocks`.
--  * Rtp (rtspProtocon/rtp.go): RTP headers and packets as bytes, ValidateRTPPacket, and the
--    stream statistics.
--  * Tcp (rtspProtocon/tcp_transport.go): the interleaved frames that carry RTP over the RTSP
--    connection, the manager that numbers the channels, and the statistics. A frame's payload is
--    an RTP packet of Rtp.
--  * Protocol.Transport (rtspProtocon/protocol.go, rtspProtocon/tcp_transport.go): the Transport
--    header, its parser and its printer.
--  * Protocol.Message (rtspProtocon/protocol.go): RTSP requests and responses, String and
--    ParseMessage.
--  * Protocol.Session (rtspProtocon/protocol.go): sessions, status texts, the URL test.
--  * Sdp (rtspProtocon/sdp.go): session descriptions and their printers; Sdp.Parse has ParseSDP.
--  * Ports (rtspProtocon/port_manager.go): the pool of UDP port pairs that the server draws on;
--    Ports.Ranges has the methods on its bounds and the queries, Ports.History the list of
--    allocations.
--  * Auth (proxy/auth_manager.go): the proxy's users; Auth.Header has the Authorization header;
--    Auth.Rules has the access rules and CheckAccess.
--  * Server (server/server.go): the handlers of the RTSP requests over the sessions, the streams,
--    the pool of Ports and the channels of Tcp; it parses with Protocol and describes with Sdp.
--    Server.Serve is the loop of a connection, which reads with Reader. Server.Streaming has the
--    loops that send and receive media over TCP, as frames of Tcp.
--  * Reader (proxy/rtsp_io.go): ReadMessage, which takes a message with its body off a
--    connection; client/client.go and server/server.go repeat it but for the read of the body,
--    which is Reader.Once. It ends in the ParseMessage of Protocol.
--  * Client (client/client.go): the client's state, its URL and how it asks the server, which
--    reads with Reader; Client.Calls has the requests and StartSession, Client.Stream the
--    receiver of the TCP stream, which reads the frames of Tcp, and Client.Reports GetStats.
--  * Proxy.Logger (proxy/logger.go): the logger with its mutex, counters, audit events and files;
--    Proxy.Logger.Start is how NewRTSPProxy gets it.
--  * Proxy.Media (proxy/media_proxy.go): the media streams of a session; Proxy.Media.Threads has
--    Start and the goroutines as threads that take turns.
--  * Proxy.Health (proxy/health_checker.go): the health checks, their counters, the restart of
--    the proxy and the HTTP statuses.
--  * Proxy.Relay (proxy/proxy.go): a session from a request to the response; Proxy.Relay.Session
--    is the loop over the client's requests, which reads with Reader and starts Proxy.Media, and
--    Proxy.Relay.Clients the table of sessions and the counters while clients come and go.
--  * Proxy.Config (proxy/config.go): loading, saving and testing a configuration.
--
-- A Go function, method or type has the name of its definition here, in lower case with
-- underscores (AllocatePorts is allocate_ports), String is print_message or print_transport, and
-- a type keeps its name.
--
-- Fuel and bounds: a search through ports gets one round for each port up to the end of the
-- range, and the port grows in each round; the retry loop has its limit as its count; the loops
-- over header lines, over the lines of a head and over the requests of a session get the length
-- of the input, and each round takes a byte or more of it, as does the receiver's round over a
-- frame; the sort gets the number of rules. The proofs use that this is enough. Counters and
-- lengths wrap as their Go types do (uint8, uint16, uint32, uint64), and a slice out of bounds is
-- a panic, as is a `make` of more bytes than the runtime has. A port or a bound of a range is a
-- natural number.
--
-- The clock, the network and the operating system are arguments: the time of a call, the set of
-- ports that can be bound when the call looks, the bytes that a connection delivers, and whether
-- dialling, writing or opening a file fails; a client's server is a function from the text of a
-- request to what the reader then delivers. Methods run one at a time: a schedule is the order of
-- the calls, and a call that would wait for a lock that its own goroutine holds is `blocks`. What
-- other connections do to a server between two requests of a connection is any function. Where
-- goroutines interleave (Proxy.Media.Threads, Proxy.Relay.Clients), what a mutex guards is one
-- step, and any order of the steps is a run.
--
-- Parameters that stand for packages of the standard library: net/url (parsing, and printing with
-- another host), the JSON text of an audit event, the decoder of base64, the printing of times
-- and durations, and the float arithmetic of Duration.Seconds.
--
-- Not modelled: the accept loops, the order in which a server's media goroutines run beside its
-- handlers, some of the formatted statistics, the payload type names and the random numbers.
pub mod Base
pub mod Rtp
pub mod Tcp
pub mod Protocol
pub mod Sdp
pub mod Ports
pub mod Server
pub mod Auth
pub mod Reader
pub mod Client
pub mod Proxy
