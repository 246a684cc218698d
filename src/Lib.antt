-- ===== src/Lib.antt =====
-- r-nat is a reverse NAT. The relay (r-nat-s) stands on a public host. Agents (r-nat-c) connect to it
-- from behind a NAT and BIND ports; the relay then listens on these ports, hands each user that
-- connects to one of the port's agents, and the agent connects to the service behind the NAT. From
-- then on bytes go both ways: as they are between a user and the relay and between the agent and the
-- service, and as DATA messages in length-prefixed packets between relay and agent.
--
-- Which file models what:
--   Common       shared helpers: tests, lists and maps over the native numbers
--   Protocol     include/protocol.h (A2r is namespace a2r, R2a is r2a; DATA is `carry`), and the
--                switches with their size tests in app1/tunnel.cpp of both programs; Accepted and
--                Exact go from the bytes of a buffer back to the messages
--   Connection   r-nat-s/network/tcpconnection.hpp; r-nat-c has the same code. Writing and Delivery let
--                its writes complete, Lifecycle and Closing are about its end
--   RawConnection  r-nat-s/network/rawtcpconnection.hpp; r-nat-c has the same code
--   TcpServer    r-nat-s/network/tcpserver.hpp and .cpp, and rawtcpserver.*, the same over another
--                connection class
--   TcpClient    r-nat-c/network/tcpclient.hpp and .cpp, and rawtcpclient.*, the same over another
--                connection class: the connection that connects, with its timer, and its owner
--   Endpoint     an address and a port, as asio gives them
--   Text         trim of stdafx.h, and the comparison of LoadPolicy
--   Config       config.h and config.cpp of both programs, with the reading of nodes and attributes by
--                deps/common/xmlserializer.h
--   Pool         the pool of buffers, __CreateIoBuffer of app1/app1.cpp
--   Balance      fnv_hash_int of stdafx.h, and the wrap-around of the 32-bit counters
--   Relay        r-nat-s/app1: State is app1.h and __CleanSession, Tunnel is tunnel.cpp (agents),
--                User is user.cpp (users), Step the events that reach the program, Startup is Init
--                and Start of app1.cpp
--   Relay/Directory  what the tables of the relay stand for: agents and the ports they serve
--   Relay/Hosting    the relay's application and the server of its agents together
--   Relay/Isolation  the tables of sessions; Relay/Sessions and Relay/Ending are about their life
--   Agent        r-nat-c/app1: State is app1.h and __CleanSession, Tunnel is tunnel.cpp and
--                session_tunnel.cpp (the relay), User is user.cpp (the service), Startup is Init,
--                Start and Stop of app1.cpp, Clients its __CreateTcpClient functions, Step the events
--                that its other __Create functions bind to callbacks, Isolation the tables of users
--   Server       main.cpp, server.h and server.cpp of both programs: main from the command line and
--                the configuration to Start, the ends of main, and the io_services that GetIoService
--                gives
--   Flow         the flow control that both programs put on a session, as an interface; Blocking of
--                Relay and of Agent say what BlockRecv was called with last, Corking fills the interface
--   Link         relay and agent together: DATA both ways, the announcement of services (Announcing),
--                the way of a new user to a service (Opening), SESSION between two DATA (Ordering) and
--                DISCONNECT (HalfClosed)
--   Link/Stream  a relay and an agent as one system, whose steps interleave the users, the packets
--                between the two and the services in any order
--   Tests        the theorems at concrete inputs
-- A function has the name of the method that it models, in small letters: `on_user_recv` is
-- __OnUserRecv. The branches of __OnAgentRecv and __OnServerRecv are functions of their own.
--
-- State is passed explicitly. A handler maps the program's state to the next; what it asks of asio or
-- of another object is an entry of the list `effects`, newest first. Sessions, services and remotes
-- stand behind shared pointers in the source: here a reference is a number, and a store gives its
-- object, so that two references to a session see the same change. `none` as the result of a handler
-- is an exception that leaves it. Handlers of an application run on one strand, so that a history is
-- a list of events.
--
-- Bounds and fuel: the 32-bit counters and numbers wrap (`% 2 ^ 32`), and a theorem that needs a
-- counter not to wrap says so. The loop of __GetNextSeq gets one round more than there are
-- connections. `arrive` of Connection/Delivery gets one round more than there are packets, and `complete`
-- of Connection/Writing one completion more than buffers wait.
--
-- The system of Link/Stream has one connection between its two sides, to which all DATA goes: neither
-- SESSION nor the end of a connection is among its steps.
--
-- Parameters and their hypotheses: what an acceptor answers (`listen`), what Start of a server gives
-- for a port (`listens`), the connection class of a server or a client (`ops`), what the resolver
-- finds (`resolve`), atol, rand(), and rapidxml with the extraction of a number by a stream (`Xml`). That a new
-- agent's number is one that no known agent has (`Admits`) is a hypothesis where the application
-- stands alone; Relay/Hosting models the application with its server, which chooses the number.
--
-- Not modelled: asio and rapidxml, which are third-party; the threads that run the io_services; OnStop
-- of main.cpp, which nothing calls; the parts of XMLSerializer that the programs do not use; the
-- output to the console and to the log.
pub mod Common
pub mod Protocol
pub mod Endpoint
pub mod Connection
pub mod RawConnection
pub mod Balance
pub mod Config
pub mod Text
pub mod Pool
pub mod Relay
pub mod Server
pub mod Flow
pub mod Agent
pub mod Link
pub mod TcpServer
pub mod TcpClient
mod Tests
