-- ===== src/Lib.antt =====
-- SmallServer, an HTTP/1.1, HTTP/2 and WebSocket server for the SmallOS scheduler: models of its
-- parts, and what is proved of them.
--
-- The server accepts connections on a kernel transport (smallserver/_transport.py). The bytes of an
-- HTTP/1.1 connection go through a request parser (smallserver/server.py) to a router
-- (smallserver/routing.py); those of an HTTP/2 connection through a frame budget into hyper-h2, whose
-- events drive the state of the connection (smallserver/http2.py); those of a WebSocket through a
-- frame guard into wsproto (smallserver/websocket.py). Requests and responses are the values of
-- smallserver/http.py. What a failed start or shutdown leaves open is kept in a cleanup transaction
-- (smallserver/errors.py).
--
-- Prelude has the shared names: numbers, lists, results (Errors), Python's dict and set (Dict), its
-- str and bytes (Text), and str(int) (Decimal).
--
-- Http models smallserver/http.py: Headers, Request and Response with their validation, and
-- Response.text and to_http1. The checks of argument types are the types of the model.
--
-- Http2.Config is HTTP2Config without its timeouts. Http2.FrameBudget is _FrameBudget; its children
-- compare it with a machine that takes one byte at a time. Http2.RequestHeaders is
-- H2Protocol._decode_request_headers, Http2.Protocol the state of H2Protocol, Protocol.Input its
-- receive_data with the handlers of the events, Protocol.Output its queue_response, flush and close.
-- hyper-h2 is not part of the repository: Http2.Connection has what the code uses of it, as a
-- parameter with any behaviour. Counters are natural numbers, whose subtraction stops at 0; the
-- accounting invariant says that a counter holds at least what is taken from it.
--
-- WebSocket.FrameGuard is _FrameGuard of smallserver/websocket.py, with the same comparison.
-- WebSocket.Mailbox is the bounded inbox and outbox of _WebSocketState and _drain_protocol_events,
-- which fills them; wsproto's events are a parameter. WebSocket.Upgrade is the validation of an
-- upgrade, and WebSocketConfig without its timeouts.
--
-- Server.RequestParser is HTTPRequestParser of smallserver/server.py. Bytes are their ISO-8859-1
-- characters, and int reads any number of digits, without CPython's limit of 4300. Server.Config
-- is ServerConfig, Server.RouteObserver is RouteObserverChannel with run_route_observer, and
-- Server.Handle is the state of ServerHandle: Handle.Release has the methods that release one
-- resource, Handle.Closing is _finish_close, and Handle.Requests has the methods that the owner,
-- the scheduler and the connections call, and what _accept_loop and the connections of
-- smallserver/app.py and smallserver/websocket.py do to a handle. The runtime, the kernel and the
-- tasks are a parameter that acts on a world of its own; what is called does not call the handle
-- back, and _WebSocketState.request_shutdown returns: the KeyboardInterrupt, SystemExit or failed
-- signal that it can raise in the middle of _finish_close is not modelled. A stream or a task is
-- the number that id gives. Handle.Lifetime has the requests that reach a handle as steps, one
-- after the other. A stream is registered or closed on behalf of a task while the handle has not
-- finished.
--
-- Runtime is ManagedRuntimeConfig of smallserver/runtime.py, and App.Configuration is
-- SmallServer._resolve_server_config of smallserver/app.py, App.Binding its _bind_and_schedule up to the
-- handle, and App.Dispatch its route and dispatch. An argument that a constructor tests is a
-- Python value, Runtime.Value.
--
-- Routing.Pattern is _named_group_names and _comment_end of smallserver/routing.py, Routing.Router and
-- Routing.Resolve are the class Router. The regex package and the clock are parameters; times are
-- counted in ticks.
--
-- Cleanup is _CleanupTransaction and _ServerCleanupError of smallserver/errors.py, without the locks.
--
-- Transport is send_all, close and close_safely of smallserver/_transport.py, and Transport.Acquiring
-- its open_listener, create_wakeup_channel and accept, with their rollbacks; the kernel and the
-- scheduler are a parameter.
--
-- Adapters is AdapterRegistry of smallserver/adapters.py; the adapters are a parameter.
--
-- Fuel: _FrameGuard.feed and _FrameBudget.feed loop on the length of their input, since every round
-- takes a byte; that this is enough is part of what is proved of them. Router's scan of a pattern
-- takes the pattern's length. send_all takes the number of its turns; a kernel that always asks for a
-- retry has no bound on them.
--
-- Not modelled: the tasks and timers of smallserver/app.py, smallserver/server.py and
-- smallserver/websocket.py, which are I/O on the scheduler, the WebSocket handshake, and imports of
-- optional packages.
pub mod Prelude
pub mod WebSocket
pub mod Http
pub mod Http2
pub mod Routing
pub mod Server
pub mod App
pub mod Runtime
pub mod Cleanup
pub mod Transport
pub mod Adapters
