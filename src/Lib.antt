-- ===== src/Lib.antt =====
-- Verification of Open Airbus Cockpit (C++ and C; repository paths are given from its root).
--
-- The program connects cockpit hardware with a flight simulator. Its daemon `oacsd` keeps named
-- variables in groups; a master provides each group (the simulator through FSUIPC, or a client
-- over the network), the core routes subscriptions and updates to the masters, and clients and
-- server exchange messages in a binary form through buffered streams.
--
--   Prelude             tests, lists, outcomes of calls, 8-, 16- and 32-bit words, maps
--   Endian              oacsd/liboac/include/liboac/endian.h
--   Exception           the exceptions of the modelled classes
--   Buffer.Interface    what the templates in liboac/include/liboac/buffer ask of a buffer
--   Buffer.Fixed        buffer/fixed.h, fixed.inl and functions.h: `fixed_buffer`, `fill`
--   Buffer.Completion   buffer/asio_handler.h: the end of an asynchronous call
--   Buffer.Linear       buffer/linear.h and linear.inl: `linear_stream_buffer_base`
--   Buffer.Ring         buffer/ring.h and ring.inl: `ring_stream_buffer_base`
--   Buffer.Double       buffer/double.h: `double_buffer`
--   Buffer.Shifted      buffer/shifted.h: `shifted_buffer`
--   Stream              stream/functions.h: whole reads and writes on any stream
--   Var                 oacsd/flightvars/include/flightvars/var.h and src/lib/api.cpp
--   Proto               flightvars/include/flightvars/proto: messages, `serialize`,
--                       `deserialize` and the binary form
--   Subscription        flightvars/include/flightvars/subscription and src/lib/subscription:
--                       `subscription_mapper`
--   Proto.Marshall      a message in a buffer of its own: server.cpp, connection_manager.cpp
--   Client              flightvars/include/flightvars/client: connection_state.h, errors.h,
--                       requests.h, subscription_db.h and connection_manager.h;
--                       src/lib/client: subscription_db.cpp and connection_manager.cpp;
--                       src/lib/client.cpp: `flight_vars_client`
--   Fsuipc              liboac/include/liboac/fsuipc: offset.h, client.h and update_observer.h;
--                       liboac/src/fsuipc/client.cpp; flightvars/src/module/fsuipc.h and
--                       fsuipc.cpp: `fsuipc_flight_vars` with its database of offsets
--   Core                flightvars/include/flightvars/core.h, src/module/core.cpp and api.h:
--                       `flight_vars_core`
--   Server              flightvars/src/module/server.h and server.cpp: the sessions of
--                       `flight_vars_server`
--   Firmware            arduino/libraries/oacbtn/oacbtn.h and oackb/oackb.h: buttons, rotary
--                       switches and keypads of the panels
--   Tests               runs on concrete data
--
-- A member function is a function of the object's record, with the name it has in the source. One
-- that changes the object or throws is a `Method`: it takes the object and gives an `Outcome` (it
-- returned, threw an exception, was undefined, or did not return) and the object as it was left,
-- also when it threw. A template argument is a record of operations: the stream buffers work on
-- any `Buffer`, the stream functions on any stream with `read` or `write`, `serialize` on any
-- serializer; `IsBuffer`, `IsInput` and `IsOutput` say what they rely on. The fixed buffer is
-- shown to be such a buffer, the linear buffer over any buffer to be such streams, and the ring
-- that is not full to be one, so that what is proved of messages holds on a linear buffer and on
-- a ring over a fixed buffer. Windows of the ring's memory
-- (Buffer.Ring.Window) are the bytes that it holds, in order.
--
-- Numbers. The target has 32-bit sizes: sums and differences of sizes and indices wrap at 2^32
-- (`add32`, `sub32`). Narrow words are numbers below 2^8 or 2^16, signed words their bit patterns.
-- A float is its bit pattern; `frexp`, `ldexp` and the arithmetic on floats are the parameter
-- `FloatOps`.
--
-- Fuel. The loops of `read_all` and `write_all` take as much fuel as there are bytes to move: each
-- round moves at least one, or throws. `read` and `write` of the ring call themselves at most once
-- where the capacity is not zero, so that two calls are enough. The loop of `fill` is recursion on
-- the number of bytes left.
--
-- Boundaries. Memory that is read or written out of its range is `undefined`. Exception
-- specifications are left out, as the compiler for the target does not enforce them. The tables of
-- the core, which are `std::map`, are lists without repeated keys. The masters' virtual functions
-- are a parameter, and so is the state that they change. Boost.Asio is modelled up to the memory
-- that it is offered and the handler that it calls. `boost::bimap` is a record of operations with
-- its documented behaviour as laws. A server is seen by one session: the handlers get what a read or
-- a write of the connection came to, and return what they ask of it next; the delegate is any
-- `FlightVars` with a state of its own, and `Library` holds the functions `format` and `to_lower_copy`.
-- Identifiers of variables are made of names by `variable_id`, which lower-cases them with that
-- function (in the client, of its `Environment`). The entries that the client's
-- database shares through pointers lie in a store; memory does not run out. The client is the state
-- of its connection manager: `submit` puts a handler at the end of the queue of the IO service,
-- `run_posted` runs the first one, `on_message_received` gets what a read came to, and what a call
-- returns is read off its promise when its wait ends. The FSUIPC master works on any user adapter,
-- whose pointers to values are places in the list of a query; its handlers do not call it back, and
-- the functions of Boost that it parses names with are parameters, and so is
-- `reorder`, the order in which an insertion leaves its `std::unordered_map` of offsets, of which a
-- theorem assumes `IsReordering`. On the boards, whose `int` has 16
-- bits, what the pins and the clock read is an argument. Not modelled: copies of
-- linear and ring buffers, the overloads of buffers that take streams, texts made for logs,
-- `variable_id::parse`, the client's thread, the start of the TCP server, the
-- local FSUIPC adapter, the Wilco program, and the other libraries and the programs of the
-- firmware. Also not modelled, as they only pass data on or are
-- not code of the program: src/lib/client/flight_vars_client.cpp, which is not built,
-- network and thread wrappers, start-up code, the Lua command gateway, the tests, the installer,
-- and copies of other projects' libraries.
pub mod Prelude
pub mod Endian
pub mod Var
pub mod Exception
pub mod Fsuipc
pub mod Firmware
pub mod Stream
pub mod Buffer
pub mod Proto
pub mod Subscription
pub mod Client
pub mod Core
pub mod Server
pub mod Tests
