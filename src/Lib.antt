-- ===== src/Lib.antt =====
-- ApiGatewayGTC: a gateway that gives gRPC clients access to the CORBA system of a telescope.
-- A client calls a method of a component, reads or writes a property, lists the name service, or
-- opens a stream of events.
--
-- The parts, and how they interact:
-- * Registry (src/SubscriptionRegistry/subscription_registry.hpp): which clients are subscribed to
--   what. `addEntry`, `removeEntry`, `dispatch`, `isActive` and `hasActiveWriters` are functions on a
--   record of the members; a map is the list of its pairs in the order of the keys. Registry/View
--   takes the registry as a table from ids to entries, Registry/Table says what each method may do to
--   the table, and Registry/Refines compares the two; Registry/Gaps has `dispatch` with other threads
--   between its writes, and Registry/Unordered the removals and cleared flags of several threads.
-- * Propagator (src/SubscriptionPropagator): subscribes the gateway's consumers at the CORBA managers
--   for the first client of a topic, and unsubscribes them with the last. Its state is the registry,
--   whether the manager is reached, and the calls that the manager has taken. Propagator/Sync has the
--   states that whole methods reach one after the other, Propagator/Race the interleavings of two
--   requests.
-- * Consumer (src/CorbaServant, the `_consumer.cpp` files): the managers call these objects, which
--   convert each event by an adapter and give it to `dispatch`. Consumer/Subscriber and
--   Consumer/Samples join them with the propagators.
-- * Adapter (src/adapter): CORBA values and events as messages, and back.
-- * Stream (src/server/stream_server.cpp and stream_server.hpp): subscribes a client, waits, and
--   unsubscribes it. Stream/Handlers has any number of handlers at once, with dispatches between
--   their steps, and Stream/Handlers/Service where their clients stand.
-- * Naming (src/corba/NamingService/ns_discover.cpp): paths to names, and the walk over the contexts.
-- * Ifr (src/corba/InterfaceRepository/ifr_connect.cpp): the descriptions of the interfaces, with two
--   caches.
-- * Dii and Device (src/corba/DII): a method call by a CORBA request, or by the stubs of a device.
-- * ConfigService and ConfigServer (src/corba/Config/config_service.cpp and
--   src/server/config_server.cpp): reads and writes of properties.
-- * Unary (src/server/unary_server.cpp): `Invoke`, `Resolve` and `ListNaming`, on top of Naming, Ifr,
--   Dii, Device and Adapter.
-- * Servant (src/CorbaServant/corba_servant.cpp): the life of the consumers in the object adapter.
-- * Gateway (src/server/gateway_service.cpp and gateway_service.hpp): `GatewayService`, which gives each
--   of the nine calls to Unary, ConfigServer or Stream. Its state is the product of theirs. Gateway/Reach
--   has the states that calls of clients and events of the managers reach.
-- * Runtime (src/corba/corba_runtime.cpp and corba_runtime.hpp): `init`, which connects Naming, Ifr and
--   ConfigService; Runtime/Thread has `runInBackground` and `stop`.
-- * Main (src/server/main.cpp): the start and the end of Runtime and Gateway, with the ways in which a
--   run can end.
-- Base has the numbers, lists and outcomes that all share, Tests has runs at concrete inputs.
--
-- Conventions. An action that returns or throws is an `Outcome`; one that also changes a state is an
-- `Exec`, and what was written before a throw stays written. A `CORBA::Exception` is not a
-- `std::exception`. A signed integer of w bits is its two's complement pattern. A text that passes as
-- a `const char*` is cut at its first NUL by `c_str`, unless it comes out of a CORBA string, which has
-- none, as the name in `notifyPropertyChange` does. Logging to the
-- console is left out. The ORB, the name service, the interface repository, the managers, the devices
-- and the gRPC streams are not part of the repository: each is a record of functions, an argument of
-- the definitions that use it; Adapter/Any/RoundTrip states the laws of `CORBA::Any` that are needed.
--
-- Fuel and bounds. The walk over the name service recurs on fuel that bounds the nesting of the
-- contexts; it is enough when it exceeds the depth of the tree (Naming/Listing) or the rank of the
-- context (Naming/Depth). The waiting loop of a stream runs over the list of the rounds to come. Ids
-- are `uint64_t` and wrap around; what needs a fresh id asks for one that does not wrap.
--
-- Not modelled: what the ORB's thread does between the start of `orb_->run()` and its end, other than
-- the calls of the consumers; the accessors of the runtime, which dereference its members; time limits
-- and sleeps; and the logging.
pub mod Base
pub mod Registry
pub mod Naming
pub mod Propagator
pub mod Adapter
pub mod Consumer
pub mod Servant
pub mod Stream
pub mod Ifr
pub mod Dii
pub mod Device
pub mod ConfigService
pub mod ConfigServer
pub mod Unary
pub mod Gateway
pub mod Runtime
pub mod Main
mod Tests
