-- ===== src/Tests.antt =====
-- Test data, and runs of the theorems at concrete inputs.
mod Data
mod Registry
mod Propagator
mod Naming
mod Orb
mod Adapter
mod Stream
mod Servant
mod Corba
mod Consumer
mod Calls
mod Gateway
