-- ===== src/SomeIp.antt =====
-- subProj 11 SOMEIP Tester: the SOME/IP server and its client.
pub mod Header
pub mod Server
pub mod Client
mod Requests
pub mod Sessions
mod Subscribers
pub mod Membership
pub mod Publication
pub mod Crossings
pub mod Threads
mod Tests
