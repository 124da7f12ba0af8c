-- ===== src/Proxy/Fresh.antt =====
-- fault_proxy/fresh_fixtures.py and fault_proxy/fresh_transport.py.
pub mod Dns
pub mod Name
pub mod Rdtype
pub mod Security
pub mod Sets
pub mod Records
pub mod Node
pub mod Additional
pub mod Answer
pub mod Reply
pub mod Transport
pub mod Plain
pub mod Tests
