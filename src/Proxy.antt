-- ===== src/Proxy.antt =====
-- The modules of fault_proxy/.
pub mod Query
pub mod Name
pub mod Scenario
pub mod Question
pub mod Socket
pub mod Frame
pub mod Forward
pub mod Calls
pub mod Fresh
pub mod Tcp
pub mod Udp
pub mod Log
pub mod Access
pub mod Config
pub mod Sessions
pub mod Process
mod Tests
