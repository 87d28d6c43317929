-- ===== src/SvManage/Tests.antt =====
-- sv_manage: the theorems at concrete inputs.
pub mod Data
pub mod Threads
pub mod Clients
pub mod Rounds
