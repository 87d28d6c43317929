-- ===== src/SvManage.antt =====
-- sv_manage/: the daemon that runs the servers.
pub mod World
pub mod Files
pub mod Notifs
pub mod Status
pub mod Runner
pub mod ListMods
pub mod Paging
pub mod Install
pub mod Deps
pub mod Commands
pub mod CopyDir
pub mod Deferred
pub mod Link
pub mod Accounts
pub mod ClientLoop
pub mod Launch
pub mod Tests
