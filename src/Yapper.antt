-- ===== src/Yapper.antt =====
-- yapper/: the crate that the daemon, the bot and the file server share.
pub mod Types
pub mod Equality
pub mod Escape
pub mod Packets
pub mod Conf
pub mod ModParser
pub mod Tests
