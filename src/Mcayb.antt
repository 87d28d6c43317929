-- ===== src/Mcayb.antt =====
-- mcayb/src: the bot.
pub mod Menus
pub mod Embeds
pub mod Chat
pub mod Replies
pub mod Polls
pub mod Pages
pub mod Arguments
pub mod Presses
pub mod Forms
pub mod Slash
pub mod Notices
pub mod Guild
pub mod Mods
pub mod Handler
pub mod Tests
