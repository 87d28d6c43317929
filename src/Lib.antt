-- ===== src/Lib.antt =====
-- Minecraft servers that are run from Discord. `sv_manage` is the daemon on the machine of the servers:
-- a thread for each server (sv_manage/src/server_loop.rs) runs it, lists and changes its mods, and makes
-- backups; a thread for each client (sv_manage/src/client_loop.rs) takes a login and one command, and
-- passes it to the thread of the server by a channel. `yapper` holds the messages between them and the
-- parser of mod files (yapper/src/mod_parser.rs). `mcayb` is the bot, `spam` a server for downloads.
--
-- Base: lists, texts as lists of code points or bytes, association lists, sorting, results, paths.
-- Yapper.Types, Yapper.Equality: yapper/src/lib.rs and mod_parser.rs, the data.
-- Yapper.Escape: `pretty_status` and `escape_discord` of yapper/src/lib.rs.
-- Yapper.Packets: `send_thing` and `recv_thing` of yapper/src/lib.rs.
-- Yapper.ModParser: `parse_mod` and `parse_mod_ext` of yapper/src/mod_parser.rs: Toml has the two shapes
--   of mods.toml, Range the version ranges, Parse the rest.
-- Yapper.Conf: yapper/src/conf.rs, the file of a configuration and the changes of it.
-- SvManage.World: the state of a server's thread: `Shared`, the notifications, the files, the outcomes
--   of system calls to come (each call that can fail takes one, so that every failure has a run), and
--   what is written to the server. An action returns its state also where it fails or panics; `diverge`
--   is a run that does not end.
-- SvManage.Files: the calls of std::fs. SvManage.Runner, SvManage.ListMods: `list_mods`, `query_mod`.
-- SvManage.Notifs, SvManage.Status: the queues of notifications, `update_status`.
-- SvManage.Paging: `list_mods_paged`. SvManage.Install: `install_mod`, `update_mod`, `uninstall_mod`.
-- SvManage.Deps: `resolve_deps`; its After has the mods that a change leaves, Met the bounds.
--   SvManage.Commands: `process_command_idle`, `process_command_inloop`.
-- SvManage.CopyDir: sv_manage/src/sv_fs.rs. SvManage.Deferred: the jobs of `server_main`.
-- SvManage.Launch: `start_server`, `cleanup` and `server_main`, as rounds over what the rest of the
--   system does. SvManage.Link: `Server::send` and the channels, with commands that get no answer and a
--   thread that has ended. SvManage.Accounts: sv_manage/src/config.rs and the login.
--   SvManage.ClientLoop: sv_manage/src/client_loop.rs.
-- Spam: `post_mods` and `serve_mods` of spam/src/main.rs, the tokens of spam/src/config.rs.
-- Mcayb: mcayb/src/bot.rs. Menus has the ids and the history of the menus, Embeds the messages that show
--   them (a button holds the menu that its id stands for), Pages and Replies the texts and menus of each
--   page, Presses and Arguments `interaction_create` for buttons, Forms for forms, Slash the slash
--   commands. Chat has the state of a guild and a monad of actions: what Discord and the daemon answer
--   is given by the log of what was asked of them. Polls has `create_poll`, `poll_deleted` and
--   `check_poll` with the table of polls of mcayb/src/conf.rs, Guild, Notices and Mods a round of
--   `guild_loop`, which panics where a group of messages is missing, Mods.Download the thread of
--   mcayb/src/process_mods.rs. Handler has the `EventHandler` of a guild, whose events are run one after
--   the other, and the look at the polls of `init`.
-- Modules called Tests hold the theorems at concrete inputs.
--
-- Fuel: the search for a free file name has as much as there are files and two more, for it repeats
-- one name or tries ever deeper ones; the copy of a directory has the letters of all paths, for it goes
-- one level down in each call. The end of fuel is a run that does not end.
--
-- Parameters: the crates zip, toml, mvn_version, mc_rcon, fs_extra, base64, reqwest, uuid, ende,
--   openssl, allocvec, rand and serde_json, the Discord library, UTF-8, `expanduser` and `canonicalize`.
--   A machine integer wraps around, as in a build without checks.
-- Not modelled: the child process beyond its exit and its input, the handshake, the
-- locks of configurations, logging, links among the files, static files and routes; of the bot, the rest of
-- the setup, handlers that overlap, the commands Test and DebugEndPoll, and the parsing of slash commands.
pub mod Base
pub mod Yapper
pub mod SvManage
pub mod Spam
pub mod Mcayb
