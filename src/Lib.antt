-- ===== src/Lib.antt =====
-- kio-protondrive: Proton Drive in KDE's file manager
-- ===================================================
--
-- The program lets Dolphin show a Proton Drive account. A KIO worker (C++, not modelled) calls the Rust
-- crate `core` through core/src/bridge.rs; a background process, the crate `daemon`, keeps pinned files
-- in step with Drive and the caches fresh, and serves requests to pin, unpin and revalidate. Both drive
-- the external program `proton-drive`, whose JSON answers they read, and both share one SQLite index with
-- a directory of local copies. The crate `wizard` sets the account up: settings, keys, a bookmark.
--
-- How the code is modelled
-- ------------------------
--
-- A string of the source is a list of its bytes in UTF-8 (Base, `Text`), a `Result` a data type, and code
-- that mutates is a function from a state to a result and the next state (Base/Results, `Action`); what
-- was written before an error stays written. Everything that the program calls and does not implement is a
-- field of the record `Outside` (Outside.antt), or of a smaller record beside the code that alone calls it:
-- the `proton-drive` process, the file system, the clock, errors of SQLite, serde's JSON and commands that
-- are launched. Every theorem is for any such record unless it names a hypothesis on it. A table of SQLite
-- is a list of rows in Table.antt, with the statements that the program runs; a statement runs as a whole or
-- fails as a whole (Store.antt).
--
--   Base.antt         shared names, strings, results, numbers in decimal and hexadecimal
--   Table.antt        tables and statements; Table/Laws what lookups give behind them
--   Entry.antt        core/src/entry.rs: nodes and the other shapes of the CLI's answers
--   Outside.antt      what is called; `DriveError` and `CommandOutput` of core/src/cli.rs
--   Store.antt        the tables of core/src/cache.rs and how statements run on them
--   Cli.antt          core/src/cli.rs: Answer (failures), Runner (processes and retries), Commands,
--                     Moves (rename_or_move), Chain (ensure_remote_dir_chain), Sharing, Errors (the
--                     words of a `DriveError`), Binary (find_binary), Photos (the photo commands)
--   Sharing.antt      core/src/sharing.rs: the members that the share dialog shows
--   Cache.antt        core/src/cache.rs: Paths (target_dir_for), Pins, Files (cached files and
--                     daemon/src/cache_eviction.rs), Nodes (stats, listings, timeline, open),
--                     Index (default paths); Spec describes the pins as a map with calls on it, which
--                     Refines fills and Client uses; Under says what is at and below a path
--   Photos.antt       core/src/photos.rs: names and categories; Listing the listings
--   Ctrl.antt         core/src/local_ctrl.rs: requests of the control servers, the client's and what the
--                     server reads of them; Files (paths and look-ups)
--   Transfer.antt     core/src/transfer.rs: transfers in the background; Rate (throughput, estimate)
--   Update.antt       core/src/cli_update.rs and daemon/src/version_check.rs; Install the download
--   OpenFolders.antt  daemon/src/open_folders.rs: folders that views show
--   Daemon.antt       Refresh (daemon/src/fs_refresh.rs), Sync (daemon/src/sync.rs), Watch
--                     (daemon/src/watcher.rs), Control (daemon/src/control.rs), Notices
--                     (daemon/src/notification.rs), Versions (daemon/src/version_check.rs), Config
--                     (daemon/src/config.rs), Loop and Main (daemon/src/main.rs, with the two `start`
--                     of control.rs and open_folders.rs), State (what its threads share)
--   Bridge.antt       core/src/bridge.rs: Entries, Reads, Writes, Transfers, Shares (the share dialog),
--                     Gallery (photos)
--   Wizard.antt       wizard/src/main.rs: Settings, Keys (gpg and pass), Favorite (the bookmark), Routes
--                     (the control server), Launch (main)
--   Tests.antt        a small world and the theorems at concrete inputs
--
-- The bridge and the daemon meet in the index alone: each call of the bridge opens it, and the daemon's
-- events and timers are steps between calls. A store with its world is the state of all of them. Within
-- the daemon, the main loop and the control server's threads share the index and two tables, which are the
-- record `Running` of Daemon/State.antt. One pass of the loop is the function `pass`, whose argument
-- `receive` says what the watcher delivers and what the other threads have done meanwhile. A call of the
-- bridge that changes the sharing gives the refresh that its thread runs later as a second action.
--
-- Numbers and loops
-- -----------------
--
-- Times and sizes are natural numbers; an i64 of SQLite is kept as its bits, and comparisons of times
-- that could go below zero are written with the sum on the other side. The version parser keeps the
-- bound of u32, and the counts of views and of photos of one name wrap at 2 ^ 32. The buffer that a request is read into has 4,096 bytes. Timers count whole seconds, and the
-- longest duration is 2 ^ 64 - 1 of them. Loops of the source are recursion on lists; the retries of a
-- command are recursion on the rounds that are left, of which there are the source's three less one. The
-- walk of the cache root alone has fuel, one more than the bytes of the longest path that Linux opens, which
-- is enough as a folder's entries have longer paths than the folder (Daemon/Walked.antt).
--
-- What is not modelled
-- --------------------
--
-- Not modelled are sockets and processes' pipes (what they deliver is an input), the interleaving of threads
-- within one request or job, logging, and the set-up of gettext; the walk of the cache root reads the
-- entries of a folder at once. Parameters are the arithmetic of f64 in the estimate of a transfer's progress
-- (`Floats` of Transfer/Rate.antt), the environment, the start of threads, `curl`, `sha512sum`, `gpg`,
-- `pass`, `notify-send`, `busctl`, `gettext`, TOML, `qtpaths6`, the QML process, and whether a file may be
-- run. The C++ worker and plugins are left out. Bytes outside ASCII are not whitespace here, and lowering a
-- text changes the letters of ASCII and Latin-1 alone.
pub mod Base
pub mod Table
pub mod Entry
pub mod Outside
pub mod Store
pub mod Cli
pub mod Cache
pub mod Photos
pub mod Sharing
pub mod Ctrl
pub mod Transfer
pub mod Update
pub mod OpenFolders
pub mod Daemon
pub mod Bridge
pub mod Wizard
pub mod Tests
