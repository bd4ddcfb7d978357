-- ===== src/Lib.antt =====
-- wsldisk, a command-line tool that shows, trims, compacts, moves and relinks the virtual disks of WSL
-- distributions: its error values, its model of sizes, text, distributions, disks, caches and settings,
-- its operations, its commands, and what it asks of Windows: files, child processes and disks.
--
-- The parts and how they interact. A command makes an operation (src/lib/ops) and hands it to the
-- runner, which plans it, refuses a plan that changes something undoable behind a point of no return,
-- executes it, rolls it back if that fails and verifies it. An operation reaches the registry, the
-- file system, the WSL host, the clock and the virtual disks only through the interfaces of
-- src/lib/interfaces.h, and tells a progress sink what it does.
--
--   Errors          src/lib/errors.h, errors.cpp
--   Interfaces      src/lib/interfaces.h; the record Platform is a parameter of all that calls it
--   Model.Size      src/lib/model/size.h, size.cpp
--   Model.Text      src/lib/model/text.h, text.cpp
--   Model.Distro    src/lib/model/distro.h, distro.cpp
--   Model.Orphans   src/lib/model/orphans.h, orphans.cpp
--   Model.DiskInfo  src/lib/model/disk_info.h, disk_info.cpp
--   Model.WslOutput src/lib/model/wsl_output.h, wsl_output.cpp
--   Model.Config    src/lib/model/config.h, config.cpp; File is reading config.toml and .wslconfig
--   Model.Catalogue src/lib/model/catalogue.h, catalogue.cpp
--   Ops.Operation   src/lib/ops/operation.h (plans, reports, sink), and the state of an operation
--   Ops.Undo        src/lib/ops/operation.h, operation.cpp (UndoStack)
--   Ops.Runner      src/lib/ops/runner.h, runner.cpp
--   Ops.Preflight   what relink.cpp and move.cpp write out in the same words
--   Ops.Relink      src/lib/ops/relink.h, relink.cpp
--   Ops.Move        src/lib/ops/move.h, move.cpp
--   Ops.Trim        src/lib/ops/trim.h, trim.cpp
--   Ops.Compact     src/lib/ops/compact.h, compact.cpp; Release is release_disk, Run is execute
--   Ops.Usage       src/lib/ops/usage.h, usage.cpp; Measure is UsageOperation
--   Platform.Win32        src/lib/platform/win32_api.h, scoped_handle.h; the record Win32 is a parameter
--   Platform.Win32Error   src/lib/platform/win32_error.cpp
--   Platform.FileSystem   src/lib/platform/filesystem.cpp; Platform.SparseCopy is its copy and its ranges
--   Platform.CommandLine  build_command_line of src/lib/platform/wsl_host.cpp
--   Platform.WslHost      src/lib/platform/wsl_host.cpp, run_wsl and WslExeHost
--   Platform.DiskHandle   src/lib/platform/virtual_disk.cpp, compacting a disk
--   Platform.VirtualDisk  the rest of src/lib/platform/virtual_disk.cpp: opening, creating and asking
--   Platform.Registry     src/lib/platform/registry.cpp
--   Platform.Editor       src/lib/platform/editor.cpp
--   Platform.Clock        src/lib/platform/clock.cpp, sleeping
--   Cli.Session     what a command runs over; src/cli/progress.cpp, logger.cpp, report of app.cpp
--   Cli.Render      src/cli/render.h, render.cpp
--   Cli.Lookup      src/cli/lookup.h, lookup.cpp
--   Cli.ListCommand     src/cli/list_command.h, list_command.cpp, preflight.cpp
--   Cli.CompactCommand  src/cli/compact_command.h, compact_command.cpp; Cli.Outcomes is its reports
--   Cli.OperationCommands  src/cli/relink_command.cpp, move_command.cpp, trim_command.cpp
--   Cli.ConfigCommand      src/cli/config_command.h, config_command.cpp
--   Cli.OrphansCommand     src/cli/orphans_command.h, orphans_command.cpp
--   Cli.InfoCommand        src/cli/info_command.h, info_command.cpp
--   Cli.UsageCommand       src/cli/usage_command.h, usage_command.cpp
--
-- State. A function that calls the platform is a function of a Context: the world outside, the calls
-- of the sink so far, and the operation's own members. It returns a result and the Context that it
-- leaves, also where it fails. A member function keeps its name; its branches that refuse are named
-- for the refusal. A progress callback that always asks to go on is the list of its calls.
--
-- A command is a function of a Session: the world, the text written to the two streams, the calls of
-- the logger, and the width of the console sink's transient line. What an operation tells the sink
-- reaches the stream when the part of it that ran returns; nothing else writes to it in between.
--
-- Two libraries are parameters as well: toml++ is the record Toml, and the dump of nlohmann::json is a
-- function of the keys and values of an object in the order in which they are set. The conversion of a
-- narrow string to a path, which depends on the machine's code page, is one too.
--
-- The world is a parameter. Ops.Observed says what the proofs assume of the registry and the file
-- system: a write that succeeds sets its value and no other, one that fails sets none, a rename moves
-- a file or nothing, a command in a guest moves no disk. Ops.Compact.Waiting says that the clock does
-- not run backwards and that a sleep lasts as long as asked. Tests.Machine is a platform in memory
-- that keeps these laws.
--
-- Numbers and text. Times are milliseconds. 64-bit arithmetic keeps its wrap-around written out.
-- std::string and std::wstring are lists of numbers; std::filesystem::path is WinPath, for the
-- operations that the code uses.
--
-- Windows. The code of src/lib/platform is a function of the world of the record Win32, whose
-- functions are those of the table in win32_api.h; a handle that a ScopedHandle owns is closed where
-- the block ends. Platform.SparseCopy.Contents, Platform.WslHost.Handles and Platform.Registry.Stored say
-- what the proofs assume of these functions: which bytes a read gives and a write sets, which ranges
-- the ioctl leaves out, which calls open a handle, which string a key holds. Tests.Volume is a table
-- in memory that keeps these laws.
--
-- Fuel. The wait for the disk has one round for each poll of its timeout and two more, which the clock
-- makes enough. A copy has a round for each byte of its range, and the query of the ranges 2 ^ 64,
-- which are enough. The wait for wsl.exe has one round for each slice of its timeout and one more,
-- enough if its pipes run dry. The loops that Windows alone can end (reading a pipe or a text file,
-- listing a directory or the keys below one, polling a compaction) take the count of their rounds as
-- an argument and answer `none` if they are still running then. Everything else is structural
-- recursion.
--
-- Sorting is an insertion sort that keeps the order of equal elements, which std::ranges::sort leaves
-- open.
--
-- Not modelled: the bodies of the Win32 functions, which are Windows'; what src/cli registers with
-- CLI11, and its command completion, which is made of that; the text of the catalogue, which the build
-- compiles in and is an argument; the opening of a log file; SystemClock::now, which is std::chrono's. An
-- exception that leaves an undo function is a value; no other is modelled.
pub mod Base
pub mod Errors
pub mod Effects
pub mod WinPath
pub mod Toml
pub mod Platform
pub mod Cli
pub mod Interfaces
pub mod Model
pub mod Ops
mod Tests
