-- ===== src/Lib.antt =====
-- The plugin's side of a bridge between a Ghidra server and Binary Ninja (plugin/ of this
-- repository). A Java process, the bridge, speaks to the server; the plugin talks to it in JSON
-- lines, imports a program database into a view, keeps a baseline of what Ghidra had, and checks
-- the changes of the view in against that baseline.
--
-- The parts, and the files that model them:
--   * Hex: `toHex`, `parseHexAddr` (plugin/src/GhidraJson.cpp).
--   * Address: the rebase between the two image bases, on 64-bit patterns.
--   * Names: the tests for made-up names and the canonical spellings of types and calling
--     conventions (plugin/src/GhidraConnection.cpp, plugin/src/SyncEngine.cpp).
--   * Model: the records of plugin/include/GhidraConnection.h (Export for the database, Preview
--     for the changes, Baseline for the check-in state) and what a view shows (View).
--   * Sync: `SyncResult`, the merge of comment columns, the text of tags, and
--     `SyncEngine::buildWritebackMaps`.
--   * Import: `SyncEngine::applyToView`, a module for each of its loops, and `resolveTypeName`
--     (TypeNames). The API that it changes a view with is a parameter: Api has the record of its
--     calls, and each of them that changes a view is an `Edit`. Maps compares the result with that
--     of Sync, Tally and Counts have the counters, TypeNames.Spelled the types of Ghidra's
--     spellings of pointers and arrays, and Stable, Steps and Kept what a view keeps, under laws
--     of the API that are records in Kept.
--   * Process: plugin/src/BridgeProcess.cpp. Command has the class path and the command, Output the
--     handshake and the logger, Posix and Windows the two halves. Lines and Descriptors
--     are on what they read and what they hold, and Handshake on the line that the bridge prints
--     (bridge/src/main/java/com/ghidra_svr/bridge/BridgeServer.java).
--   * Connection: the rest of plugin/src/GhidraConnection.cpp. Records has the JSON records, Locate
--     the search for files, Repository the operations on repositories, Bridge and Server the
--     connections, Session runs of them, Outcome what an operation returns,
--     Logged what a connection to a server leaves behind, Lost what a lost socket does.
--   * Collect: `GhidraConnection::collectCheckinChanges`, a module for each kind of change.
--   * Checkin: `storeCheckinState`, `clearCheckinState` (Store) and the update of the baseline at
--     the end of `checkin` (Update, with what each step leaves alone in Frame). Converge compares
--     the preview behind a check-in with the one before.
--     Request is `checkin` as a whole, with its errors.
--   * Wire: `parseDbExportJson` (Decode), `buildCheckinJson` (Encode). `nlohmann::json` is not part
--     of the repository: Library is a record of what is used of it, a parameter of the rest.
--   * Client: plugin/src/BridgeClient.cpp. Framing has the loops over the socket's bytes, Requests
--     the ids and the pending callbacks, and Requests.Conservation runs of the threads' steps. Sync
--     has `sendSync`, and Loop the receiving loop.
--   * Prelude: lists, maps, strings and loops. Tests: the theorems at work.
--
-- A `std::string` is its list of bytes, a map an association list, a set a list, in the order of
-- an iteration; a `uint64_t` is a number below 2 ^ 64 where that matters, with the wrap-around
-- written out. For a check-in a view is a record of what the calls of the Binary Ninja API return:
-- the API is not part of this repository. Loops are recursions on the list; the fuel of
-- `strip_loop` and of `canonical` is one more than the text's length, and every round takes a
-- character at least; the fuel of `resolve` is one more than the name's length, and each call is on
-- a shorter name; the fuel of `hex_digits` is 16 and that of `decimal_digits` 20, enough for 64
-- bits; that of `drain` and `send_loop` is bounded by the
-- text's length, and every round takes a byte at least.
--
-- Not modelled: the user interface, and of the Java bridge all but its handshake. Callbacks are
-- tokens, and the system's calls on sockets, files and processes are arguments; log lines are left
-- out, but for those of the bridge's diagnostic output.
pub mod Prelude
pub mod Hex
pub mod Address
pub mod Names
pub mod Model
pub mod Sync
pub mod Import
pub mod Process
pub mod Connection
pub mod Collect
pub mod Checkin
pub mod Wire
pub mod Client
pub mod Tests
