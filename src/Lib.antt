-- ===== src/Lib.antt =====
-- JustInTime: the agent that records which window is in use on a Windows machine and syncs the
-- records to Supabase, and the data behind its dashboard (C++, src/agent, src/dashboard, src/common,
-- includes).
--
-- Parts and how they interact. The watch thread calls the activity tracker, which inserts closed
-- records into the SQLite table; the cloud thread's sync cycle takes the rows that are due, sends
-- them by the batch bisection over the network, and marks them as synced or as refused. Responses
-- are read by the small JSON readers. What stands in for the outside (Win32, SQLite, HTTP, the
-- clock) is an argument of the definitions that use it.
--
-- Prelude: lists, texts, integers and decimal numerals as the C library handles them.
-- Batch: includes/agent/agent/batchsend.h. The callback carries a state of any type. The loop runs
--   on fuel max_requests + 2, which is enough: each round but the last spends a request, and one
--   round finds the stack empty or the budget spent.
-- Json: src/agent/shared/jsonutil.cpp, and jsonEscape of includes/common/strutil.h.
-- Db: src/agent/shared/database.cpp. The table is a list of rows, and each statement is its effect
--   on it; the outcome of a statement is an argument. Db.Update holds the statements that change
--   rows. The rounds of db_mark_synced_batch are bounded by the number of ids.
-- Sync: src/agent/agent/sync.cpp, over an interface for the session, the clock, the network and the
--   outcomes of the statements.
-- Auth: src/agent/shared/auth.cpp. Network: src/agent/shared/restclient.cpp and network.cpp, over an
--   interface for the requests; the two attempts of their loops are the fuel.
-- Limits: src/agent/shared/applimits.cpp; a call of the server is an argument. Enforce:
--   activity_check_limits of src/agent/core/activity.cpp, over Limits, Db and Activity.
-- Activity: the rest of src/agent/core/activity.cpp. Each hold of the mutex is one step. Activity.Threads
--   interleaves the steps of the watch thread and of the GUI thread in any order; Activity.Time
--   is about calls that do not interleave.
--
-- Settings: src/agent/shared/settings.cpp, with settings.ini as a text. Agent: cloudLoop and, in
--   Agent.Watch, watchLoop of src/agent/agent/main.cpp; each turn of a loop reads a clock that may show
--   anything.
--
-- Device: src/agent/shared/device.cpp and src/dashboard/dashconfig.cpp, the two programs that share
--   the file device.id. Backup: src/agent/shared/backup.cpp and db_export_json of database.cpp; a
--   directory is a list of names.
-- Cloud: src/dashboard/cloud.cpp, over nlohmann::json's parse and dump and the transport. Cloud.Rows
--   reads the rows of answers, Cloud.Client holds the requests. RemoteView:
--   src/agent/agent/remoteview.cpp, over Settings and what the tracker shows.
-- Usage: src/dashboard/localdb.cpp, and db_get_today_app_summary and db_build_daily_summary_text of
--   database.cpp, on the rows of Db.
-- Family: src/agent/shared/parentlink.cpp and machines.cpp, over a call of the server.
-- Dashboard: src/dashboard/dashsession.cpp and dashsettings.cpp, over DPAPI, base64 and JSON.
--
-- Not modelled: the update check; of cloud.cpp the heartbeats with their floating-point loads, ping and
-- the change of a password; and, since they only call other libraries, Qt widgets
-- and pages, the tray and the control panel, Win32 calls, HTTP, SQLite and nlohmann/json
-- themselves, and log output.
-- An `int` count or index is a natural number where the code only makes it so; a `long` keeps 32
-- bits where the code casts to it. The seconds of a record are such a `long` and are read without a
-- sign, which differs from the source only for a record that was open for 2 ^ 31 seconds (68 years) or
-- more. A query of which a step fails gives the rows before the failure, in the sync queue and in the
-- export. Of the remote view's sockets only the listening one is part of the state.
mod Prelude
pub mod Activity
pub mod Agent
pub mod Auth
pub mod Backup
pub mod Batch
pub mod Cloud
pub mod Dashboard
pub mod Db
pub mod Device
pub mod Enforce
pub mod Family
pub mod Json
pub mod Limits
pub mod Network
pub mod RemoteView
pub mod Settings
pub mod Sync
pub mod Usage
