-- ===== src/Tests.antt =====
-- The theorems at concrete inputs, and runs of the code on them.
mod Network
mod Rules
mod Orders
mod Form
mod Logs
mod Entries
mod Table
mod Detection
mod Peers
mod Pausing
mod Lists
mod Filter
mod Windows
mod Custom
mod Staged
