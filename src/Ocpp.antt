-- ===== src/Ocpp.antt =====
-- ocpp/: the central system for electric vehicle chargers.
pub mod Types
pub mod Handler
pub mod Events
pub mod Consistent
pub mod Writes
pub mod Invariant
pub mod Callbacks
pub mod Runs
pub mod Frame
pub mod Errors
pub mod Transactions
pub mod Sessions
pub mod Ledger
pub mod LedgerWrites
pub mod LedgerSteps
pub mod LedgerRuns
pub mod Exclusive
pub mod Store
pub mod Fresh
pub mod Restart
pub mod Start
pub mod StartAgain
pub mod Http
pub mod Routes
pub mod PageSpec
pub mod HttpGuards
pub mod HttpLinks
pub mod Visit
pub mod HttpReplies
pub mod Index
pub mod PageText
pub mod Markup
pub mod PageForms
pub mod PageRead
pub mod PageShows
pub mod PageActions
pub mod Shown
pub mod ShownWrites
pub mod ShownRuns
mod Examples
mod LedgerExamples
mod StoreExamples
mod StartExamples
mod HttpExamples
mod PageExamples
