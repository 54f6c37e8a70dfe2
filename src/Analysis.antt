-- ===== src/Analysis.antt =====
-- analysis/powerdb.go: pulses of an electricity meter, from hourly log files into half-hourly records.
-- analysis/provider-comparison.go: what those come to in the bills of each provider.
-- analysis/heatloss-analysis.go: the rate at which a room loses heat at night.
pub mod Periods
pub mod Pulses
pub mod Loops
pub mod Update
pub mod Resume
pub mod Stuck
pub mod Skipped
pub mod Folds
pub mod Hours
pub mod Rates
pub mod Windows
pub mod Scans
pub mod Nights
pub mod Verbose
pub mod Rooms
pub mod WholeRuns
pub mod Lines
pub mod RateBounds
pub mod Starts
pub mod Pace
pub mod Covered
pub mod Bills
pub mod Ranges
pub mod BillDates
pub mod Columns
mod Examples
mod NightExamples
mod UpdateExamples
mod FoldExamples
mod BillExamples
