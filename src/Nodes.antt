-- ===== src/Nodes.antt =====
-- common/smarthouse.go: the nodes that report flow sensors over MQTT, and their Prometheus metrics.
pub mod Types
pub mod Sensors
pub mod Hellos
pub mod Valid
pub mod Steps
pub mod Setup
pub mod Runs
pub mod Specs
pub mod Reports
pub mod Registering
pub mod Clashes
pub mod Page
pub mod Start
pub mod StartUp
pub mod Sorting
pub mod PageSpec
pub mod PageShown
pub mod Adders
mod Examples
mod PageExamples
mod StartExamples
