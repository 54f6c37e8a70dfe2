-- ===== src/Solar.antt =====
-- solar/solar.go: a Prometheus collector that reads the registers of a solar inverter over Modbus.
pub mod Registers
pub mod Collector
pub mod Decoding
pub mod Scrapes
mod Examples
