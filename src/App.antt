-- ===== src/App.antt =====
-- internal/app/app.go: the assembly of the process. Each goroutine that `Run` starts and that has a logic of its own is a module
-- here; `Run` itself restores the gates, then starts them.
pub mod Restore
pub mod Telemetry
pub mod Status
pub mod Sweep
pub mod Drain
pub mod Wiring
