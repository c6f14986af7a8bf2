-- ===== src/Tests.antt =====
-- Small rings, files and processes, and runs of the model on them.
mod Fixtures
mod RingRuns
mod BytesRuns
mod DaemonRuns
mod SessionRuns
mod ClientRuns
mod SharedRuns
mod ParseRuns
mod PrintRuns
mod ServerRuns
mod BenchRuns
mod ToolRuns
