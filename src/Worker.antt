-- ===== src/Worker.antt =====
-- src/pq/worker.py. Its parts: the claims' queries (`Query`), how a child's end is read (`Child`), the
-- one-off tasks (`OneOff`), the schedules (`Periodic`), and what the child runs (`Runner`).
pub mod Query
pub mod Child
pub mod Shutdown
pub mod Wait
pub mod Maintenance
pub mod Slots
pub mod Concurrent
pub mod Loop
pub mod OneOff
pub mod Periodic
pub mod Runner
