-- ===== src/Flow.antt =====
-- src/agent/src/flow_tracker.c: frames are parsed, reduced to a canonical key and counted in a
-- table of flows that idle flows leave.
pub mod Frame
pub mod Key
pub mod Tree
pub mod Table
mod Tests
