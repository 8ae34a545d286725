-- ===== src/Execution.antt =====
-- The executors of queries: src/execution and src/include/execution. An executor is its state with the
-- functions `Init` and `Next`; `Next` answers a row, or nothing at the end. The plan's expressions come
-- in as functions of the rows.
pub mod Executor
pub mod Limit
pub mod NestedLoopJoin
pub mod SeqScan
pub mod Aggregation
mod Tests
