-- ===== src/Types.antt =====
-- The values of the four integer types and their operations: src/type and src/include/type.
pub mod Value
pub mod Arithmetic
pub mod Narrow
pub mod Exact
pub mod Divide
pub mod Methods
pub mod Tinyint
pub mod Smallint
pub mod Integer
pub mod Bigint
pub mod Dispatch
pub mod Switch
pub mod Comparisons
pub mod Results
pub mod Order
pub mod Cast
mod Tests
