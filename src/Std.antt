-- ===== src/Std.antt =====
-- What the source uses of the C++ standard library.
pub mod Text
pub mod Heap
