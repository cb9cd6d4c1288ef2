-- ===== src/Std.antt =====
-- The containers of the C++ standard library that the program uses.
pub mod Order
pub mod Map
pub mod Text
pub mod CString
