-- ===== src/Goobj.antt =====
-- internal/goobj: Go object files.
pub mod Examples
pub mod Le
pub mod FuncInfo
pub mod Diff
pub mod Link
pub mod Dwarf
pub mod Text
pub mod Flush
pub mod Build
pub mod Number
pub mod Write
pub mod Read
