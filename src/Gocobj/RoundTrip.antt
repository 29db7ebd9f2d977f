-- ===== src/Gocobj/RoundTrip.antt =====
-- What write.go writes, read.go reads back: the string table, the records, the sections, the file.
pub mod Strings
pub mod Encodes
pub mod Loops
pub mod Fields
pub mod Tables
pub mod Funcs
pub mod AddTable
pub mod FuncTables
pub mod FuncStep
pub mod FuncList
pub mod Sections
