-- ===== src/Gocobj/Format/PcKind.antt =====
-- The kinds of pc-value tables that the code names (format.go).
use goc.Prelude.{ℕ}

abbrev pub sp_delta : ℕ
sp_delta = 1

abbrev pub file : ℕ
file = 2

abbrev pub line : ℕ
line = 3

abbrev pub unsafe_point : ℕ
unsafe_point = 4

abbrev pub inl_index : ℕ
inl_index = 5

-- `pcLast`, the first value that is no kind.
abbrev pub last : ℕ
last = 7
