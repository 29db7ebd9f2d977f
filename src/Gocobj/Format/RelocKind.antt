-- ===== src/Gocobj/Format/RelocKind.antt =====
-- The kinds of relocations that the code names (format.go).
use goc.Prelude.{ℕ}

abbrev pub call_indirect_mark : ℕ
call_indirect_mark = 2

-- `rLast`, the first value that is no kind.
abbrev pub last : ℕ
last = 12
