-- ===== src/Lib.antt =====
-- goc compiles C for Go. Its LLVM back end writes .gocobj files, ELF objects with .goc.* sections;
-- internal/gocobj reads, writes and checks these, and internal/lower plans the thunks between Go's
-- register ABI and C's System V ABI for functions that it reads as LLVM text; internal/convert makes Go
-- objects of .gocobj files by internal/goobj, which writes and reads the toolchain's object format with
-- the facts of a release (internal/gometa).
--
-- Prelude            tests, lists, integers and bits that the parts share.
-- Gocobj/Codec       internal/gocobj/codec.go. `Buf` is `buf`; a reader `Rd A` is a method of it or the
--                    part of a callback that reads, with the variable strErr of Parse as a field; `stop`
--                    is a callback's own error. Codec/RecordLoop is about `records`.
-- Gocobj/Format      internal/gocobj/format.go. Strings are lists of bytes, unsigned fields their values.
-- Gocobj/Read        internal/gocobj/read.go: the callbacks of the sections; Read/Parse composes them in
--                    the order of Parse.
-- Gocobj/Write       internal/gocobj/write.go: Builder.Sections. A piece of it (`Enc`) takes the string
--                    table and gives its bytes and the table; `each` and `as_record` are its loops.
-- Gocobj/RoundTrip   what Read makes of what Write wrote: strings, loops, records, sections. RoundTrip/FuncList
--                    is the loop of Sections over the functions, with the tables in sections of their own.
-- Gocobj/Abi         internal/gocobj/abi.go.
-- Gocobj/Verify      internal/gocobj/verify.go: a violation is a place and a fault, one for each message,
--                    in the order of the messages.
-- Lower/Types        scalar, atoi and splitTopLevel (internal/lower/goabi_layout.go, goabi.go,
--                    goabi_parse.go).
-- Lower/Layout       internal/lower/goabi_layout.go: aggregateLayout, assignParams, outgoingBytes. The
--                    counters of each convention are a `Cursor`; `panicked` is Go's index out of range.
-- Lower/Returns      abiFor of internal/lower/goabi_parse.go and returnAssignment of goabi_layout.go.
-- Lower/GoArgs       internal/lower/goargs.go: the spill slots of the register arguments.
-- Lower/GoTypes      goType and goParamType of goabi_layout.go, matchingParen of goabi_parse.go.
-- Convert/PcTab      internal/convert/pctab.go: pcbytes in its two loops, stackmaps. PcTab/Decode puts it
--                    together with the decoder of internal/goobj/diff.go.
-- Convert/Arm64      internal/convert/arm64.go: the loop over a function's relocations with what `pair` uses
--                    up as a flag; resolveTarget is an argument.
-- Convert/RelocMap   internal/convert/relocmap.go: the table gv as one function for each map, profileFor.
-- Gometa             the facts that goobj uses and `check` of internal/gometa/meta.go.
-- Goobj/Link         internal/goobj/link.go: the link with its symbols on a heap; a `*Sym` is an address.
--                    Goobj/Text is InitText to PathToPrefix, Goobj/Flush is Flush, and Goobj/Build has
--                    the calls before it as a step relation. Offsets of writes are not negative.
-- Goobj/Dwarf        internal/goobj/dwarf.go.
-- Goobj/Number       traverse and number of internal/goobj/write.go; the callback of a traversal works on
--                    the link and on what it captures.
-- Goobj/Write        the records of write.go, and in Write/Object the file that Write makes of them.
-- Goobj/Read         internal/goobj/read.go; Read/Stored puts Data together with the blocks of Write. Goobj/FuncInfo
--                    is the FuncInfo symbol of both.
-- Goobj/Diff         diffPCValue of internal/goobj/diff.go.
--
-- Bounds. encoding/binary's AppendUvarint and the loop of enc.sleb run on 9 rounds of fuel and a last
-- one, which is enough for 64 bits: the round trips of the codec hold for every value of 64 bits. The
-- loop of `records` has the section's length as fuel. Shifts, sums and products of uint64 wrap as in Go.
-- diffPCValue has the length of the table as fuel, and the `uleb` of the object writer ten rounds, which
-- a uint64 needs at most. Sizes and offsets of internal/lower are Go ints that stay below 2 ^ 63, and are
-- their values here; so are the lengths and indices of internal/goobj, whose lists stay below 2 ^ 31
-- entries. Offsets in an object file are uint32 and wrap.
--
-- Not modelled. debug/elf is outside: `Payloads` are the sections' bytes, and a `File` takes the ELF
-- symbols and the relocation targets as functions, so the loop over the symbols and elfCallRelocs are
-- left out. WriteAsm and Dump print, and so does internal/goobj/diff.go but for its decoder.
-- strings.TrimSpace and strings.Fields are the ones of ASCII text. crypto/sha256, crypto/sha1 and
-- gometa.ForVersion, which parses embedded JSON, are parameters. The thunks' text, the rest of the
-- converter to Go objects (internal/convert), the pipeline and the commands are left out.
pub mod Prelude
pub mod Gocobj
pub mod Lower
pub mod Gometa
pub mod Goobj
pub mod Convert
