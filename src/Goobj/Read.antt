-- ===== src/Goobj/Read.antt =====
-- `Reader` of internal/goobj/read.go. `none` is Go's slice out of range; offsets are uint32.
pub mod Records
pub mod Spans
pub mod Stored
use goc.Prelude.{
  ℕ, zero, suc, ◌+◌, ◌-◌, ◌*◌, ◌/◌, ◌%◌, ◌^◌, Bool, true, false, not, ◌&&◌, ◌||◌, ◌==◌, ltb, leb,
  bytes_eq, codes, ◌⊎◌, inl, inr, if◌then◌else◌,
}
use goc.Prelude.{Option, none, some, List, [], ◌∷◌, ◌++◌, length, take, drop, get_elem?}
use goc.Gocobj.Codec.{Bytes}
use goc.Gometa.{StrMap, find, int_at, Meta, Builtin}
use goc.Goobj.Le.{le_at}
use goc.Goobj.FuncInfo.{SymRef, Read, FuncInfoData, decode_func_info}
use goc.Goobj.Text.{cut_prefix, has_prefix}

pub record Reader : Type 0 where
  pub meta : Meta
  pub header : Bytes
  pub b : Bytes
  pub off : StrMap ℕ
  pub nsym : List ℕ

-- `RSym`
pub record RSym : Type 0 where
  pub name : Bytes
  pub abi : ℕ
  pub type : ℕ
  pub flag : ℕ
  pub flag2 : ℕ
  pub siz : ℕ
  pub align : ℕ

-- `RReloc`, its int32 and int64 as bit patterns.
pub record RReloc : Type 0 where
  pub off : ℕ
  pub siz : ℕ
  pub type : ℕ
  pub add : ℕ
  pub sym : SymRef

-- `RAux`
pub record RAux : Type 0 where
  pub type : ℕ
  pub sym : SymRef

abbrev pub sym_size : ℕ
sym_size = 21

abbrev pub reloc_size : ℕ
reloc_size = 23

abbrev pub aux_size : ℕ
aux_size = 9

abbrev pub w32 : ℕ → ℕ
w32 x = x % 2 ^ 32

infixl 5 ◌>>=◌
abbrev pub ◌>>=◌ {ℓ κ} : {A : Type ℓ} {B : Type κ} → Option A → (A → Option B) → Option B
none >>= f = none
some a >>= f = f a

-- b[lo:hi]
unfoldable pub slice : Bytes → ℕ → ℕ → Option Bytes
slice b lo hi = if leb lo hi && leb hi (length b) then some (take (hi - lo) (drop lo b)) else none

unfoldable pub str_at : Bytes → ℕ → Option Bytes
str_at b off = do n ← le_at 4 b off; o ← le_at 4 b (w32 (off + 4)); slice b o (w32 (o + n))

unfoldable pub sym_record : Bytes → ℕ → Option RSym
sym_record b o = do
  name ← str_at b o
  abi ← le_at 2 b (w32 (o + 8))
  type ← le_at 1 b (w32 (o + 10))
  flag ← le_at 1 b (w32 (o + 11))
  flag2 ← le_at 1 b (w32 (o + 12))
  siz ← le_at 4 b (w32 (o + 13))
  align ← le_at 4 b (w32 (o + 17))
  some (record {
    name = name;
    abi = abi;
    type = type;
    flag = flag;
    flag2 = flag2;
    siz = siz;
    align = align;
  })

unfoldable pub reloc_record : Bytes → ℕ → Option RReloc
reloc_record b o = do
  off ← le_at 4 b o
  siz ← le_at 1 b (w32 (o + 4))
  type ← le_at 2 b (w32 (o + 5))
  add ← le_at 8 b (w32 (o + 7))
  pkg ← le_at 4 b (w32 (o + 15))
  index ← le_at 4 b (w32 (o + 19))
  some (record {
    off = off;
    siz = siz;
    type = type;
    add = add;
    sym = record { pkg_idx = pkg; sym_idx = index };
  })

unfoldable pub aux_record : Bytes → ℕ → Option RAux
aux_record b o = do
  type ← le_at 1 b o
  pkg ← le_at 4 b (w32 (o + 1))
  index ← le_at 4 b (w32 (o + 5))
  some (record { type = type; sym = record { pkg_idx = pkg; sym_idx = index } })

abbrev pub at_block : Reader → Bytes → ℕ
at_block r name = int_at r.off name

-- `Flags`
unfoldable pub flags : Reader → Option ℕ
flags r = le_at 4 r.b (length r.meta.object.magic + 8)

abbrev or_zero : Option ℕ → ℕ
or_zero none = 0
or_zero (some n) = n

-- `NSym` to `NNonpkgref` are the entries 0 to 4, and `NDef` their sum but the last.
abbrev pub nth_count : ℕ → Reader → ℕ
nth_count k r = or_zero (get_elem? r.nsym k)

unfoldable pub ndef : Reader → ℕ
ndef r = nth_count 0 r + nth_count 1 r + nth_count 2 r + nth_count 3 r

-- `Sym`
unfoldable pub sym : Reader → ℕ → Option RSym
sym r i = sym_record r.b (w32 (at_block r (codes "Symdef") + i * sym_size))

-- `NPkg`; the difference of the offsets is a uint32.
unfoldable pub npkg : Reader → ℕ
npkg r = w32 (at_block r (codes "File") + 2 ^ 32 - at_block r (codes "PkgIdx")) / 8

-- `Pkg`
unfoldable pub pkg_name : Reader → ℕ → Option Bytes
pkg_name r i = str_at r.b (w32 (at_block r (codes "PkgIdx") + i * 8))

-- The rounds of the loop of `Files`.
unfoldable pub strs_at : ℕ → Bytes → ℕ → Option (List Bytes)
strs_at zero b o = some []
strs_at (suc rounds) b o = do f ← str_at b o; rest ← strs_at rounds b (w32 (o + 8)); some (f ∷ rest)

-- `Files`: `o < end` holds for (end - o) / 8 rounds, rounded up, in a file below 4 GiB.
unfoldable pub files : Reader → Option (List Bytes)
files r =
    let o = at_block r (codes "File") in strs_at ((at_block r (codes "Symdef") + 7 - o) / 8) r.b o

-- `span`
unfoldable pub span : Reader → Bytes → ℕ → Option (ℕ × ℕ)
span r block i =
    let o = w32 (at_block r block + 4 * i) in
    le_at 4 r.b o >>= λ from. le_at 4 r.b (w32 (o + 4)) >>= λ to. some (from, to)

-- The records `k` to `k + n - 1` of a block.
unfoldable pub records {ℓ} : {A : Type ℓ} → ℕ → (ℕ → Option A) → ℕ → ℕ → ℕ → Option (List A)
records zero read base size k = some []
records (suc n) read base size k = do
  a ← read (w32 (base + k * size))
  rest ← records n read base size (k + 1)
  some (a ∷ rest)

-- `Relocs`
unfoldable pub relocs : Reader → ℕ → Option (List RReloc)
relocs r i = do
  s ← span r (codes "RelocIdx") i
  records (s.1 - s.0) (reloc_record r.b) (at_block r (codes "Reloc")) reloc_size s.0

-- `Auxs`
unfoldable pub auxs : Reader → ℕ → Option (List RAux)
auxs r i = do
  s ← span r (codes "AuxIdx") i
  records (s.1 - s.0) (aux_record r.b) (at_block r (codes "Aux")) aux_size s.0

-- `Data`
unfoldable pub data_of : Reader → ℕ → Option Bytes
data_of r i = do
  s ← span r (codes "DataIdx") i
  let base = at_block r (codes "Data")
  slice r.b (w32 (base + s.0)) (w32 (base + s.1))

-- `DecodeFuncInfo` of the reader.
unfoldable pub func_info : Reader → Bytes → Read FuncInfoData
func_info r b = decode_func_info b r.meta.writer.func_info_start_line

pub data ReaderError : Type 0 where
  not_go_object bad_header unknown_version no_magic truncated : ReaderError

pub data Opened : Type 0 where
  opened : Reader → Opened
  refused : ReaderError → Opened

-- bytes.IndexByte
unfoldable pub index_byte : ℕ → Bytes → Option ℕ
index_byte c [] = none
index_byte c (x ∷ b) =
    if x == c then some 0 else elim (index_byte c b) [ none ↦ none | some i ↦ some (suc i) ]

-- bytes.Index, as what stands from the match on.
unfoldable pub from_match : Bytes → Bytes → Option Bytes
from_match magic [] = if bytes_eq magic [] then some [] else none
from_match magic (x ∷ b) = if has_prefix (x ∷ b) magic then some (x ∷ b) else from_match magic b

abbrev pub is_space : ℕ → Bool
is_space c = (c == 0x20) || (leb 9 c && leb c 13)

-- strings.Fields of an ASCII text: the words before the one begun, and it.
unfoldable pub fields_loop : Bytes → Bytes → List Bytes
fields_loop [] word = if bytes_eq word [] then [] else word ∷ []
fields_loop (c ∷ s) word =
    if is_space c
    then (if bytes_eq word [] then fields_loop s [] else word ∷ fields_loop s [])
    else fields_loop s (word ++ (c ∷ []))

-- The offsets of the blocks, from the header.
unfoldable pub block_offsets : List Bytes → Bytes → ℕ → StrMap ℕ → Option (StrMap ℕ)
block_offsets [] b at off = some off
block_offsets (name ∷ names) b at off =
    le_at 4 b at >>= λ v. block_offsets names b (at + 4) ((name, v) ∷ off)

-- The number of symbol records between two offsets, whose difference is a uint32.
abbrev pub count_of : StrMap ℕ → Bytes → Bytes → ℕ
count_of off next block = w32 (int_at off next + 2 ^ 32 - int_at off block) / sym_size

abbrev pub counts : StrMap ℕ → List ℕ
counts off =
    count_of off (codes "Hashed64def") (codes "Symdef")
    ∷ count_of off (codes "Hasheddef") (codes "Hashed64def")
    ∷ count_of off (codes "Nonpkgdef") (codes "Hasheddef")
    ∷ count_of off (codes "Nonpkgref") (codes "Nonpkgdef")
    ∷ count_of off (codes "RefFlags") (codes "Nonpkgref")
    ∷ []

-- The decoding from the magic on; `none` is the panic.
unfoldable pub open_object : Bytes → Bytes → Meta → Option Opened
open_object file header m = elim (from_match m.object.magic file) [
  | none ↦ some (refused ReaderError.no_magic)
  | some b ↦
      let at = length m.object.magic + 8 + 4 in
      if ltb (length b) (at + 4 * length m.object.blocks)
      then some (refused ReaderError.truncated)
      else block_offsets m.object.blocks b at [] >>= λ off.
          some (opened (record { meta = m; header = header; b = b; off = off; nsym = counts off }))
]

module _ (for_version : Bytes → Option Meta) where
  -- The facts that the caller gives, or those of the release that the header names.
  abbrev pub facts : Option Meta → Option Bytes → ReaderError ⊎ Meta
  facts (some m) word = inr m
  facts none none = inl ReaderError.bad_header
  facts none (some v) = elim (for_version v) [
    | none ↦ inl ReaderError.unknown_version
    | some m ↦ inr m
  ]

  -- `NewReader`
  unfoldable pub new_reader : Bytes → Option Meta → Option Opened
  new_reader file m = elim (index_byte 0x0a file) [
    | none ↦ some (refused ReaderError.not_go_object)
    | some nl ↦
        if not (has_prefix file (codes "go object "))
        then some (refused ReaderError.not_go_object)
        else let header = take nl file in
          elim (facts m (get_elem? (fields_loop header []) 4)) [
            | inl e ↦ some (refused e)
            | inr m' ↦ open_object file header m'
          ]
  ]

-- `BuiltinName`, for an index that is not negative: the name and the ABI, and otherwise none.
unfoldable pub builtin_name : Reader → ℕ → Option Builtin
builtin_name r i = get_elem? r.meta.object.builtins i
