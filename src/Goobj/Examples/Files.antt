-- ===== src/Goobj/Examples/Files.antt =====
-- An object file of two symbols at which the theorem on stored contents holds.
use goc.Prelude.{
  ◌≡◌, refl, arith, ◌<◌, ◌^◌, some, [], ◌∷◌, ◌++◌, codes, length, get_elem?, replicate,
}
use goc.Gocobj.Codec.{Bytes}
use goc.Gometa.{Meta, find}
use goc.Goobj.Le.{le_bytes}
use goc.Goobj.Link.{Link, done}
use goc.Goobj.Write.{aux}
use goc.Goobj.Write.Object.{
  block_index, find_block, Out, mark, each_sym, put_index, put_relocs, sort_relocs, patch,
  put_records,
}
use goc.Goobj.Read.{Reader, at_block, data_of}
use goc.Goobj.Read.Stored.{data_of-put_records}
use goc.Goobj.Examples.{release, object, datum}

abbrev six_blocks : Meta
six_blocks = record release {
  object = record release.object {
    blocks =
        codes "Autolib"
        ∷ codes "RelocIdx"
        ∷ codes "AuxIdx"
        ∷ codes "DataIdx"
        ∷ codes "Data"
        ∷ codes "End"
        ∷ [];
  };
}

abbrev two_symbols : Link
two_symbols = record object {
  meta = six_blocks;
  defs = 0 ∷ [];
  nonpkgdefs = 1 ∷ [];
  heap = λ _. record datum { p = 5 ∷ 6 ∷ []; r = [] };
}

-- Four bytes of header, and the six offsets.
abbrev header_only : Out
header_only = record { w = record { b = replicate 28 0; strs = [] }; offsets = replicate 6 0 }

abbrev no_hash : Bytes → Bytes
no_hash b = []

abbrev stored : Out
stored = record {
  w = record {
    b =
        replicate 28 0
        ++ (0 ∷ 0 ∷ 0 ∷ 0 ∷ 0 ∷ 0 ∷ 0 ∷ 0 ∷ 0 ∷ 0 ∷ 0 ∷ 0 ∷ 0 ∷ 0 ∷ 0 ∷ 0 ∷ 0 ∷ 0 ∷ 0 ∷ 0 ∷ 0 ∷ 0
            ∷ 0 ∷ 0 ∷ 0 ∷ 0 ∷ 0 ∷ 0 ∷ 2 ∷ 0 ∷ 0 ∷ 0 ∷ 4 ∷ 0 ∷ 0 ∷ 0 ∷ 5 ∷ 6 ∷ 5 ∷ 6 ∷ []);
    strs = [];
  };
  offsets = 68 ∷ 28 ∷ 40 ∷ 52 ∷ 64 ∷ 68 ∷ [];
}

records_are_put : put_records no_hash no_hash two_symbols header_only ≡ done stored
unfolding put_records mark block_index put_index le_bytes each_sym put_relocs sort_relocs aux
records_are_put = refl

abbrev stored_reader : Reader
stored_reader = record {
  meta = six_blocks;
  header = [];
  b = patch 4 stored.offsets stored.w.b;
  off = (codes "DataIdx", 52) ∷ (codes "Data", 64) ∷ [];
  nsym = [];
}

file_is_small : length stored_reader.b < 2 ^ 32
unfolding patch le_bytes
file_is_small = omega arith

index_block : find_block two_symbols (codes "DataIdx") ≡ some 3
unfolding block_index
index_block = refl

data_block : find_block two_symbols (codes "Data") ≡ some 4
unfolding block_index
data_block = refl

index_offset : get_elem? stored.offsets 3 ≡ some (at_block stored_reader (codes "DataIdx"))
unfolding find
index_offset = refl

data_offset : get_elem? stored.offsets 4 ≡ some (at_block stored_reader (codes "Data"))
unfolding find
data_offset = refl

data_of-put_records_example : data_of stored_reader 1 ≡ some (5 ∷ 6 ∷ [])
data_of-put_records_example =
    data_of-put_records no_hash no_hash two_symbols header_only stored stored_reader 4 refl
      records_are_put refl (omega arith) file_is_small 1 1 3 4 refl index_block data_block
      index_offset data_offset
