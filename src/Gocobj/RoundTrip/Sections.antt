-- ===== src/Gocobj/RoundTrip/Sections.antt =====
-- A section of records: `records` takes back, in order, what the writer put into it.
use goc.Prelude.{ℕ, ◌+◌, ◌≡◌, List, [], ◌∷◌, ◌++◌, length, length-append, All}
use goc.Prelude.{All-map, append-nil, append_assoc, arith, Option}
use goc.Gocobj.Codec.{Bytes, IsU64, StrError, Rd, put_record, records, done}
use goc.Gocobj.Codec.RecordLoop.{Taken, no_more, next, records-Taken, le-length-put_record}
use goc.Gocobj.Format.{Reloc, DataEntry, Stackmap}
use goc.Gocobj.Read.{
  push, read_reloc, reloc_record, read_data, data_record, read_stackmap, stackmap_record,
}
use goc.Gocobj.Write.{Strings, Enc, each, as_record, encode_reloc, encode_data, encode_stackmap}
use goc.Gocobj.RoundTrip.Strings.{Extends, Extends-refl, Extends-trans, IsTable}
use goc.Gocobj.RoundTrip.Encodes.{Encodes, Encodes-last}
use goc.Gocobj.RoundTrip.Fields.{
  IsReloc, Encodes-reloc, IsData, Encodes-data, IsStackmap, Encodes-stackmap,
}

-- The section `w.0` and the string table `w.1` that the writer left.
pub record WroteSection {ℓ} {X : Type ℓ} (st : Strings) (w : Bytes × Strings) (m : Bytes → Rd X)
    (xs : List X) : Type ℓ where
  pub table : IsTable w.1
  pub grows : Extends st.strs w.1.strs
  pub taken :
      (tab : Bytes)
      → Extends w.1.strs tab
      → IsU64 (length tab)
      → IsU64 (length w.0)
      → (off : ℕ) (acc : List X) (se : Option StrError)
      → Taken (λ o ys. push (m tab) ys) off w.0 acc se (acc ++ xs)

pub wrote_section {ℓ} :
    {X : Type ℓ} (enc : X → Enc) (m : Bytes → Rd X) (xs : List X) (st : Strings)
    → All (λ x. Encodes (enc x) m x) xs
    → IsTable st
    → WroteSection st (each (λ x. as_record (enc x)) xs st) m xs
unfolding each as_record
wrote_section enc m [] st h t = record {
  table = t;
  grows = Extends-refl st.strs;
  taken = λ tab _ _ _ off acc se. rw append-nil no_more;
}
wrote_section enc m (x ∷ xs) st h t =
    let p = h.0.at st t in
    let q = wrote_section enc m xs (enc x st).1 h.1 p.table in
    record {
      table = q.table;
      grows = Extends-trans p.grows q.grows;
      taken = λ tab ext small fits off acc se.
          let body = (enc x st).0 in
          let rest = (each (λ y. as_record (enc y)) xs (enc x st).1).0 in
          let size = length-append (put_record body) rest in
          let one = (Encodes-last (λ y. acc ++ (y ∷ [])) h.0).at st t in
          let r = (one.reads tab (Extends-trans q.grows ext) small).at [] se in
          rw (← append_assoc acc (x ∷ []) xs) (
            next body (omega (arith, size, le-length-put_record body)) (rw (append-nil body) at r) (
              q.taken tab ext small (omega (arith, size)) (off + length (put_record body))
                (acc ++ (x ∷ [])) se));
    }

-- The string table that the writer leaves, once no section makes it longer than a uint64 counts.
module _ (st : Strings) (t : IsTable st) (tab : Bytes) (small : IsU64 (length tab))
    (se : Option StrError) where
  -- For a string table `st` that holds its own index, any longer table `tab` of less than 2 ^ 64 bytes
  -- and relocations whose fields have their widths and whose names have no NUL, in a section of less
  -- than 2 ^ 64 bytes:
  -- `Parse`'s loop over `.goc.relocs` takes back, in order and with no error, the relocations that
  -- the writer put there.
  pub records-relocs :
      (rls : List Reloc)
      → All IsReloc rls
      → Extends (each (λ rl. as_record (encode_reloc rl)) rls st).1.strs tab
      → IsU64 (length (each (λ rl. as_record (encode_reloc rl)) rls st).0)
      → records (reloc_record tab) (each (λ rl. as_record (encode_reloc rl)) rls st).0 [] se
        ≡ done rls se
  unfolding reloc_record
  records-relocs rls h ext fits = records-Taken _ (
      (wrote_section encode_reloc read_reloc rls st (All-map Encodes-reloc rls h) t).taken tab ext
        small fits 0 [] se)

  -- For a string table `st` that holds its own index, any longer table `tab` of less than 2 ^ 64 bytes and
  -- data entries whose fields have their widths, whose names have no NUL and whose bitmap has a bit for
  -- each word, in a section of less than 2 ^ 64 bytes: `Parse`'s loop over `.goc.data` takes back, in
  -- order and with no error, the entries that the writer put there.
  pub records-data :
      (ds : List DataEntry)
      → All IsData ds
      → Extends (each (λ d. as_record (encode_data d)) ds st).1.strs tab
      → IsU64 (length (each (λ d. as_record (encode_data d)) ds st).0)
      → records (data_record tab) (each (λ d. as_record (encode_data d)) ds st).0 [] se ≡ done ds se
  unfolding data_record
  records-data ds h ext fits = records-Taken _ (
      (wrote_section encode_data read_data ds st (All-map Encodes-data ds h) t).taken tab ext small
        fits 0 [] se)

  -- For a string table `st` that holds its own index, any longer table `tab` of less than 2 ^ 64 bytes and
  -- stack maps whose fields have their widths and whose names have no NUL, in a section of less than
  -- 2 ^ 64 bytes: `Parse`'s loop over `.goc.stackmaps` takes back, in order and with no error, the stack
  -- maps that the writer put there.
  pub records-stackmaps :
      (sms : List Stackmap)
      → All IsStackmap sms
      → Extends (each (λ sm. as_record (encode_stackmap sm)) sms st).1.strs tab
      → IsU64 (length (each (λ sm. as_record (encode_stackmap sm)) sms st).0)
      → records (stackmap_record tab) (each (λ sm. as_record (encode_stackmap sm)) sms st).0 [] se
        ≡ done sms se
  unfolding stackmap_record
  records-stackmaps sms h ext fits = records-Taken _ (
      (wrote_section encode_stackmap read_stackmap sms st (All-map Encodes-stackmap sms h) t).taken
        tab ext small fits 0 [] se)
