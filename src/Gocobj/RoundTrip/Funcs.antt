-- ===== src/Gocobj/RoundTrip/Funcs.antt =====
-- A record of `.goc.funcs`, in the fields of minor version 2 and later.
use goc.Prelude.{ℕ, ◌≤◌, List, [], length, length-append, All, All-map, arith}
use goc.Prelude.{ltb, lt→ltb, le→leb, ◌++◌}
use goc.Gocobj.Codec.{Bytes, IsU64, Rd, ◌>>=◌, read_uleb}
use goc.Gocobj.Codec.Varint.{length-put_uleb}
use goc.Gocobj.Format.{IsCString, Func}
use goc.Gocobj.Read.{left, when, find_ref, nil_slice, Decoded, read_slots, read_func}
use goc.Gocobj.Write.{Strings, Enc, uleb, ◌▸◌, each, encode_func}
use goc.Gocobj.RoundTrip.Encodes.{
  Encodes, Encodes-seq, Encodes-last, Encodes-u8, Encodes-uleb, Encodes-str,
}
use goc.Gocobj.RoundTrip.Loops.{Encodes-list, takes-put_uleb}

-- A field that is read only where the record goes on, and it does.
Encodes-present {ℓ κ} :
    {A : Type ℓ} {B : Type κ} {f : Enc} (m : Bytes → Rd A) (default : A) (k : Bytes → A → Rd B)
    {b : B}
    → ((st : Strings) → 1 ≤ length (f st).0)
    → Encodes f (λ tab. m tab >>= k tab) b
    → Encodes f (λ tab. left >>= λ n. (when (ltb 0 n) (m tab) default >>= k tab)) b
Encodes-present {f = f} m default k takes p = record {
  at = λ st t.
      let w = p.at st t in
      record {
        table = w.table;
        grows = w.grows;
        reads = λ tab ext small. record {
          at = λ rest se.
              rw
                (lt→ltb 0 (length ((f st).0 ++ rest))
                  (omega (arith, takes st, length-append (f st).0 rest)))
                ((w.reads tab ext small).at rest se);
        };
      };
}

pub record IsFunc (fn : Func) : Type 0 where
  pub name : IsCString fn.name
  pub text_size : IsU64 fn.text_size
  pub frame_size : IsU64 fn.frame_size
  pub arg_size : IsU64 fn.arg_size
  pub flags : IsU64 fn.flags
  pub file : IsU64 fn.file
  pub start_line : IsU64 fn.start_line
  pub sysv_ptr_regs : IsU64 fn.sysv_ptr_regs
  pub count : IsU64 (length fn.sptr_slots)
  pub sptr_slots : All IsU64 fn.sptr_slots

-- The function with the offsets of its decoded tables, and what these refer to.
abbrev pub referring : Decoded → Func → ℕ → ℕ → ℕ → Func
referring d fn pcv_off gc_off inl_off = record fn {
  pc_value = nil_slice (find_ref d.pcv pcv_off);
  inl = nil_slice (find_ref d.inls inl_off);
  gc = find_ref d.gcs gc_off;
  pcv_off = pcv_off;
  gc_off = gc_off;
  inl_off = inl_off;
}

takes-uleb : (v : ℕ) (st : Strings) → 1 ≤ length (uleb v st).0
takes-uleb v st = length-put_uleb v

Encodes-slots :
    (xs : List ℕ)
    → IsU64 (length xs)
    → All IsU64 xs
    → Encodes (uleb (length xs) ▸ each uleb xs) (λ tab. read_slots) xs
unfolding read_slots
Encodes-slots xs count h =
    Encodes-seq _ (Encodes-uleb (length xs) count)
      (Encodes-list uleb (λ tab. read_uleb) xs (All-map Encodes-uleb xs h) takes-uleb)

pub Encodes-func :
    (minor : ℕ) (fn : Func) (d : Decoded) (p g i : ℕ)
    → 2 ≤ minor
    → IsFunc fn
    → IsU64 p
    → IsU64 g
    → IsU64 i
    → Encodes (encode_func minor fn p g i) (λ tab. read_func tab d) (referring d fn p g i)
unfolding encode_func read_func
Encodes-func minor fn d p g i new h hp hg hi =
    rw (le→leb 1 minor (omega arith), le→leb 2 minor new)
      (Encodes-seq _ (Encodes-str fn.name h.name) (
        Encodes-seq _ (Encodes-uleb fn.text_size h.text_size) (
          Encodes-seq _ (Encodes-uleb fn.frame_size h.frame_size) (
            Encodes-seq _ (Encodes-uleb fn.arg_size h.arg_size) (
              Encodes-seq _ (Encodes-u8 fn.abi) (
                Encodes-seq _ (Encodes-u8 fn.kind) (
                  Encodes-seq _ (Encodes-uleb fn.flags h.flags) (
                    Encodes-seq _ (Encodes-u8 fn.func_id) (
                      Encodes-seq _ (Encodes-uleb fn.file h.file) (
                        Encodes-seq _ (Encodes-uleb fn.start_line h.start_line) (
                          Encodes-seq _ (Encodes-uleb p hp) (
                            Encodes-seq _ (Encodes-uleb g hg) (
                              Encodes-seq _ (Encodes-uleb i hi) (
                                Encodes-present (λ tab. read_uleb) 0 _
                                  (takes-put_uleb fn.sysv_ptr_regs
                                    (uleb (length fn.sptr_slots) ▸ each uleb fn.sptr_slots))
                                  (Encodes-seq _ (Encodes-uleb fn.sysv_ptr_regs h.sysv_ptr_regs) (
                                    Encodes-present (λ tab. read_slots) [] _
                                      (takes-put_uleb (length fn.sptr_slots)
                                        (each uleb fn.sptr_slots))
                                      (Encodes-last _ (
                                        Encodes-slots fn.sptr_slots h.count
                                          h.sptr_slots))))))))))))))))))
