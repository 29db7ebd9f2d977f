-- ===== src/Goobj/FuncInfo/Safe.antt =====
-- `decodeFuncInfo` reads no byte outside its argument.
use goc.Prelude.{
  ℕ, zero, suc, ◌+◌, ◌*◌, ◌≤◌, ◌≡◌, ◌≢◌, refl, arith, Bool, true, false, Bool-cases, inl, inr,
}
use goc.Prelude.{Option, none, some, length, ltb, if◌then◌else◌}
use goc.Gocobj.Codec.{Bytes}
use goc.Goobj.Le.{le_at, le_at-ne-none}
use goc.Goobj.FuncInfo.{
  Read, ok, short, panicked, ◌>>=◌, of_option, u_at, byte, words_at, node_at, nodes_at, at_least,
  decode_lists, decode_func_info,
}

pub >>=-ne-panicked {ℓ κ} :
    {A : Type ℓ} {B : Type κ} (r : Read A) (k : A → Read B)
    → r ≢ panicked
    → ((x : A) → r ≡ ok x → k x ≢ panicked)
    → (r >>= k) ≢ panicked
>>=-ne-panicked (ok x) k h g = g x refl
>>=-ne-panicked short k h g = λ e. cc
>>=-ne-panicked panicked k h g = absurd (h refl)

of_option-ne-panicked {ℓ} : {A : Type ℓ} (o : Option A) → o ≢ none → of_option o ≢ panicked
of_option-ne-panicked none h = absurd (h refl)
of_option-ne-panicked (some a) h = λ e. cc

u_at-ne-panicked : (b : Bytes) (o : ℕ) → o + 4 ≤ length b → u_at b o ≢ panicked
u_at-ne-panicked b o h = of_option-ne-panicked (le_at 4 b o) (le_at-ne-none 4 b o h)

byte-ne-panicked : (b : Bytes) (o : ℕ) → o + 1 ≤ length b → byte b o ≢ panicked
byte-ne-panicked b o h = of_option-ne-panicked (le_at 1 b o) (le_at-ne-none 1 b o h)

words_at-ne-panicked :
    (n : ℕ) (b : Bytes) (o : ℕ) → o + 4 * n ≤ length b → words_at n b o ≢ panicked
unfolding words_at
words_at-ne-panicked zero b o h = λ e. cc
words_at-ne-panicked (suc n) b o h =
    >>=-ne-panicked (u_at b o) _ (u_at-ne-panicked b o (omega arith)) (λ w _.
      >>=-ne-panicked (words_at n b (o + 4)) _ (words_at-ne-panicked n b (o + 4) (omega arith))
        (λ ws _ e. cc))

node_at-ne-panicked : (b : Bytes) (o : ℕ) → o + 24 ≤ length b → node_at b o ≢ panicked
unfolding node_at
node_at-ne-panicked b o h =
    >>=-ne-panicked (u_at b o) _ (u_at-ne-panicked b o (omega arith)) (λ parent _.
      >>=-ne-panicked (u_at b (o + 4)) _ (u_at-ne-panicked b (o + 4) (omega arith)) (λ file _.
        >>=-ne-panicked (u_at b (o + 8)) _ (u_at-ne-panicked b (o + 8) (omega arith)) (λ line _.
          >>=-ne-panicked (u_at b (o + 12)) _ (u_at-ne-panicked b (o + 12) (omega arith)) (λ pkg _.
            >>=-ne-panicked (u_at b (o + 16)) _ (u_at-ne-panicked b (o + 16) (omega arith))
              (λ index _.
                >>=-ne-panicked (u_at b (o + 20)) _ (u_at-ne-panicked b (o + 20) (omega arith))
                  (λ pc _ e. cc))))))

nodes_at-ne-panicked :
    (n : ℕ) (b : Bytes) (o : ℕ) → o + 24 * n ≤ length b → nodes_at n b o ≢ panicked
unfolding nodes_at
nodes_at-ne-panicked zero b o h = λ e. cc
nodes_at-ne-panicked (suc n) b o h =
    >>=-ne-panicked (node_at b o) _ (node_at-ne-panicked b o (omega arith)) (λ w _.
      >>=-ne-panicked (nodes_at n b (o + 24)) _ (nodes_at-ne-panicked n b (o + 24) (omega arith))
        (λ ws _ e. cc))

-- Behind the test, the bytes are there.
guarded {ℓ} :
    {B : Type ℓ} (b : Bytes) (n : ℕ) (k : Unit {0} → Read B)
    → (n ≤ length b → k tt ≢ panicked)
    → (at_least b n >>= k) ≢ panicked
guarded b n k h = elim (Bool-cases (ltb (length b) n)) [
  | inl p ↦ rw p (λ e. cc)
  | inr p ↦ rw p (h (ground arith))
]

start_line-ne-panicked :
    (b : Bytes) (start_line : Bool)
    → (if start_line then 16 else 12) + 4 ≤ length b
    → (if start_line then u_at b 12 else ok 0) ≢ panicked
start_line-ne-panicked b true h = u_at-ne-panicked b 12 (omega arith)
start_line-ne-panicked b false h = λ e. cc

head_fits :
    (b : Bytes) (start_line : Bool) → (if start_line then 16 else 12) + 4 ≤ length b → 16 ≤ length b
head_fits b true h = omega arith
head_fits b false h = omega arith

ok-ne-panicked {ℓ} : {A : Type ℓ} (x : A) → ok x ≢ panicked
ok-ne-panicked x = λ e. cc

decode_lists-ne-panicked : (b : Bytes) (o : ℕ) → o + 4 ≤ length b → decode_lists b o ≢ panicked
unfolding decode_lists
decode_lists-ne-panicked b o h = >>=-ne-panicked (u_at b o) _ (u_at-ne-panicked b o h) (λ n _.
    guarded b (o + 4 + 4 * n + 4) _ (λ files_fit.
      >>=-ne-panicked (words_at n b (o + 4)) _ (words_at-ne-panicked n b (o + 4) (omega arith))
        (λ files _.
          >>=-ne-panicked (u_at b (o + 4 + 4 * n)) _ (u_at-ne-panicked b (o + 4 + 4 * n) files_fit)
            (λ count _. guarded b (o + 4 + 4 * n + 4 + 24 * count) _ (λ nodes_fit.
              >>=-ne-panicked (nodes_at count b (o + 4 + 4 * n + 4)) _
                (nodes_at-ne-panicked count b (o + 4 + 4 * n + 4) nodes_fit)
                (λ nodes _. ok-ne-panicked (files, nodes)))))))

-- On all bytes and in both layouts, `decodeFuncInfo` returns an error or a value: it never reads outside
-- its argument.
pub decode_func_info-ne-panicked :
    (b : Bytes) (start_line : Bool) → decode_func_info b start_line ≢ panicked
unfolding decode_func_info
decode_func_info-ne-panicked b start_line =
    let o : ℕ = if start_line then 16 else 12 in
    guarded b (o + 4) _ (λ h.
      let fits = head_fits b start_line h in
      >>=-ne-panicked (u_at b 0) _ (u_at-ne-panicked b 0 (omega (arith, fits))) (λ args _.
        >>=-ne-panicked (u_at b 4) _ (u_at-ne-panicked b 4 (omega (arith, fits))) (λ locals _.
          >>=-ne-panicked (byte b 8) _ (byte-ne-panicked b 8 (omega (arith, fits))) (λ id _.
            >>=-ne-panicked (byte b 9) _ (byte-ne-panicked b 9 (omega (arith, fits))) (λ flag _.
              >>=-ne-panicked (if start_line then u_at b 12 else ok 0) _
                (start_line-ne-panicked b start_line h)
                (λ line _.
                  >>=-ne-panicked (decode_lists b o) _ (decode_lists-ne-panicked b o h)
                    (λ lists _. ok-ne-panicked _)))))))
