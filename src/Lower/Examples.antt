-- ===== src/Lower/Examples.antt =====
-- Concrete types at which the theorems on internal/lower hold.
use goc.Prelude.{false, ℕ, ◌%◌, ◌≡◌, ◌≢◌, refl, arith, true, some, List, [], ◌∷◌, codes}
use goc.Lower.Types.{Text, int_bank, float_bank, scalar}
use goc.Lower.Layout.{AggLay, AbiSet, ok, panicked}
use goc.Lower.Types.{
  atoi_loop, all_digits, int_digits, has_prefix, trim_left, trim_right, trim_space, split_loop,
  split_top_level,
}
use goc.Lower.Layout.{lay_fields, crosses, repeats, ends_with, but_last, finish_layout, reg, stack}
use goc.Lower.Layout.{reg_at, field_regs, count_int, go_aggregate, sysv_aggregate, join_locs}
use goc.Lower.Layout.{go_scalar, sysv_scalar, assign_param, assign_loop}
use goc.Lower.Layout.{align_up, aggregate_layout, assign_params, AssignResult, outgoing_bytes}
use goc.Lower.Returns.{abi_for, amd64_set, return_assignment}
use goc.Lower.Returns.Safe.{return_assignment-ne-panicked}
use goc.Lower.GoArgs.{AbiParam, GoArgs, go_args_layout, spill_loop, spill_size}
use goc.Lower.GoArgs.Spills.{IsSpilled, go_args_layout-IsSpilled}
use goc.Lower.Layout.Fields.{IsLayout, aggregate_layout-IsLayout}
use goc.Lower.Layout.Assign.{assign_params-ne-panicked}
use goc.Lower.Layout.Words.{assign_params-words}

-- struct { void *p; double d; } in LLVM's spelling
abbrev pair : Text
pair = codes "{ ptr, double }"

abbrev pair_layout : AggLay
pair_layout = record {
  fields =
      record { type = codes "ptr"; bank = int_bank; size = 8; offset = 0 }
      ∷ record { type = codes "double"; bank = float_bank; size = 8; offset = 8 }
      ∷ [];
  size = 16;
  alignment = 8;
}

pair_is_laid : aggregate_layout pair true ≡ ok (some pair_layout)
unfolding scalar atoi_loop all_digits int_digits has_prefix trim_left trim_right trim_space
    split_loop split_top_level align_up lay_fields crosses repeats ends_with but_last finish_layout
    aggregate_layout
pair_is_laid = refl

aggregate_layout-IsLayout_example : IsLayout true pair_layout
aggregate_layout-IsLayout_example = aggregate_layout-IsLayout pair true (omega arith) pair_is_laid

-- Two integer registers and one of floats on both sides.
abbrev registers : AbiSet
registers = record {
  go_int = codes "RAX" ∷ codes "RBX" ∷ [];
  go_float = codes "X0" ∷ [];
  sysv_int = codes "RDI" ∷ codes "RSI" ∷ [];
  sysv_float = codes "X0" ∷ [];
  sysv_int_result = codes "RAX" ∷ codes "RDX" ∷ [];
  sysv_float_result = codes "X0" ∷ codes "X1" ∷ [];
}

-- The third integer goes to the stack.
abbrev params : List Text
params = codes "i32" ∷ pair ∷ codes "i64" ∷ codes "i32" ∷ []

assign_params-ne-panicked_example : assign_params registers params ≢ panicked
assign_params-ne-panicked_example = assign_params-ne-panicked registers params

abbrev assigned : AssignResult
assigned = record {
  params =
      record { type = codes "i32"; go = reg (codes "RAX"); sysv = reg (codes "RDI") }
      ∷ record { type = codes "ptr"; go = reg (codes "RBX"); sysv = reg (codes "RSI") }
      ∷ record { type = codes "double"; go = reg (codes "X0"); sysv = reg (codes "X0") }
      ∷ record { type = codes "i64"; go = stack 0; sysv = stack 0 }
      ∷ record { type = codes "i32"; go = stack 8; sysv = stack 8 }
      ∷ [];
  go_stack_size = 16;
  sysv_stack_size = 16;
}

params_are_assigned : assign_params registers params ≡ ok assigned
unfolding scalar atoi_loop all_digits int_digits has_prefix trim_left trim_right trim_space
    split_loop split_top_level align_up lay_fields crosses repeats ends_with but_last finish_layout
    aggregate_layout reg_at field_regs count_int go_aggregate sysv_aggregate join_locs go_scalar
    sysv_scalar assign_param assign_loop assign_params
params_are_assigned = refl

assign_params-words_example :
    (assigned.go_stack_size % 8 ≡ 0)
    × ((n : ℕ) × (outgoing_bytes assigned.sysv_stack_size ≡ some n) × (n % 16 ≡ 0))
assign_params-words_example = assign_params-words registers params assigned params_are_assigned

amd64_is_known : abi_for (codes "amd64") ≡ some amd64_set
unfolding abi_for
amd64_is_known = refl

return_assignment-ne-panicked_example : return_assignment amd64_set pair ≢ panicked
return_assignment-ne-panicked_example =
    return_assignment-ne-panicked (codes "amd64") pair amd64_set amd64_is_known (omega arith)

abbrev go_params : List AbiParam
go_params =
    record { type = codes "i32"; location = reg (codes "RAX") }
    ∷ record { type = codes "ptr"; location = reg (codes "RBX") }
    ∷ record { type = codes "ptr"; location = stack 0 }
    ∷ []

-- The argument area: 8 bytes of stack arguments, then 4 bytes for RAX and 8 for RBX.
abbrev spilled : GoArgs
spilled = record {
  spills =
      record { reg = codes "RAX"; off = 16; size = 4; ptr = false }
      ∷ record { reg = codes "RBX"; off = 24; size = 8; ptr = true }
      ∷ [];
  stack_ptrs = 0 ∷ [];
  size = 24;
}

go_params_are_spilled : go_args_layout 8 go_params ≡ some spilled
unfolding go_args_layout spill_loop spill_size align_up
go_params_are_spilled = refl

go_args_layout-IsSpilled_example : IsSpilled 8 spilled
go_args_layout-IsSpilled_example =
    go_args_layout-IsSpilled 8 go_params spilled (omega arith) go_params_are_spilled
