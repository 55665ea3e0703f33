-- ===== src/Examples/Passes.antt =====
-- Small functions for the theorems on the passes of qumir/ir/passes.
use qumir.Prelude.{
  true, ℕ, zero, suc, ◌-◌, ◌^◌, ◌<◌, ℤ, pos, negsuc, false, some, List, [], ◌∷◌, ◌++◌, map, ◌≡◌,
  ◌≢◌, inl, inr, refl, arith, lookup, insert, get_elem?, get_elem?-lt, String, Eq-int, Bool-cases,
  int_eq, int_eq_iff, ◌∙◌, sym,
}
use qumir.Ir.Types.{primitive, structure_of}
use qumir.Ir.Types.Classes.{is_float, is_integer, is_unsigned, is_pointer, get_kind}
use qumir.Ir.Types.Describe.{request}
use qumir.Ir.Instr.{
  cleared, operand_eq, Module, Operand, tmp, imm, label, Instr, Block, Function, op_code,
  get_tmp_type,
}
use qumir.Ir.Alu.{Doubles, divide, irem_s, select_op, eval_alu}
use qumir.Ir.Passes.Renumber.{
  renumber_registers, for_each, renumber_block, renumber_instr, renumber_dest, renumber_operand,
  get_new_tmp_idx, type_of_tmp,
}
use qumir.Ir.Passes.Renumber.Renamed.{rename_block, IsOneToOne, InSome, InBlock}
use qumir.Ir.Passes.Renumber.Renaming.{final_numbering, renumber-rename}
use qumir.Ir.Passes.Cfg.{build_cfg, edges, set_successors, successors, jump_target, branch_targets}
use qumir.Ir.Passes.Cfg.Edges.{sources, IsLabelled}
use qumir.Ir.Passes.Cfg.{compute_rpo, dfs, visit_all, contains}
use qumir.Ir.Passes.Cfg.Search.{Distinct, IsLinked}
use qumir.Ir.Passes.Cfg.Rpo.{compute_rpo_lem, compute_rpo_closed}
use qumir.Ir.Passes.Cfg.Preds.{build_cfg_preds}
use qumir.Ir.Passes.DeSsa.{copies}
use qumir.Ir.Passes.DeSsa.Copies.{run_moves, assigned, copies_parallel}
use qumir.Ir.Passes.ConstFold.{fold_binary, fold_imms, apply_signed}
use qumir.Ir.Passes.ConstFold.Pass.{
  done, calc_users, rounds, round, visit, fold_instr, replace_tmp_with_op, operand_type_id, is128,
  any_is128, const_fold, out_of_fuel,
}
use qumir.Ir.Passes.ConstFold.Sound.{read_operand, fold_binary_sound}
use qumir.Ir.Passes.ConstFold.Ends.{const_fold_ends}
use qumir.Examples.Types.{byte_and_long}

-- Some arithmetic in the place of that on doubles; the functions here have no double.
abbrev no_doubles : Doubles
no_doubles = record {
  fadd_bits = λ a b. a;
  fsub_bits = λ a b. a;
  fmul_bits = λ a b. a;
  fdiv_bits = λ a b. a;
  fis_zero = λ a. false;
}

abbrev long_imm : ℕ → Operand
long_imm v = imm (record { value = v; type_id = pos 1 })

-- `7 / -2` is `-3`.
fold_binary_sound_example : read_operand (λ x. 0) (long_imm (2 ^ 64 - 3)) ≡ some (2 ^ 64 - 3)
unfolding fold_binary fold_imms apply_signed is_integer is_unsigned is_pointer is_float get_kind
    select_op eval_alu request primitive structure_of lookup insert
fold_binary_sound_example =
    fold_binary_sound no_doubles byte_and_long (λ x. negsuc 0) (λ x. 0) divide (pos 1) (long_imm 7)
      (long_imm (2 ^ 64 - 2)) (long_imm (2 ^ 64 - 3)) (2 ^ 64 - 3) (λ x. omega arith) refl refl refl
      refl refl

-- `%7 = 1 + 2`, `%5 = %7 + %7`, `ret %5`
abbrev sums : Function
sums = record {
  blocks =
      record {
        label_idx = 0;
        phis = [];
        instrs =
            record { op = op_code "+"; dest = pos 7; operands = long_imm 1 ∷ long_imm 2 ∷ [] }
            ∷ record { op = op_code "+"; dest = pos 5; operands = tmp (pos 7) ∷ tmp (pos 7) ∷ [] }
            ∷ record { op = op_code "ret"; dest = negsuc 0; operands = tmp (pos 5) ∷ [] }
            ∷ [];
        succ = [];
        preds = [];
      }
      ∷ [];
  local_types = [];
  tmp_types = pos 1 ∷ pos 1 ∷ pos 1 ∷ pos 1 ∷ pos 1 ∷ pos 1 ∷ pos 1 ∷ pos 1 ∷ [];
  label2idx = pos 0 ∷ [];
  cfg_built = false;
  next_tmp_idx = 8;
  next_label_idx = 1;
}

-- `-7 % 2` is `-1`.
odd_remainder : eval_alu no_doubles irem_s (2 ^ 64 - 7) 2 ≡ some (2 ^ 64 - 1)
unfolding eval_alu
odd_remainder = refl

abbrev longs : Module
longs = record { types = byte_and_long; global_types = [] }

const_fold_ends_example : const_fold no_doubles longs sums ≢ out_of_fuel
const_fold_ends_example = const_fold_ends no_doubles longs sums

abbrev no_memory : Operand → ℕ
no_memory o = 0

-- Each register holds its number.
abbrev numbers : ℤ → ℕ
numbers (pos n) = n
numbers (negsuc n) = 0

-- Registers 0 and 1 are exchanged.
copies_parallel_example :
    (g : Function) × (pre : List Instr) × (post : List Instr) × (copies
        ((pos 0, tmp (pos 1)) ∷ (pos 1, tmp (pos 0)) ∷ [])
        sums
      ≡ some (g, pre, post))
    × (run_moves no_memory (pre ++ post) numbers (pos 0)
        ≡ assigned no_memory
            ((pos 0, tmp (pos 1)) ∷ (pos 1, tmp (pos 0)) ∷ [])
            numbers
            numbers
            (pos 0))
copies_parallel_example =
    copies_parallel no_memory sums ((pos 0, tmp (pos 1)) ∷ (pos 1, tmp (pos 0)) ∷ []) numbers
      (pos 0)
      (
        omega arith,
        omega arith,
        (λ e. absurd (ground arith), tt),
        (omega arith, omega arith, tt, tt),
      )
      (omega arith)

sums_typed :
    (k : ℤ) (n : ℕ)
    → lookup k (final_numbering sums).mapping ≡ some n
    → (t : ℤ) × (type_of_tmp sums.tmp_types k ≡ some t)
unfolding final_numbering for_each renumber_block renumber_instr renumber_dest renumber_operand
    get_new_tmp_idx lookup insert
sums_typed k n h = elim (Bool-cases (int_eq (pos 7) k)) [
  | inl e ↦ let q = (int_eq_iff (pos 7) k).0 e in (pos 1, rw (← q) refl)
  | inr e ↦ elim (Bool-cases (int_eq (pos 5) k)) [
    | inl e' ↦ let q = (int_eq_iff (pos 5) k).0 e' in (pos 1, rw (← q) refl)
    | inr e' ↦ absurd (ground arith)
  ]
]

renumber-rename_example :
    (g : Function) × (renumber_registers sums ≡ some g)
    × (g.blocks ≡ map (rename_block (final_numbering sums)) sums.blocks)
    × IsOneToOne (final_numbering sums)
    × ((k : ℤ)
        → InSome InBlock sums.blocks k
        → (n : ℕ) × (lookup k (final_numbering sums).mapping ≡ some n)
          × (n < (final_numbering sums).next))
    × ((k : ℤ) (n : ℕ)
        → lookup k (final_numbering sums).mapping ≡ some n
        → get_tmp_type g (pos n) ≡ get_tmp_type sums k)
renumber-rename_example = renumber-rename sums sums_typed

-- `sums`, renumbered.
abbrev dense_sums : Function
dense_sums = record sums {
  blocks =
      record {
        label_idx = 0;
        phis = [];
        instrs =
            record { op = op_code "+"; dest = pos 0; operands = long_imm 1 ∷ long_imm 2 ∷ [] }
            ∷ record { op = op_code "+"; dest = pos 1; operands = tmp (pos 0) ∷ tmp (pos 0) ∷ [] }
            ∷ record { op = op_code "ret"; dest = negsuc 0; operands = tmp (pos 1) ∷ [] }
            ∷ [];
        succ = [];
        preds = [];
      }
      ∷ [];
  tmp_types = pos 1 ∷ pos 1 ∷ [];
}

-- A loop: block 0 jumps to block 1, which jumps to itself or returns through block 2.
abbrev loop_block : ℕ → String → List Operand → List ℕ → Block
loop_block l op operands succ = record {
  label_idx = l;
  phis = [];
  instrs = record { op = op_code op; dest = negsuc 0; operands = operands } ∷ [];
  succ = succ;
  preds = [];
}

abbrev loop_blocks : List ℕ → List ℕ → List Block
loop_blocks first second =
    loop_block 0 "jmp" (label 1 ∷ []) first
    ∷ loop_block 1 "cmp" (tmp (pos 0) ∷ label 1 ∷ label 2 ∷ []) second
    ∷ loop_block 2 "ret" [] []
    ∷ []

abbrev loop : Function
loop = record sums { blocks = loop_blocks [] [] }

loop-IsLabelled : IsLabelled (loop_blocks [] [])
loop-IsLabelled = record {
  bound = bound;
  distinct = λ i j b c p q e. label_place i b p ∙ e ∙ sym (label_place j c q);
}
  where
    label_place : (i : ℕ) (b : Block) → get_elem? (loop_blocks [] []) i ≡ some b → i ≡ b.label_idx
    label_place zero b h = ground arith
    label_place (suc zero) b h = ground arith
    label_place (suc (suc zero)) b h = ground arith
    label_place (suc (suc (suc i))) b h = absurd (ground arith)

    bound : (i : ℕ) (b : Block) → get_elem? (loop_blocks [] []) i ≡ some b → b.label_idx < 3
    bound i b h = omega (arith, label_place i b h, get_elem?-lt (loop_blocks [] []) i b h)

build_cfg_preds_example :
    (g : Function) × (build_cfg loop ≡ some g)
    × (get_elem? g.blocks 1
        ≡ some (record (loop_block 1 "cmp" (tmp (pos 0) ∷ label 1 ∷ label 2 ∷ []) (1 ∷ 2 ∷ [])) {
          preds = sources 1 (edges (loop_blocks (1 ∷ []) (1 ∷ 2 ∷ [])));
        }))
unfolding set_successors successors jump_target branch_targets
build_cfg_preds_example =
    build_cfg_preds loop (loop_blocks (1 ∷ []) (1 ∷ 2 ∷ [])) 1
      (loop_block 1 "cmp" (tmp (pos 0) ∷ label 1 ∷ label 2 ∷ []) (1 ∷ 2 ∷ [])) refl refl
      loop-IsLabelled
      (
        (1, loop_block 1 "cmp" (tmp (pos 0) ∷ label 1 ∷ label 2 ∷ []) (1 ∷ 2 ∷ []), refl, refl),
        (
          (1, loop_block 1 "cmp" (tmp (pos 0) ∷ label 1 ∷ label 2 ∷ []) (1 ∷ 2 ∷ []), refl, refl),
          ((2, loop_block 2 "ret" [] [], refl, refl), tt),
        ),
      )
      refl

-- `loop` with its edges.
abbrev built_loop : Function
built_loop = record sums {
  blocks = loop_blocks (1 ∷ []) (1 ∷ 2 ∷ []);
  label2idx = pos 0 ∷ pos 1 ∷ pos 2 ∷ [];
}

built_loop-IsLinked : IsLinked built_loop.label2idx built_loop.blocks 3
built_loop-IsLinked zero h = (1 ∷ [], refl, (omega arith, tt))
built_loop-IsLinked (suc zero) h = (1 ∷ 2 ∷ [], refl, (omega arith, (omega arith, tt)))
built_loop-IsLinked (suc (suc zero)) h = ([], refl, tt)
built_loop-IsLinked (suc (suc (suc l))) h = absurd (omega arith)

compute_rpo_lem_example :
    (rest : List ℕ) × (compute_rpo built_loop ≡ some (0 ∷ rest)) × Distinct (0 ∷ rest)
compute_rpo_lem_example = compute_rpo_lem built_loop (omega arith) built_loop-IsLinked

compute_rpo_closed_example : contains 2 (0 ∷ 1 ∷ 2 ∷ []) ≡ true
unfolding compute_rpo dfs visit_all
compute_rpo_closed_example =
    compute_rpo_closed built_loop (0 ∷ 1 ∷ 2 ∷ []) (1 ∷ 2 ∷ []) 1 2 (omega arith)
      built_loop-IsLinked refl refl refl refl

-- Blocks 0 and 1 both go to block 2, block 0 also to block 3: the edge from 0 to 2 is critical.
abbrev branching : Function
branching = record sums {
  blocks =
      record (loop_block 0 "cmp" (tmp (pos 0) ∷ label 2 ∷ label 3 ∷ []) (2 ∷ 3 ∷ [])) { preds = [] }
      ∷ loop_block 1 "jmp" (label 2 ∷ []) (2 ∷ [])
      ∷ record (loop_block 2 "ret" [] []) { preds = 0 ∷ 1 ∷ [] }
      ∷ record (loop_block 3 "ret" [] []) { preds = 0 ∷ [] }
      ∷ [];
  label2idx = pos 0 ∷ pos 1 ∷ pos 2 ∷ pos 3 ∷ [];
  next_label_idx = 4;
}

-- In block 2: `%1 = phi %2 from 0, %3 from 1`.
abbrev joins : List Instr
joins =
    record {
      op = op_code "phi";
      dest = pos 1;
      operands = tmp (pos 2) ∷ label 0 ∷ tmp (pos 3) ∷ label 1 ∷ [];
    }
    ∷ []

-- The sums are folded: `ret 6` is left.
sums_folded :
    const_fold no_doubles longs sums
    ≡ done (
        record {
          label_idx = 0;
          phis = [];
          instrs =
              cleared
              ∷ cleared
              ∷ record { op = op_code "ret"; dest = negsuc 0; operands = long_imm 6 ∷ [] }
              ∷ [];
          succ = [];
          preds = [];
        }
        ∷ [])
unfolding const_fold calc_users rounds round visit fold_instr replace_tmp_with_op operand_type_id
    is128 any_is128 fold_binary fold_imms apply_signed cleared operand_eq get_tmp_type is_integer
    is_unsigned is_pointer is_float get_kind request primitive structure_of lookup insert
sums_folded = refl
