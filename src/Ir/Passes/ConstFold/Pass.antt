-- ===== src/Ir/Passes/ConstFold/Pass.antt =====
-- The loop of `ConstFold` over a function: the users of the temporaries, the replacement of a
-- temporary at its users, and the rounds until nothing changes.
use qumir.Prelude.{
  ℕ, zero, suc, ◌+◌, ℤ, pos, negsuc, Bool, true, false, ◌||◌, Option, none, some, List, [], ◌∷◌,
  ◌++◌, ◌>>=◌, ◌==◌, Eq-nat, Eq-int, get_elem?, lookup, insert, if◌then◌else◌,
}
use qumir.Ir.Types.{TypeTable}
use qumir.Ir.Types.Classes.{get_kind}
use qumir.Ir.Instr.{
  Module, Operand, tmp, slot, local, imm, label, Instr, Block, Function, operand_eq,
  operand_or_none, op_code, cleared, get_tmp_type,
}
use qumir.Ir.Alu.{binary_op, is_wide, Doubles}
use qumir.Ir.Passes.ConstFold.{Fold, keep, fault, replace, fold_binary, fold_not}

-- A run is done, or meets what C++ does not define, or needs more fuel.
pub data Outcome (A : Type 0) : Type 0 where
  done : A → Outcome A
  undefined : Outcome A
  out_of_fuel : Outcome A

-- A place of an instruction: a block and an index in it.
abbrev pub Place : Type 0
Place = ℕ × ℕ

-- The blocks, `users` and `phiUsers`.
pub record FoldState : Type 0 where
  pub blocks : List Block
  pub users : List (ℤ × List Place)
  pub phi_users : List (ℤ × List Place)

-- `map[k].push_back(p)`
abbrev pub push_user : ℤ → Place → List (ℤ × List Place) → List (ℤ × List Place)
push_user k p m = elim (lookup k m) [
  | some ps ↦ insert k (ps ++ p ∷ []) m
  | none ↦ insert k (p ∷ []) m
]

abbrev pub users_of_operands : Place → List Operand → List (ℤ × List Place) → List (ℤ × List Place)
users_of_operands p [] m = m
users_of_operands p (tmp i ∷ ops) m = users_of_operands p ops (push_user i p m)
users_of_operands p (o ∷ ops) m = users_of_operands p ops m

abbrev pub users_of_instrs : ℕ → ℕ → List Instr → List (ℤ × List Place) → List (ℤ × List Place)
users_of_instrs b i [] m = m
users_of_instrs b i (x ∷ xs) m =
    users_of_instrs b (i + 1) xs (users_of_operands (b, i) x.operands m)

abbrev pub users_of_blocks :
    (Block → List Instr) → ℕ → List Block → List (ℤ × List Place) → List (ℤ × List Place)
users_of_blocks part b [] m = m
users_of_blocks part b (x ∷ xs) m = users_of_blocks part (b + 1) xs (users_of_instrs b 0 (part x) m)

-- `calcUsers`
unfoldable pub calc_users : List Block → FoldState
calc_users bs = record {
  blocks = bs;
  users = users_of_blocks (λ b. b.instrs) 0 bs [];
  phi_users = users_of_blocks (λ b. b.phis) 0 bs [];
}

-- `map.erase(k)`
abbrev pub erase_users : ℤ → List (ℤ × List Place) → List (ℤ × List Place)
erase_users k [] = []
erase_users k ((j, ps) ∷ m) = let rest = erase_users k m in if j == k then rest else (j, ps) ∷ rest

abbrev pub replace_operands : ℤ → Operand → List Operand → List Operand
replace_operands t new [] = []
replace_operands t new (o ∷ ops) =
    (if operand_eq o (tmp t) then new else o) ∷ replace_operands t new ops

-- A change of the instruction at a place.
abbrev pub change_at : (Instr → Instr) → ℕ → List Instr → List Instr
change_at g i [] = []
change_at g zero (x ∷ xs) = g x ∷ xs
change_at g (suc i) (x ∷ xs) = x ∷ change_at g i xs

abbrev pub change_instr : (Instr → Instr) → Place → List Block → List Block
change_instr g (b, i) [] = []
change_instr g (zero, i) (x ∷ xs) = record x { instrs = change_at g i x.instrs } ∷ xs
change_instr g (suc b, i) (x ∷ xs) = x ∷ change_instr g (b, i) xs

abbrev pub change_phi : (Instr → Instr) → Place → List Block → List Block
change_phi g (b, i) [] = []
change_phi g (zero, i) (x ∷ xs) = record x { phis = change_at g i x.phis } ∷ xs
change_phi g (suc b, i) (x ∷ xs) = x ∷ change_phi g (b, i) xs

abbrev pub replace_in : ℤ → Operand → Instr → Instr
replace_in t new i = record i { operands = replace_operands t new i.operands }

abbrev pub at_places : (Place → List Block → List Block) → List Place → List Block → List Block
at_places change [] bs = bs
at_places change (p ∷ ps) bs = at_places change ps (change p bs)

abbrev pub places_of : ℤ → List (ℤ × List Place) → List Place
places_of t m = elim (lookup t m) [ some ps ↦ ps | none ↦ [] ]

-- `replaceTmpWithOp`
unfoldable pub replace_tmp_with_op : ℤ → Operand → FoldState → FoldState
replace_tmp_with_op t new s = record {
  blocks =
      at_places (change_phi (replace_in t new)) (places_of t s.phi_users)
        (at_places (change_instr (replace_in t new)) (places_of t s.users) s.blocks);
  users = erase_users t s.users;
  phi_users = erase_users t s.phi_users;
}

-- `operandTypeId`; a read out of bounds is `none`.
unfoldable pub operand_type_id : Module → Function → Operand → Option ℤ
operand_type_id m f (tmp i) = some (get_tmp_type f i)
operand_type_id m f (imm i) = some i.type_id
operand_type_id m f (slot i) = get_elem? m.global_types i
operand_type_id m f (local i) = get_elem? f.local_types i
operand_type_id m f (label i) = some (negsuc 0)

-- `is128`; the throw of `GetKind` is `none`.
unfoldable pub is128 : TypeTable → ℤ → Option Bool
is128 t (negsuc i) = some false
is128 t (pos i) = do k ← get_kind t (pos i); some (is_wide k)

-- The loop over the operands that looks for a 128-bit one.
unfoldable pub any_is128 : Module → Function → List Operand → Option Bool
any_is128 m f [] = some false
any_is128 m f (o ∷ ops) = do
  id ← operand_type_id m f o
  wide ← is128 m.types id
  elim wide [ true ↦ some true | false ↦ any_is128 m f ops ]

-- The result of `processInstr` for an instruction: how it folds.
unfoldable pub fold_instr : Doubles → Module → Function → Instr → Fold
unfolding operand_type_id is128 any_is128 fold_not fold_binary
fold_instr fl m f i =
    let d = get_tmp_type f i.dest in
    let unwide : Fold → Fold = λ r. elim (is128 m.types d) [
      | none ↦ fault
      | some true ↦ keep
      | some false ↦ elim (any_is128 m f i.operands) [
        | none ↦ fault
        | some true ↦ keep
        | some false ↦ r
      ]
    ] in
    if i.op == op_code "~" then unwide (fold_not m.types d i.operands) else elim (binary_op i.op) [
      | none ↦ keep
      | some op ↦ unwide (
          fold_binary fl m.types (get_tmp_type f) op d (operand_or_none i.operands 0)
            (operand_or_none i.operands 1))
    ]

abbrev pub Step : Type 0
Step = Outcome (FoldState × Bool)

-- The replacement of the result at its users, and `Clear`.
abbrev pub carry_out : Place → Instr → FoldState → Fold → Step
carry_out p i s keep = done (s, false)
carry_out p i s fault = undefined
carry_out p i s (replace r) =
    let s' = replace_tmp_with_op i.dest r s in
    done (record s' { blocks = change_instr (λ _. cleared) p s'.blocks }, true)

abbrev pub instr_at : Place → List Block → Option Instr
instr_at (b, i) bs = do x ← get_elem? bs b; get_elem? x.instrs i

abbrev pub is_empty : List Operand → Bool
is_empty [] = true
is_empty (o ∷ os) = false

-- The body of the inner loop.
unfoldable pub visit : Doubles → Module → Function → Place → FoldState → Step
unfolding fold_instr replace_tmp_with_op cleared
visit fl m f p s = elim (instr_at p s.blocks) [
  | none ↦ done (s, false)
  | some i ↦
      if i.op == op_code "nop" || is_empty i.operands
      then done (s, false)
      else carry_out p i s (fold_instr fl m f i)
]

abbrev pub note : Bool → Step → Step
note changed (done (s, c)) = done (s, changed || c)
note changed undefined = undefined
note changed out_of_fuel = out_of_fuel

-- The rest of a round after a step; `changed` stays set.
abbrev pub and_then : Step → (FoldState → Step) → Step
and_then (done (s, c)) rest = note c (rest s)
and_then undefined rest = undefined
and_then out_of_fuel rest = out_of_fuel

-- One round over the places, in the order of the blocks and of the instructions in them.
unfoldable pub round : Doubles → Module → Function → List Place → FoldState → Step
round fl m f [] s = done (s, false)
round fl m f (p ∷ ps) s = and_then (visit fl m f p s) (λ s'. round fl m f ps s')

abbrev pub places_in : ℕ → ℕ → List Instr → List Place
places_in b i [] = []
places_in b i (x ∷ xs) = (b, i) ∷ places_in b (i + 1) xs

abbrev pub places : ℕ → List Block → List Place
places b [] = []
places b (x ∷ xs) = places_in b 0 x.instrs ++ places (b + 1) xs

-- Another round if this one changed something.
abbrev pub while_changed : Step → (FoldState → Outcome FoldState) → Outcome FoldState
while_changed (done (s, true)) again = again s
while_changed (done (s, false)) again = done s
while_changed undefined again = undefined
while_changed out_of_fuel again = out_of_fuel

-- `while (changed)`; neither the blocks nor their lengths change, so the places are the same each round.
unfoldable pub rounds : Doubles → Module → Function → List Place → ℕ → FoldState → Outcome FoldState
rounds fl m f ps zero s = out_of_fuel
rounds fl m f ps (suc fuel) s = while_changed (round fl m f ps s) (λ s'. rounds fl m f ps fuel s')

-- The instructions that are not `nop`.
abbrev pub live_instrs : List Instr → ℕ
live_instrs [] = 0
live_instrs (x ∷ xs) = (if x.op == op_code "nop" then 0 else 1) + live_instrs xs

abbrev pub live : List Block → ℕ
live [] = 0
live (b ∷ bs) = live_instrs b.instrs + live bs

abbrev pub blocks_of : Outcome FoldState → Outcome (List Block)
blocks_of (done s) = done s.blocks
blocks_of undefined = undefined
blocks_of out_of_fuel = out_of_fuel

-- The pass. Each round that changes something clears an instruction, which bounds the rounds.
unfoldable pub const_fold : Doubles → Module → Function → Outcome (List Block)
unfolding rounds round visit calc_users
const_fold fl m f =
    blocks_of (rounds fl m f (places 0 f.blocks) (suc (live f.blocks)) (calc_users f.blocks))
