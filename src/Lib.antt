-- ===== src/Lib.antt =====
-- Qumir, a compiler and interpreter for the Kumir language: the intermediate representation and the
-- passes on it, checks of names, assignments and conversions, and parts of the runtime and parsers.
--
-- The program. A frontend (qumir/parser, qumir/frontend) makes an AST, the passes of qumir/semantics
-- check and rewrite it, qumir/ir/lowering lowers it to an intermediate representation of functions of
-- basic blocks, the passes of qumir/ir/passes rewrite that, and it is compiled to bytecode
-- (qumir/ir/vmcompiler.cpp) for the interpreter of qumir/ir/eval.cpp or to LLVM. Types of the
-- intermediate representation are interned in a table (qumir/ir/type.cpp), and every part refers to a
-- type by its id.
--
-- The files, and the code that each is about:
--   Prelude          shared names, lists, signed integers, maps keyed by an equality, bit operations;
--   Ir/Types         `TTypeTable`: I, Ptr, Func, Struct as state-passing functions (primitive,
--                    pointer_to, function_of, structure_of). Describe has the view of an id as a shape,
--                    Growing and Interning relate caches, entries and shapes; Classes has the tests on
--                    an id and Unify; Layout has AlignUp, SizeInBytes, AlignInBytes and FieldOffset;
--   Ir/Instr         TOp, TOperand, TInstr, TPhi, TBlock and TFunction of qumir/ir/builder.h;
--     (Ir/TmpTypes: its map from temporaries to types);
--   Ir/Alu           the selection of bytecode for the binary operations and their execution;
--   Ir/Passes/Renumber   RenumberRegisters: the map from old to new numbers is passed as a state;
--   Ir/Passes/Cfg        BuildCfg and ComputeRPO;
--   Ir/Passes/DeSsa      DeSSA: the loops over the blocks and their predecessors by index. Splits relates
--                        `remap` to the new blocks, PerPred has the map of copies and Transfers the
--                        copies of the phis;
--   Ir/Passes/ConstFold  ConstFold: the fold of one instruction, and in Pass the maps of users, the
--                        replacement of a temporary and the rounds until nothing changes;
--   Ir/Compare       the selection of bytecode for the comparisons, and their execution;
--   Ast              Types has the types of qumir/parser/type.h; FromAst has FromAstType of
--                    qumir/ir/type.cpp, Represents says what its ids stand for, and Lowering, Finding and
--                    Integers prove it; Lifetime has qumir/semantics/lifetime/type_traits.cpp; Exprs has
--                    the nodes of qumir/parser/ast.h that Returns reads, which has
--                    qumir/semantics/return_analysis.cpp and the normalization of one function of
--                    qumir/semantics/return_normalization/pass.cpp, and Returns/Walk its walk;
--   Semantics        Scopes has the scopes of qumir/semantics/name_resolution/name_resolver.cpp (Declare,
--                    Lookup, NewScope), Nodes the expressions that the check of assignments reads, and
--                    Assignment qumir/semantics/definite_assignment/definite_assignment.cpp: Check has
--                    CheckExpr and the functions that it dispatches to, Runs says what an execution may
--                    do to the set of assigned variables, Covered names the part of the language where
--                    the check looks at all that is evaluated, and Keeps, Parts, Arguments and Sound
--                    prove the check against the executions; EditDistance has the table of
--                    TEditDistance, and its Reference the edits that it counts; CodePoints has
--                    calcCodePoint of TNameResolver::Suggest, and Decoding what it makes of a text;
--                    Suggestions has Suggest, whose rounds are in Closest, whose search in modules is in
--                    Outside, and whose search in scopes is in Visible; Coercions has
--                    WideningInt of qumir/semantics/type_annotation/coercions.cpp;
--   Runtime          Utf8 and Strings have qumir/runtime/string.cpp: code points and their bytes, and the
--                    operations that count a string's symbols by its index. RoundTrip, Symbols, Slices
--                    and Edits relate them to the list of code points that a string holds; Comparing has the
--                    comparison of strings, and its Order that it is the one of their code points;
--   Parser/Json      qumir/parser/json/parser.cpp on tokens, and TObject::Get of node.cpp. Printing writes a
--                    value as tokens, RoundTrip and Accepts relate the parser to it, Keys and Members
--                    have the order of an object's members and what `std::sort` does with them;
--   Examples         concrete inputs, and a sort by insertion in the place of `std::sort`.
--
-- Conventions. An `int` that the code uses as an id or a temporary's number is a signed integer, so
-- that negative values are there; a `Label` is a natural number. A register is its 64-bit pattern, with
-- the wrap-around of the machine where C++ leaves an overflow of int64_t undefined. AlignUp works on
-- 32-bit patterns. A C++ exception, and an access out of bounds, is `none` or an outcome of its own.
-- An unordered map is an association list; no definition depends on its order. The characters of an
-- operation's name are ASCII.
--
-- Fuel. SizeInBytes recurses into the fields of a structure: its fuel is one more than the number of
-- types, which is enough where no structure holds itself. ComputeRPO recurses along a path without
-- repeated labels: its fuel is one more than the number of blocks. The rounds of ConstFold: one more than
-- the number of instructions that are not `nop`, since every round that changes something clears one.
-- The JSON parser: one more than the number of tokens, for the depth of brackets and for each loop.
-- Lookup and Suggest go from a scope to older ones: one more than the number of scopes.
-- NormalizeFunctions walks the bodies that it has changed: its fuel is the number of nodes, with two
-- more for each function.
--
-- Not modelled: the parsers of programs and the lexers, the annotation of types, the walk of the name
-- resolver and lowering, for their size; LLVM, libffi, files and terminals, which are outside the
-- repository; printing. Arithmetic on doubles is a parameter, a record of functions on bit patterns, and
-- so are the bytes of a name and the functions of other modules for Suggest, and `std::sort` for the
-- members of a JSON object, which puts the keys in order and keeps the members.
pub mod Prelude
pub mod Ir
pub mod Ast
pub mod Semantics
pub mod Runtime
pub mod Parser
pub mod Examples
