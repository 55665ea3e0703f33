-- ===== src/Ast/Types.antt =====
-- The types of the AST, qumir/parser/type.h.
use qumir.Prelude.{ℕ, String, Bool, true, false}

-- `TIntegerType::EKind`
pub data IntegerKind : Type 0 where
  int8 int16 int32 int64 int128 uint8 uint16 uint32 uint64 uint128 : IntegerKind

-- `BitWidth`
unfoldable pub bit_width : IntegerKind → ℕ
bit_width int8 = 8
bit_width uint8 = 8
bit_width int16 = 16
bit_width uint16 = 16
bit_width int32 = 32
bit_width uint32 = 32
bit_width int64 = 64
bit_width uint64 = 64
bit_width int128 = 128
bit_width uint128 = 128

-- `IsSigned`
unfoldable pub is_signed_kind : IntegerKind → Bool
is_signed_kind int8 = true
is_signed_kind int16 = true
is_signed_kind int32 = true
is_signed_kind int64 = true
is_signed_kind int128 = true
is_signed_kind _ = false

-- `TTypePtr`: a null pointer, or one of the classes below `TType`. The generic arguments and the
-- module of a named type are left out: they do not reach the intermediate representation.
mutual
  pub data AstType : Type 0 where
    null_type : AstType
    integer_type : IntegerKind → AstType
    float_type bool_type string_type symbol_type void_type : AstType
    function_type : AstTypes → AstType → AstType
    future_type : AstType → AstType
    array_type : AstType → ℕ → AstType
    pointer_type reference_type : AstType → AstType
    named_type : String → AstType → AstType
    struct_type : AstFields → AstType

  pub data AstTypes : Type 0 where
    no_types : AstTypes
    and_type : AstType → AstTypes → AstTypes

  pub data AstFields : Type 0 where
    no_fields : AstFields
    and_field : String → AstType → AstFields → AstFields
