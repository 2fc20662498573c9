-- ===== src/Toolchain/Abi.antt =====
-- crates/lean-toolchain/src/loader.rs: the ABI of an export with its texts, and the signatures that
-- crates/lean-rs-worker-protocol/src/worker_exports.rs makes of them.
use lean_rs.Common.{String, Option, none, some, List, [], ◌∷◌, if◌then◌else◌}
use lean_rs.Common.Equality.{◌=?◌, string_eq}

pub data LeanExportSymbolKind : Type 0 where
  function global : LeanExportSymbolKind

pub data LeanExportAbiRepr : Type 0 where
  lean_object u8 u16 u32 u64 usize i8 i16 i32 i64 isize f64 : LeanExportAbiRepr

pub data LeanExportOwnership : Type 0 where
  unowned owned : LeanExportOwnership

pub data LeanExportResultConvention : Type 0 where
  pure io_result : LeanExportResultConvention

-- `match value { "a" => Some(x), … , _ => None }`: the arms in their order.
unfoldable pub match_text {ℓ} : {A : Type ℓ} → List (String × A) → String → Option A
match_text [] value = none
match_text ((text, a) ∷ arms) value =
    let other = match_text arms value in if value =? text then some a else other

-- `as_str` of the four enumerations.
unfoldable pub kind_as_str : LeanExportSymbolKind → String
kind_as_str function = "function"
kind_as_str global = "global"

unfoldable pub repr_as_str : LeanExportAbiRepr → String
repr_as_str lean_object = "lean_object"
repr_as_str u8 = "u8"
repr_as_str u16 = "u16"
repr_as_str u32 = "u32"
repr_as_str u64 = "u64"
repr_as_str usize = "usize"
repr_as_str i8 = "i8"
repr_as_str i16 = "i16"
repr_as_str i32 = "i32"
repr_as_str i64 = "i64"
repr_as_str isize = "isize"
repr_as_str f64 = "f64"

unfoldable pub ownership_as_str : LeanExportOwnership → String
ownership_as_str unowned = "none"
ownership_as_str owned = "owned"

unfoldable pub convention_as_str : LeanExportResultConvention → String
convention_as_str pure = "pure"
convention_as_str io_result = "io_result"

-- `from_str` of the four enumerations.
abbrev pub kind_arms : List (String × LeanExportSymbolKind)
kind_arms = ("function", function) ∷ ("global", global) ∷ []

unfoldable pub kind_from_str : String → Option LeanExportSymbolKind
unfolding match_text
kind_from_str = match_text kind_arms

abbrev pub repr_arms : List (String × LeanExportAbiRepr)
repr_arms =
    ("lean_object", lean_object)
    ∷ ("u8", u8)
    ∷ ("u16", u16)
    ∷ ("u32", u32)
    ∷ ("u64", u64)
    ∷ ("usize", usize)
    ∷ ("i8", i8)
    ∷ ("i16", i16)
    ∷ ("i32", i32)
    ∷ ("i64", i64)
    ∷ ("isize", isize)
    ∷ ("f64", f64)
    ∷ []

unfoldable pub repr_from_str : String → Option LeanExportAbiRepr
unfolding match_text
repr_from_str = match_text repr_arms

abbrev pub ownership_arms : List (String × LeanExportOwnership)
ownership_arms = ("none", unowned) ∷ ("owned", owned) ∷ []

unfoldable pub ownership_from_str : String → Option LeanExportOwnership
unfolding match_text
ownership_from_str = match_text ownership_arms

abbrev pub convention_arms : List (String × LeanExportResultConvention)
convention_arms = ("pure", pure) ∷ ("io_result", io_result) ∷ []

unfoldable pub convention_from_str : String → Option LeanExportResultConvention
unfolding match_text
convention_from_str = match_text convention_arms

pub record LeanExportArgAbi : Type 0 where
  pub repr : LeanExportAbiRepr
  pub ownership : LeanExportOwnership

pub record LeanExportReturnAbi : Type 0 where
  pub repr : LeanExportAbiRepr
  pub ownership : LeanExportOwnership
  pub convention : LeanExportResultConvention

pub record LeanExportSignature : Type 0 where
  pub symbol : String
  pub kind : LeanExportSymbolKind
  pub args : List LeanExportArgAbi
  pub result : LeanExportReturnAbi

-- `LeanExportSignature::function`.
unfoldable pub new_function :
    String → List LeanExportArgAbi → LeanExportReturnAbi → LeanExportSignature
new_function symbol args result = record {
  symbol = symbol;
  kind = function;
  args = args;
  result = result;
}

abbrev owned_object_arg : LeanExportArgAbi
owned_object_arg = record { repr = lean_object; ownership = owned }

abbrev scalar_arg : LeanExportAbiRepr → LeanExportArgAbi
scalar_arg repr = record { repr = repr; ownership = unowned }

abbrev return_ownership : LeanExportAbiRepr → LeanExportOwnership
return_ownership lean_object = owned
return_ownership _ = unowned

abbrev io_return : LeanExportAbiRepr → LeanExportReturnAbi
io_return repr = record { repr = repr; ownership = return_ownership repr; convention = io_result }

-- `metadata_signature`, `doctor_signature` and `json_command_signature` are all this one.
unfoldable pub string_io_signature : String → LeanExportSignature
unfolding new_function
string_io_signature symbol = new_function symbol (owned_object_arg ∷ []) (io_return lean_object)

unfoldable pub streaming_command_signature : String → LeanExportSignature
unfolding new_function
streaming_command_signature symbol =
    new_function symbol (owned_object_arg ∷ scalar_arg usize ∷ scalar_arg usize ∷ [])
      (io_return lean_object)
