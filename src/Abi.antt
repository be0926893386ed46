-- ===== src/Abi.antt =====
-- crates/duckflight-extension-abi/src/lib.rs: the values that cross between the extension and the core.
use duckflight_extension.Common.{ℕ, zero, suc, Bool, true, false, Option, List}

-- `i32`: `negsuc n` is -(n + 1).
pub data I32 : Type 0 where
  pos : ℕ → I32
  negsuc : ℕ → I32

-- `DuckflightStatus`
abbrev pub ok_status : I32
ok_status = pos 0

abbrev pub invalid_argument : I32
invalid_argument = pos 1

abbrev pub internal : I32
internal = pos 5

abbrev pub is_ok : I32 → Bool
is_ok (pos zero) = true
is_ok (pos (suc n)) = false
is_ok (negsuc n) = false

-- `DuckflightProtocol`, an `u32`
abbrev pub pgwire : ℕ
pgwire = 1

abbrev pub flight_sql : ℕ
flight_sql = 2

abbrev pub http : ℕ
http = 3

abbrev pub quack : ℕ
quack = 4

abbrev pub core_abi_v1 : ℕ
core_abi_v1 = 1

-- A text is its bytes.
abbrev pub Text : Type 0
Text = List ℕ

-- `DuckflightBytesV1`: the first `len` bytes at the pointer are what may be read; `none` is null.
pub record BytesV1 : Type 0 where
  pub bytes : Option Text
  pub len : ℕ

-- `DuckflightCoreCreateOptionsV1`
pub record CreateOptionsV1 : Type 0 where
  pub struct_size : ℕ
  pub abi_version : ℕ
  pub extension_info : ℕ
  pub extension_access : ℕ
  pub pool_size : ℕ
  pub reserved : ℕ

-- The size of the structure on a 64-bit platform: four `u32` and two pointers.
abbrev pub create_options_size : ℕ
create_options_size = 32

unfoldable pub new_options : ℕ → ℕ → ℕ → CreateOptionsV1
new_options info access pool = record {
  struct_size = create_options_size;
  abi_version = core_abi_v1;
  extension_info = info;
  extension_access = access;
  pool_size = pool;
  reserved = 0;
}

-- What a call of the core leaves: its status, the caller's error buffer with the size that the
-- diagnostic requires, and what it handed back.
pub record Returned (P A : Type 0) : Type 0 where
  pub core : P
  pub status : I32
  pub error : Text
  pub required : ℕ
  pub value : A

-- A handle is an address; 0 is null.
abbrev pub Handle : Type 0
Handle = ℕ

-- `DuckflightCoreApiV1` over the state `P` of the core. A callback changes only what its caller
-- passed it, so a call hands back the values that it passed to the callback, in order.
pub record ApiV1 (P : Type 0) : Type 0 where
  pub struct_size : ℕ
  pub abi_version : ℕ
  pub create : Option (P → CreateOptionsV1 → Returned P Handle)
  pub destroy : Option (P → Handle → P)
  pub start : Option (P → Handle → ℕ → BytesV1 → BytesV1 → Returned P (List BytesV1))
  pub stop : Option (P → Handle → ℕ → BytesV1 → Returned P (Option Bool))
  pub list : Option (P → Handle → Returned P (List (ℕ × BytesV1)))

-- Two `u32` and five function pointers on a 64-bit platform.
abbrev pub api_size : ℕ
api_size = 48
