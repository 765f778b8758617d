-- ===== src/Registry.antt =====
-- base::win::RegKey over HKEY_CURRENT_USER as win/lib/rlz_value_store_registry.cc calls it: a parameter
-- over a state `R`, with what the documentation of the registry says of it. Wide strings are ASCII here
-- and stand as their bytes.
pub mod Text
pub mod Laws
pub mod Store
pub mod Sample
use rlz.Prelude.{ℕ, Bool, true, false, List, Option, none, some, Bytes}

-- KEY_READ, which allows to query values, and KEY_WRITE, which does not.
pub data Rights : Type 0 where
  key_read key_write : Rights

-- A RegKey object: with no handle, of HKEY_CURRENT_USER itself with KEY_WRITE, or opened at a location with
-- some rights.
pub data RegKey : Type 0 where
  closed : RegKey
  root_key : RegKey
  opened : Rights → Bytes → RegKey

-- REG_QWORD, REG_DWORD and REG_SZ.
pub data Value : Type 0 where
  qword dword : ℕ → Value
  text : Bytes → Value

-- What RegEnumValueA gives at an index.
pub data EnumResult : Type 0 where
  item : Bytes → EnumResult
  no_more_items failed : EnumResult

pub record Registry (R : Type 0) : Type 0 where
  -- Open with KEY_READ, and Create with KEY_WRITE, at a location succeed
  pub open_key : R → Bytes → Bool
  pub create_key : R → Bytes → Bool × R
  -- ReadInt64, ReadValueDW, ReadValue into a wstring; `none` for an error
  pub read_int64 : R → RegKey → Bytes → Option ℕ
  pub read_dword : R → RegKey → Bytes → Option ℕ
  pub read_text : R → RegKey → Bytes → Option Bytes
  -- ReadValue into a buffer of so many bytes succeeds
  pub read_raw : R → RegKey → Bytes → ℕ → Bool
  pub write_value : R → RegKey → Bytes → Value → Bool × R
  pub delete_value : R → RegKey → Bytes → R
  -- DeleteKey of a child
  pub delete_key : R → RegKey → Bytes → Bool × R
  -- a RegKey of a child, with KEY_READ, is Valid
  pub open_child : R → RegKey → Bytes → Bool
  -- RegEnumValueA; the number of values that there are to list
  pub enum_value : R → RegKey → ℕ → EnumResult
  pub listed : R → RegKey → ℕ
  -- SubkeyCount and ValueCount of the iterators at a location
  pub subkey_count : R → Bytes → ℕ
  pub value_count : R → Bytes → ℕ
