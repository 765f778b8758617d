-- ===== src/Registry/Laws.antt =====
-- The registry as its documentation describes it, and an account that may use its keys.
use rlz.Prelude.{
  ℕ, zero, suc, ◌≡◌, ◌⊎◌, Bool, true, false, ◌&&◌, List, [], ◌∷◌, ◌++◌, Option, none, some, Bytes,
  length, ltb, if◌then◌else◌,
}
use rlz.ValueStore.{contains_by}
use rlz.Registry.{
  key_read, key_write, RegKey, closed, root_key, opened, Value, qword, dword, text, EnumResult,
  item, no_more_items, failed, Registry,
}
use rlz.Registry.Text.{same_text, within, separator}

abbrev pub is_there : Option Value → Bool
is_there none = false
is_there (some v) = true

abbrev pub qword_in : Option Value → Option ℕ
qword_in (some (qword n)) = some n
qword_in _ = none

abbrev pub dword_in : Option Value → Option ℕ
dword_in (some (dword n)) = some n
dword_in _ = none

abbrev pub text_in : Option Value → Option Bytes
text_in (some (text t)) = some t
text_in _ = none

-- The values that a key lets be queried.
abbrev pub seen : (Bytes → Bytes → Option Value) → RegKey → Bytes → Option Value
seen value (opened key_read location) name = value location name
seen value (opened key_write location) name = none
seen value closed name = none
seen value root_key name = none

-- The buffer for a name has 2048 bytes.
abbrev pub enum_of : List Bytes → ℕ → EnumResult
enum_of [] n = no_more_items
enum_of (name ∷ names) zero = if ltb (length name) 2048 then item name else failed
enum_of (name ∷ names) (suc n) = enum_of names n

-- The location of a child.
abbrev pub child : Bytes → Bytes → Bytes
child location name = location ++ (separator ++ name)

pub record RegistryLaws {R : Type 0} (reg : Registry R) : Type 0 where
  -- what is stored at a location under a name
  pub value : R → Bytes → Bytes → Option Value
  pub value_names : R → Bytes → List Bytes
  pub created :
      (r : R) (location l n : Bytes) → value (reg.create_key r location).1 l n ≡ value r l n
  -- each reader succeeds on a value of its type in a key that may be queried
  pub int64_read :
      (r : R) (key : RegKey) (n : Bytes) → reg.read_int64 r key n ≡ qword_in (seen (value r) key n)
  pub dword_read :
      (r : R) (key : RegKey) (n : Bytes) → reg.read_dword r key n ≡ dword_in (seen (value r) key n)
  pub text_read :
      (r : R) (key : RegKey) (n : Bytes) → reg.read_text r key n ≡ text_in (seen (value r) key n)
  pub raw_unseen :
      (r : R) (key : RegKey) (n : Bytes) (size : ℕ)
      → seen (value r) key n ≡ none
      → reg.read_raw r key n size ≡ false
  pub written :
      (r r' : R) (key : RegKey) (n : Bytes) (v : Value)
      → reg.write_value r key n v ≡ (true, r')
      → (location : Bytes) × (key ≡ opened key_write location)
        × ((l m : Bytes)
            → value r' l m
              ≡ (if same_text location l && same_text n m then some v else value r l m))
  pub deleted_others :
      (r : R) (location n l m : Bytes)
      → (same_text location l && same_text n m) ≡ false
      → value (reg.delete_value r (opened key_write location) n) l m ≡ value r l m
  pub key_deleted_others :
      (r : R) (location name l m : Bytes)
      → within (child location name) l ≡ false
      → value (reg.delete_key r (opened key_write location) name).1 l m ≡ value r l m
  -- a key that opens, with no subkeys and no values, holds nothing at it or below, and to delete a key stores nothing
  pub empty_key :
      (r : R) (location l m : Bytes)
      → reg.open_key r location ≡ true
      → reg.subkey_count r location ≡ 0
      → reg.value_count r location ≡ 0
      → within location l ≡ true
      → value r l m ≡ none
  pub root_deleted :
      (r : R) (name l m : Bytes)
      → (within name l ≡ false) ⊎ (value r l m ≡ none)
      → value (reg.delete_key r root_key name).1 l m ≡ value r l m
  pub enumerated :
      (r : R) (location : Bytes) (n : ℕ)
      → reg.enum_value r (opened key_read location) n ≡ enum_of (value_names r location) n
  pub all_listed :
      (r : R) (location : Bytes)
      → reg.listed r (opened key_read location) ≡ length (value_names r location)
  pub names_of_values :
      (r : R) (location m : Bytes)
      → contains_by same_text (value_names r location) m ≡ is_there (value r location m)

-- The account may create and open the keys and delete their values.
pub record Grants {R : Type 0} (reg : Registry R) (laws : RegistryLaws reg) : Type 0 where
  pub creates : (r : R) (location : Bytes) → (reg.create_key r location).0 ≡ true
  pub opens :
      (r : R) (location n : Bytes) (v : Value)
      → laws.value r location n ≡ some v
      → reg.open_key r location ≡ true
  pub opens_child :
      (r : R) (location name l m : Bytes)
      → reg.open_child r (opened key_write location) name ≡ false
      → within (child location name) l ≡ true
      → laws.value r l m ≡ none
  pub deletes :
      (r : R) (location n l m : Bytes)
      → (same_text location l && same_text n m) ≡ true
      → laws.value (reg.delete_value r (opened key_write location) n) l m ≡ none
