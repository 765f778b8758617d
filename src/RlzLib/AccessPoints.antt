-- ===== src/RlzLib/AccessPoints.antt =====
-- lib/rlz_lib.cc: the RLZ of an access point. A buffer is `none` for NULL, or its size; what is left in
-- it comes back as a C string.
pub mod Laws
use rlz.Prelude.{
  ℕ, Bool, true, false, not, [], Option, none, some, Bytes, is_empty, length, ltb, leb,
  if◌then◌else◌,
}
use rlz.Enums.{AccessPoint}
use rlz.Base.{Base}
use rlz.ValueStore.{RlzValueStore, can, read_access, write_access}
use rlz.RlzLib.Normalize.{is_access_point_supported, normalize_rlz, max_rlz_length}

module _ {S : Type 0} (store : RlzValueStore S) where
  unfoldable pub get_access_point_rlz : S → AccessPoint → Option ℕ → Bool × Bytes
  get_access_point_rlz s point none = (false, [])
  get_access_point_rlz s point (some rlz_size) =
      if leb rlz_size 0
      then (false, [])
      else if not (can store s read_access)
      then (false, [])
      else if not (is_access_point_supported point)
      then (false, [])
      else store.read_access_point_rlz s point rlz_size

module _ {S : Type 0} (base : Base) (store : RlzValueStore S) where
  store_rlz : S → AccessPoint → Bytes → Bool × S
  store_rlz s point normalized_rlz =
      if is_empty normalized_rlz
      then store.clear_access_point_rlz s point
      else store.write_access_point_rlz s point normalized_rlz

  set_rlz : S → AccessPoint → Option Bytes → Bool × S
  unfolding store_rlz
  set_rlz s point none = (false, s)
  set_rlz s point (some new_rlz) =
      if not (is_access_point_supported point)
      then (false, s)
      else if ltb max_rlz_length (length new_rlz)
      then (false, s)
      else store_rlz s point (normalize_rlz base new_rlz)

  unfoldable pub set_access_point_rlz : S → AccessPoint → Option Bytes → Bool × S
  unfolding set_rlz
  set_access_point_rlz s point new_rlz =
      if not (can store s write_access) then (false, s) else set_rlz s point new_rlz
