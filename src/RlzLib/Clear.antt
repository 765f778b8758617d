-- ===== src/RlzLib/Clear.antt =====
-- lib/rlz_lib_clear.cc: clearing what is stored for a product, and the supplementary brand.
pub mod Laws
pub mod State
use rlz.Prelude.{
  ℕ, Bool, true, false, not, ◌&&◌, List, [], ◌∷◌, Option, none, some, Bytes, is_empty,
  if◌then◌else◌,
}
use rlz.Enums.{AccessPoint, Product}
use rlz.ValueStore.{RlzValueStore, can, write_access}
use rlz.RlzLib.PingParams.{is_no_access_point}

module _ {S : Type 0} (store : RlzValueStore S) where
  unfoldable pub clear_all_product_events : S → Product → Bool × S
  clear_all_product_events s product =
      if not (can store s write_access)
      then (false, s)
      else let (events, s') = store.clear_all_product_events s product in
        let (stateful, s'') = store.clear_all_stateful_events s' product in
        (events && stateful, s'')

  -- The loop over the access points, up to NO_ACCESS_POINT.
  unfoldable pub clear_rlzs : S → List AccessPoint → S
  clear_rlzs s [] = s
  clear_rlzs s (point ∷ points) =
      let rest = clear_rlzs (store.clear_access_point_rlz s point).1 points in
      if is_no_access_point point then s else rest

  clear_points : S → Option (List AccessPoint) → S
  clear_points s none = s
  clear_points s (some access_points) = clear_rlzs s access_points

  unfoldable pub clear_product_state : S → Product → Option (List AccessPoint) → S
  unfolding clear_points
  clear_product_state s product access_points =
      if not (can store s write_access)
      then s
      else let s' = (clear_all_product_events s product).1 in
        store.collect_garbage (clear_points (store.clear_ping_time s' product).1 access_points)

-- The constructor and the destructor of SupplementaryBranding, on the global brand: `locked` is
-- whether the object's lock gave a store.
unfoldable pub supplementary_branding : Bool → Option Bytes → Bytes → Bytes
supplementary_branding locked none global = global
supplementary_branding locked (some brand) global =
    if not locked
    then global
    else if not (is_empty global)
    then global
    else if is_empty brand
    then global
    else brand

unfoldable pub end_supplementary_branding : Bool → Bytes → Bytes
end_supplementary_branding locked global = if locked then [] else global
