-- ===== src/FinancialPing.antt =====
-- lib/financial_ping.cc: the request, and when to ping. A time is a 64-bit pattern in steps of 100 ns;
-- PingServer is a parameter (see `Platform`).
pub mod Times
use rlz.Prelude.{
  ℕ, ◌+◌, ◌-◌, ◌%◌, ◌^◌, Bool, true, false, not, ◌&&◌, ◌||◌, List, [], ◌∷◌, ◌++◌, Option, none,
  some, Bytes, bytes, bytes_eq, is_empty, leb, if◌then◌else◌,
}
use rlz.Enums.{AccessPoint, Product}
use rlz.LibValues.{
  access_points, financial_ping_path, product_signature_cgi_variable, product_brand_cgi_variable,
  product_id_cgi_variable, product_language_cgi_variable, machine_id_cgi_variable,
  events_ping_interval, no_events_ping_interval,
}
use rlz.ValueStore.{RlzValueStore, can, read_access, write_access}
use rlz.Platform.{Platform}
use rlz.RlzLib.Normalize.{max_rlz_length}
use rlz.RlzLib.AccessPoints.{get_access_point_rlz}
use rlz.RlzLib.EventsCgi.{max_cgi_length, get_product_events_as_cgi}
use rlz.RlzLib.PingParams.{is_no_access_point, get_ping_params}

-- The arguments of FormRequest that describe the product; the strings are `none` for NULL.
pub record Request : Type 0 where
  pub access_points : Option (List AccessPoint)
  pub product_signature : Option Bytes
  pub product_brand : Option Bytes
  pub product_id : Option Bytes
  pub product_lang : Option Bytes
  pub exclude_machine_id : Bool

-- "&%s=%s", for a value that is not NULL.
cgi_param : Bytes → Option Bytes → Bytes
cgi_param variable none = []
cgi_param variable (some value) = bytes "&" ++ (variable ++ (bytes "=" ++ value))

-- `GetBrand() != product_brand`; a NULL brand, on which the comparison is undefined, differs.
brand_differs : Bytes → Option Bytes → Bool
brand_differs brand none = true
brand_differs brand (some product_brand) = not (bytes_eq brand product_brand)

module _ {S : Type 0} (store : RlzValueStore S) where
  has_rlz : Bool × Bytes → Bool
  has_rlz (result, rlz) = result && not (is_empty rlz)

  -- The access points after NO_ACCESS_POINT for which GetAccessPointRlz gives a text.
  unfoldable pub points_with_rlz : S → List AccessPoint → List AccessPoint
  unfolding has_rlz
  points_with_rlz s [] = []
  points_with_rlz s (point ∷ points) =
      let rest = points_with_rlz s points in
      if not (is_no_access_point point)
        && has_rlz (get_access_point_rlz store s point (some (max_rlz_length + 1)))
      then point ∷ rest
      else rest

module _ {S : Type 0} (store : RlzValueStore S) (platform : Platform S) where
  append_params : Bool × Bytes → Bytes
  append_params (false, cgi) = []
  append_params (true, cgi) = bytes "&" ++ cgi

  -- What is appended after the description of the product.
  form_parts : S → Product → Request → Bytes
  unfolding append_params cgi_param
  form_parts s product r =
      let cgi = get_product_events_as_cgi store s product (some (max_cgi_length + 1)) in
      let points =
        if cgi.ok then r.access_points else some (points_with_rlz store s access_points) in
      (if cgi.ok then bytes "&" ++ cgi.text else [])
      ++ (append_params (get_ping_params store platform s points (some (max_cgi_length + 1)))
          ++ (if cgi.ok && not r.exclude_machine_id
              then cgi_param machine_id_cgi_variable (platform.machine_id s)
              else []))

  form_string : S → Product → Request → Bytes → Bytes
  unfolding form_parts
  form_string s product r signature =
      (financial_ping_path ++ bytes "?")
      ++ ((product_signature_cgi_variable ++ (bytes "=" ++ signature))
          ++ (cgi_param product_brand_cgi_variable r.product_brand
              ++ (cgi_param product_id_cgi_variable r.product_id
                  ++ (cgi_param product_language_cgi_variable r.product_lang
                      ++ form_parts s product r))))

  form_checked : S → Product → Request → Option (List AccessPoint) → Option Bytes → Bool × Bytes
  unfolding form_string brand_differs
  form_checked s product r none signature = (false, [])
  form_checked s product r (some points) none = (false, [])
  form_checked s product r (some points) (some signature) =
      if not (is_empty (platform.brand s)) && brand_differs (platform.brand s) r.product_brand
      then (false, [])
      else (true, form_string s product r signature)

  -- The result and *request, for a `request` that is not NULL.
  unfoldable pub form_request : S → Product → Request → Bool × Bytes
  unfolding form_checked
  form_request s product r =
      if not (can store s read_access)
      then (false, [])
      else form_checked s product r r.access_points r.product_signature

  -- `now` is unsigned, so the difference wraps; as an int64 it is negative from 2^63 up.
  unfoldable pub interval_since : ℕ → ℕ → ℕ
  interval_since now last_ping = (now + 2 ^ 64 - last_ping) % 2 ^ 64

  unfoldable pub is_negative : ℕ → Bool
  is_negative interval = leb (2 ^ 63) interval

  ping_due : S → Product → Bool → Option ℕ → Bool
  unfolding interval_since is_negative
  ping_due s product no_delay none = true
  ping_due s product no_delay (some last_ping) =
      let interval = interval_since (platform.now s) last_ping in
      let has_events = (get_product_events_as_cgi store s product (some (max_cgi_length + 1))).ok in
      if is_negative interval
      then true
      else if no_delay && has_events
      then true
      else leb (if has_events then events_ping_interval else no_events_ping_interval) interval

  unfoldable pub is_ping_time : S → Product → Bool → Bool
  unfolding ping_due
  is_ping_time s product no_delay =
      if not (can store s read_access)
      then false
      else ping_due s product no_delay (store.read_ping_time s product)

  unfoldable pub update_last_ping_time : S → Product → Bool × S
  update_last_ping_time s product =
      if not (can store s write_access)
      then (false, s)
      else store.write_ping_time s product (platform.now s)

  unfoldable pub clear_last_ping_time : S → Product → Bool × S
  clear_last_ping_time s product =
      if not (can store s write_access) then (false, s) else store.clear_ping_time s product
