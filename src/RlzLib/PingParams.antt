-- ===== src/RlzLib/PingParams.antt =====
-- lib/rlz_lib.cc: GetPingParams. The array of access points is the list of its elements; the loop ends
-- at NO_ACCESS_POINT.
pub mod Laws
use rlz.Prelude.{
  ℕ, ◌+◌, Bool, true, false, not, ◌&&◌, List, [], ◌∷◌, ◌++◌, Option, none, some, Bytes, bytes,
  is_empty, length, ltb, leb, if◌then◌else◌,
}
use rlz.Enums.{AccessPoint, no_access_point}
use rlz.LibValues.{
  get_access_point_name, protocol_cgi_argument, rlz_cgi_variable, rlz_cgi_separator,
  rlz_cgi_indicator,
}
use rlz.ValueStore.{RlzValueStore, can, read_access}
use rlz.Platform.{Platform}
use rlz.RlzLib.Normalize.{max_rlz_length}
use rlz.RlzLib.AccessPoints.{get_access_point_rlz}

abbrev pub max_dcc_length : ℕ
max_dcc_length = 128

unfoldable pub is_no_access_point : AccessPoint → Bool
is_no_access_point no_access_point = true
is_no_access_point _ = false

abbrev is_none : Option Bytes → Bool
is_none none = true
is_none (some t) = false

module _ {S : Type 0} (store : RlzValueStore S) where
  -- "%s%s%s" of the access point's name, the indicator and the RLZ; `none` where it is passed over.
  named_rlz : Option Bytes → Bool × Bytes → Option Bytes
  named_rlz access_point (false, rlz) = none
  named_rlz none (true, rlz) = none
  named_rlz (some access_point) (true, rlz) = some (access_point ++ (rlz_cgi_indicator ++ rlz))

  unfoldable pub rlz_entry : S → AccessPoint → Option Bytes
  unfolding named_rlz
  rlz_entry s point =
      named_rlz (get_access_point_name point)
        (get_access_point_rlz store s point (some (max_rlz_length + 1)))

  join_entry : Bool → Option Bytes → Bytes → Bytes
  join_entry first_rlz none rest = rest
  join_entry first_rlz (some entry) rest =
      (if first_rlz then [] else rlz_cgi_separator) ++ (entry ++ rest)

  unfoldable pub rlz_list : S → Bool → List AccessPoint → Bytes
  unfolding join_entry
  rlz_list s first_rlz [] = []
  rlz_list s first_rlz (point ∷ points) =
      let entry = rlz_entry s point in
      let rest = rlz_list s (first_rlz && is_none entry) points in
      if is_no_access_point point then [] else join_entry first_rlz entry rest

module _ {S : Type 0} (store : RlzValueStore S) (platform : Platform S) where
  -- "&dcc=%s", on Windows and if a code is there.
  dcc_param : Bool × Bytes → Bytes
  dcc_param (false, dcc) = []
  dcc_param (true, dcc) = if is_empty dcc then [] else bytes "&dcc=" ++ dcc

  unfoldable pub ping_params_string : S → List AccessPoint → Bytes
  unfolding dcc_param
  ping_params_string s access_points =
      (protocol_cgi_argument ++ (bytes "&" ++ (rlz_cgi_variable ++ bytes "=")))
      ++ (rlz_list store s true access_points
          ++ (if platform.os_win
              then dcc_param (platform.get_machine_deal_code s (max_dcc_length + 1))
              else []))

  params_into : S → ℕ → Option (List AccessPoint) → Bool × Bytes
  params_into s cgi_size none = (false, [])
  params_into s cgi_size (some access_points) =
      if not (can store s read_access)
      then (false, [])
      else if leb cgi_size (length (ping_params_string s access_points))
      then (false, [])
      else (true, ping_params_string s access_points)

  unfoldable pub get_ping_params : S → Option (List AccessPoint) → Option ℕ → Bool × Bytes
  unfolding params_into
  get_ping_params s access_points none = (false, [])
  get_ping_params s access_points (some cgi_size) =
      if leb cgi_size 0 then (false, []) else params_into s cgi_size access_points
