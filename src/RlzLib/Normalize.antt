-- ===== src/RlzLib/Normalize.antt =====
-- lib/rlz_lib.cc: which access points have an RLZ, and what an RLZ may hold.
pub mod Laws
use rlz.Prelude.{
  ℕ, zero, suc, Bool, true, false, ◌||◌, [], ◌∷◌, Bytes, bytes, has_byte, if◌then◌else◌,
}
use rlz.Enums.{
  AccessPoint, no_access_point, last_access_point, mobile_idle_screen_blackberry,
  mobile_idle_screen_winmob, mobile_idle_screen_symbian,
}
use rlz.Base.{Base}

abbrev pub max_rlz_length : ℕ
max_rlz_length = 64

unfoldable pub is_access_point_supported : AccessPoint → Bool
is_access_point_supported no_access_point = false
is_access_point_supported last_access_point = false
is_access_point_supported mobile_idle_screen_blackberry = false
is_access_point_supported mobile_idle_screen_winmob = false
is_access_point_supported mobile_idle_screen_symbian = false
is_access_point_supported _ = true

module _ (base : Base) where
  unfoldable pub is_good_rlz_char : ℕ → Bool
  is_good_rlz_char ch =
      if base.is_ascii_alpha ch || base.is_ascii_digit ch
      then true
      else has_byte (bytes "_-!@$*();.<>") ch

  -- The loop over the positions below the limit: `room` is kMaxRlzLength - index.
  normalize_loop : ℕ → Bytes → Bytes
  normalize_loop zero raw_rlz = []
  normalize_loop (suc room) [] = []
  normalize_loop (suc room) (current ∷ raw_rlz) =
      (if is_good_rlz_char current then current else b'.') ∷ normalize_loop room raw_rlz

  unfoldable pub normalize_rlz : Bytes → Bytes
  unfolding normalize_loop
  normalize_rlz raw_rlz = normalize_loop max_rlz_length raw_rlz
