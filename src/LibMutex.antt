-- ===== src/LibMutex.antt =====
-- win/lib/lib_mutex.cc: the mutex that guards the registry. The API of Windows is a parameter over a state
-- `W` with the mutex of this name.
pub mod Laws
use rlz.Prelude.{ℕ, Bool, true, false, not, if◌then◌else◌}

-- What WaitForSingleObject returns.
pub data WaitResult : Type 0 where
  wait_object_0 wait_abandoned wait_timeout wait_failed : WaitResult

pub record MutexApi (W : Type 0) : Type 0 where
  -- GetVersion() >= VERSION_VISTA
  pub is_vista : Bool
  pub create_mutex : W → W
  -- ConvertStringSecurityDescriptorToSecurityDescriptor and GetSecurityDescriptorSacl succeed
  pub converts_sddl : W → Bool
  pub gets_sacl : W → Bool
  -- SetSecurityInfo returns ERROR_SUCCESS
  pub set_security_info : W → Bool × W
  -- for the milliseconds
  pub wait_for_single_object : W → ℕ → WaitResult × W
  pub release_mutex : W → W
  pub close_handle : W → W

module _ {W : Type 0} (api : MutexApi W) where
  pub set_object_to_low_integrity : W → Bool × W
  set_object_to_low_integrity w =
      if not api.is_vista
      then (true, w)
      else if not (api.converts_sddl w)
      then (false, w)
      else if not (api.gets_sacl w)
      then (false, w)
      else api.set_security_info w

  is_object_0 : WaitResult → Bool
  is_object_0 wait_object_0 = true
  is_object_0 _ = false

  -- The constructor: acquired_ is the negation of failed().
  unfoldable pub lib_mutex : W → Bool × W
  unfolding set_object_to_low_integrity is_object_0
  lib_mutex w =
      let (result, w') = set_object_to_low_integrity (api.create_mutex w) in
      if result
      then (let (waited, w'') = api.wait_for_single_object w' 5000 in (is_object_0 waited, w''))
      else (false, w')

  -- The destructor, with acquired_.
  pub end_lib_mutex : Bool → W → W
  end_lib_mutex acquired w = api.close_handle (if acquired then api.release_mutex w else w)
