-- ===== src/AccessControl.antt =====
-- win/lib/rlz_lib_win.cc: the scan of an access control list, and CreateMachineState. The security API
-- of Windows is a parameter, over a type of security identifiers, of lists and of descriptors.
pub mod Scan
pub mod Laws
use rlz.Prelude.{
  ℕ, zero, suc, ◌+◌, Bool, true, false, not, ◌&&◌, Option, none, some, bit_and, ◌==◌, if◌then◌else◌,
}

-- An ACCESS_ALLOWED_ACE: what of its header, and after it, is looked at.
pub record Ace (Sid : Type 0) : Type 0 where
  pub ace_type : ℕ
  pub ace_flags : ℕ
  pub mask : ℕ
  pub sid_start : Sid

pub record AclApi (Sid Acl : Type 0) : Type 0 where
  -- AceCount of GetAclInformation, and GetAce; `none` for an error
  pub ace_count : Acl → Option ℕ
  pub get_ace : Acl → ℕ → Option (Ace Sid)
  -- MapGenericMask with the rights of a registry key
  pub map_generic_mask : ℕ → ℕ
  pub equal_sid : Sid → Sid → Bool

abbrev pub inherit_only_ace : ℕ
inherit_only_ace = 0x08

abbrev pub access_allowed_ace_type : ℕ
access_allowed_ace_type = 0x00

abbrev pub access_denied_ace_type : ℕ
access_denied_ace_type = 0x01

abbrev pub key_all_access : ℕ
key_all_access = 0xF003F

module _ {Sid Acl : Type 0} (api : AclApi Sid Acl) where
  -- One entry, for an access mask that is mapped: what the function returns there, or `none` to go on.
  pub ace_decides : Sid → ℕ → Option (Ace Sid) → Option Bool
  ace_decides sid access_mask none = none
  ace_decides sid access_mask (some ace) =
      let mask = api.map_generic_mask ace.mask in
      if bit_and ace.ace_flags inherit_only_ace == inherit_only_ace
      then none
      else if (ace.ace_type == access_allowed_ace_type)
          && ((bit_and mask access_mask == access_mask) && api.equal_sid ace.sid_start sid)
      then some true
      else if (ace.ace_type == access_denied_ace_type)
          && (not (bit_and mask access_mask == 0) && api.equal_sid ace.sid_start sid)
      then some false
      else none

  -- The loop from the entry `i` on, with as many entries left.
  pub scan_aces : Sid → ℕ → Acl → ℕ → ℕ → Bool
  unfolding ace_decides
  scan_aces sid access_mask dacl zero i = false
  scan_aces sid access_mask dacl (suc left) i =
      elim (ace_decides sid access_mask (api.get_ace dacl i)) [
        | none ↦ scan_aces sid access_mask dacl left (i + 1)
        | some decision ↦ decision
      ]

  -- HasAccess; the list is `none` for NULL.
  pub has_access : Sid → ℕ → Option Acl → Bool
  unfolding scan_aces
  has_access sid access_mask none = false
  has_access sid access_mask (some dacl) = elim (api.ace_count dacl) [
    | none ↦ false
    | some count ↦ scan_aces sid (api.map_generic_mask access_mask) dacl count 0
  ]

-- What CreateMachineState calls, over a state `W` with the security of the machine's key. The absolute
-- copy of a descriptor `Sd` stands as its list.
pub record MachineApi (W Sid Acl Sd : Type 0) : Type 0 where
  pub locks : W → Bool
  pub create_key : W → Bool × W
  -- CreateWellKnownSid of WinBuiltinUsersSid
  pub users_sid : Sid
  pub get_key_security : W → Option Sd
  -- MakeAbsoluteSD, and SetEntriesInAcl with all rights for "Everyone"
  pub make_absolute_sd : Sd → Option Acl
  pub set_entries_in_acl : Acl → Option Acl
  -- SetSecurityDescriptorDacl on the copy
  pub set_security_descriptor_dacl : Sd → Acl → Option Sd
  pub set_key_security : W → Sd → Bool × W

module _ {W Sid Acl Sd : Type 0} (api : AclApi Sid Acl) (machine : MachineApi W Sid Acl Sd) where
  -- From SetEntriesInAcl on.
  give_access : W → Sd → Acl → Bool × W
  give_access w original_sd dacl = elim (machine.set_entries_in_acl dacl) [
    | none ↦ (false, w)
    | some new_dacl ↦ elim (machine.set_security_descriptor_dacl original_sd new_dacl) [
      | none ↦ (false, w)
      | some new_sd ↦ machine.set_key_security w new_sd
    ]
  ]

  -- From the open key on.
  change_security : W → Bool × W
  unfolding has_access give_access
  change_security w = elim (machine.get_key_security w) [
    | none ↦ (false, w)
    | some original_sd ↦ elim (machine.make_absolute_sd original_sd) [
      | none ↦ (false, w)
      | some dacl ↦
          if has_access api machine.users_sid key_all_access (some dacl)
          then (false, w)
          else give_access w original_sd dacl
    ]
  ]

  pub create_machine_state : W → Bool × W
  unfolding change_security
  create_machine_state w =
      if not (machine.locks w)
      then (false, w)
      else let (made, w') = machine.create_key w in
        if not made then (false, w') else change_security w'
