-- ===== src/AccessControl/Laws.antt =====
-- HasAccess and CreateMachineState of win/lib/rlz_lib_win.cc.
use rlz.Prelude.{ℕ, ◌+◌, ◌<◌, ◌≡◌, sym, ap, ◌∙◌, Bool, true, false, some, ◌↔◌, arith}
use rlz.AccessControl.{
  AclApi, MachineApi, key_all_access, scan_aces, has_access, change_security, create_machine_state,
}
use rlz.AccessControl.Scan.{gives, denies, GivenFrom, scan-given, given-scan}

-- Some entry of the list gives the account all the rights, and no entry before it denies it one.
abbrev pub Given : {Sid Acl : Type 0} → AclApi Sid Acl → Sid → ℕ → Acl → ℕ → Type 0
Given api sid access_mask dacl count =
    (k : ℕ) × (k < count)
    × (gives api sid (api.map_generic_mask access_mask) (api.get_ace dacl k) ≡ true)
    × ((j : ℕ)
        → j < k
        → denies api sid (api.map_generic_mask access_mask) (api.get_ace dacl j) ≡ false)

module _ {Sid Acl : Type 0} (api : AclApi Sid Acl) (sid : Sid) (access_mask : ℕ) (dacl : Acl)
    (count : ℕ) where
  counted :
      api.ace_count dacl ≡ some count
      → has_access api sid access_mask (some dacl)
        ≡ scan_aces api sid (api.map_generic_mask access_mask) dacl count 0
  unfolding has_access
  counted h = rw (has_access, h)

  to_first :
      GivenFrom api sid (api.map_generic_mask access_mask) dacl 0 (0 + count)
      → Given api sid access_mask dacl count
  unfolding GivenFrom
  to_first (k, from, before, given, none_denies) =
      (k, omega arith, given, λ j below. none_denies j (omega arith) below)

  range_of :
      Given api sid access_mask dacl count
      → GivenFrom api sid (api.map_generic_mask access_mask) dacl 0 (0 + count)
  unfolding GivenFrom
  range_of (k, before, given, none_denies) =
      (k, omega arith, omega arith, given, λ j above below. none_denies j below)

-- For an access control list whose number of entries can be got: HasAccess returns true exactly when
-- some entry allows the account all of the mapped rights and no earlier entry denies it one of them,
-- where entries that are only inherited, entries of other accounts and entries that cannot be read
-- count for nothing.
pub has_access_iff :
    {Sid Acl : Type 0} (api : AclApi Sid Acl) (sid : Sid) (access_mask : ℕ) (dacl : Acl) (count : ℕ)
    → api.ace_count dacl ≡ some count
    → (has_access api sid access_mask (some dacl) ≡ true) ↔ Given api sid access_mask dacl count
has_access_iff api sid access_mask dacl count h = (
  λ yes. to_first api sid access_mask dacl count (
      scan-given api sid (api.map_generic_mask access_mask) dacl count 0
        (sym (counted api sid access_mask dacl count h) ∙ yes)),
  λ given.
      counted api sid access_mask dacl count h
      ∙ given-scan api sid (api.map_generic_mask access_mask) dacl count 0
          (range_of api sid access_mask dacl count given),
)

module _ {W Sid Acl Sd : Type 0} (api : AclApi Sid Acl) (machine : MachineApi W Sid Acl Sd) where
  -- Where the lock is got, the machine's key is created and its access control list is read, and some
  -- entry of the list gives the users all rights with no entry before it that denies one:
  -- CreateMachineState returns false, and does not set the security of the key.
  pub create_machine_state_refuses :
      (w w' : W) (sd : Sd) (dacl : Acl) (count : ℕ)
      → machine.locks w ≡ true
      → machine.create_key w ≡ (true, w')
      → machine.get_key_security w' ≡ some sd
      → machine.make_absolute_sd sd ≡ some dacl
      → api.ace_count dacl ≡ some count
      → Given api machine.users_sid key_all_access dacl count
      → create_machine_state api machine w ≡ (false, w')
  unfolding create_machine_state change_security
  create_machine_state_refuses w w' sd dacl count locked made read absolute h given =
      rw
        (
          locked,
          made,
          change_security,
          read,
          absolute,
          (has_access_iff api machine.users_sid key_all_access dacl count h).1 given,
        )
        (ap (λ (x : Bool × W). (false, x.1)) made)
