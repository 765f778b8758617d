-- ===== src/ProcessInfo/Laws.antt =====
-- HasAdminRights of win/lib/process_info.cc, and HasUserKeyAccess of win/lib/registry_util.cc.
use rlz.Prelude.{
  ◌≡◌, refl, sym, Bool, true, false, not, some, ◌⊎◌, inl, inr, Option-cases, bytes, bytes_eq, arith,
}
use rlz.ProcessInfo.{
  IntegrityLevel, integrity_unknown, low_integrity, medium_integrity, high_integrity, ProcessApi,
  Statics, Run, crashed, returned, account_of, is_running_as_system, has_admin_rights,
  is_low_or_unknown, write_allowed, has_user_key_access,
}

Run-cases : {A : Type 0} (x : Run A) → (x ≡ crashed) ⊎ ((a : A) × (x ≡ returned a))
Run-cases crashed = inl refl
Run-cases (returned a) = inr (a, refl)

-- Whatever the system says: once HasAdminRights has returned, every later call returns the same result
-- and changes nothing, also when the system would by then answer otherwise.
pub has_admin_rights_kept :
    {Token : Type 0} (api later : ProcessApi Token) (st st' : Statics) (rights : Bool)
    → has_admin_rights api st ≡ returned (rights, st')
    → has_admin_rights later st' ≡ returned (rights, st')
unfolding has_admin_rights
has_admin_rights_kept api later st st' rights h = elim (Run-cases (is_running_as_system api st)) [
  | inl stops ↦ ground (arith, stops)
  | inr ((system, found), runs) ↦ ground (arith, runs)
]

module _ {Token : Type 0} (api : ProcessApi Token) where
  write_allowed_level :
      api.is_vista ≡ true
      → write_allowed api ≡ true
      → (level : IntegrityLevel) × (api.process_integrity_level ≡ some level)
        × ((level ≡ medium_integrity) ⊎ (level ≡ high_integrity))
  unfolding write_allowed is_low_or_unknown
  write_allowed_level vista allowed = elim (Option-cases api.process_integrity_level) [
    | inl unknown ↦ absurd (ground (arith, vista, unknown))
    | inr (level, known) ↦ (level, known, above level (ground (arith, vista, known)))
  ]
    where
      above :
          (level : IntegrityLevel)
          → not (is_low_or_unknown api level) ≡ true
          → (level ≡ medium_integrity) ⊎ (level ≡ high_integrity)
      above integrity_unknown h = ground arith
      above low_integrity h = ground arith
      above medium_integrity h = inl refl
      above high_integrity h = inr refl

  running_name :
      (st st' : Statics) (system : Bool)
      → is_running_as_system api st ≡ returned (system, st')
      → system ≡ bytes_eq st'.account.name (bytes "SYSTEM")
  unfolding is_running_as_system
  running_name st st' system h = elim (Run-cases (account_of api st)) [
    | inl stops ↦ ground (arith, stops)
    | inr (found, runs) ↦ ground (arith, runs)
  ]

  allowed_to_write :
      (st st' : Statics)
      → has_user_key_access api st true ≡ returned (true, st')
      → (is_running_as_system api st ≡ returned (false, st')) × (write_allowed api ≡ true)
  unfolding has_user_key_access
  allowed_to_write st st' h = elim (Run-cases (is_running_as_system api st)) [
    | inl stops ↦ absurd (ground (arith, stops))
    | inr ((true, found), runs) ↦ absurd (ground (arith, runs))
    | inr ((false, found), runs) ↦ ground (arith, runs)
  ]

-- Where HasUserKeyAccess returns true for an access that writes: it also returns true for one that
-- reads, the account is not SYSTEM, and from Vista on the integrity level of the process is known, and
-- is medium or high.
pub has_user_key_access_safe :
    {Token : Type 0} (api : ProcessApi Token) (st st' : Statics)
    → has_user_key_access api st true ≡ returned (true, st')
    → (has_user_key_access api st false ≡ returned (true, st'))
      × (bytes_eq st'.account.name (bytes "SYSTEM") ≡ false)
      × (api.is_vista ≡ true
          → (level : IntegrityLevel) × (api.process_integrity_level ≡ some level)
            × ((level ≡ medium_integrity) ⊎ (level ≡ high_integrity)))
unfolding has_user_key_access
has_user_key_access_safe api st st' h =
    let (other, allowed) = allowed_to_write api st st' h in
    (
      rw (has_user_key_access, other),
      sym (running_name api st st' false other),
      λ vista. write_allowed_level api vista allowed,
    )
