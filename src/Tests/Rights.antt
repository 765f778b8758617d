-- ===== src/Tests/Rights.antt =====
-- Examples for the access control list of win/lib/rlz_lib_win.cc and the rights of
-- win/lib/process_info.cc.
use rlz.Prelude.{
  ℕ, zero, suc, ◌<◌, ◌≡◌, ◌↔◌, ◌⊎◌, refl, true, false, List, [], ◌∷◌, Option, none, some, bytes,
  bytes_eq, length, ◌==◌, arith,
}
use rlz.AccessControl.{Ace, AclApi, MachineApi, key_all_access, has_access, create_machine_state}
use rlz.AccessControl.Laws.{Given, has_access_iff, create_machine_state_refuses}
use rlz.ProcessInfo.{
  IntegrityLevel, low_integrity, medium_integrity, high_integrity, elevation_default,
  elevation_full, ProcessApi, Account, Statics, initial_statics, returned, has_user_key_access,
}
use rlz.ProcessInfo.Laws.{has_user_key_access_safe}

abbrev get_at : List (Ace ℕ) → ℕ → Option (Ace ℕ)
get_at [] n = none
get_at (ace ∷ aces) zero = some ace
get_at (ace ∷ aces) (suc n) = get_at aces n

-- Accounts are numbers, and masks stand for themselves.
abbrev lists : AclApi ℕ (List (Ace ℕ))
lists = record {
  ace_count = λ aces. some (length aces);
  get_ace = get_at;
  map_generic_mask = λ mask. mask;
  equal_sid = λ a b. a == b;
}

-- A denial for another account, one of another right, and all rights for account 7.
abbrev aces : List (Ace ℕ)
aces =
    record { ace_type = 1; ace_flags = 0; mask = 0xF003F; sid_start = 3 }
    ∷ record { ace_type = 1; ace_flags = 0; mask = 0x100000; sid_start = 7 }
    ∷ record { ace_type = 0; ace_flags = 0; mask = 0xF003F; sid_start = 7 }
    ∷ []

allowed_seven : Given lists 7 0xF003F aces 3
allowed_seven = (2, omega arith, refl, λ j below. denied j below)
  where
    denied : (j : ℕ) → j < 2 → rlz.AccessControl.Scan.denies lists 7 0xF003F (get_at aces j) ≡ false
    denied zero h = refl
    denied (suc zero) h = refl
    denied (suc (suc j)) h = absurd (omega arith)

has_access_iff_example :
    (has_access lists 7 0xF003F (some aces) ≡ true) ↔ Given lists 7 0xF003F aces 3
has_access_iff_example = has_access_iff lists 7 0xF003F aces 3 refl

-- The key's security is its list.
abbrev machine : MachineApi (List (Ace ℕ)) ℕ (List (Ace ℕ)) (List (Ace ℕ))
machine = record {
  locks = λ w. true;
  create_key = λ w. (true, w);
  users_sid = 7;
  get_key_security = λ w. some w;
  make_absolute_sd = λ sd. some sd;
  set_entries_in_acl =
      λ acl. some (record { ace_type = 0; ace_flags = 3; mask = 0xF003F; sid_start = 1 } ∷ acl);
  set_security_descriptor_dacl = λ sd acl. some acl;
  set_key_security = λ w sd. (true, sd);
}

create_machine_state_refuses_example : create_machine_state lists machine aces ≡ (false, aces)
create_machine_state_refuses_example =
    create_machine_state_refuses lists machine aces aces aces aces 3 refl refl refl refl refl
      allowed_seven

abbrev user_account : Account
user_account = record { name = bytes "joe"; domain = bytes "HOME"; sid = bytes "S-1-5-21-7" }

abbrev elevated : ProcessApi ℕ
elevated = record {
  is_vista = true;
  opens_token = true;
  asks_for_buffer = true;
  token_user = some 7;
  token_elevation = some elevation_full;
  lookup_account = λ token. some user_account;
  process_integrity_level = some high_integrity;
  allocates_sid = λ group. true;
  is_member = λ group. some false;
}

abbrev restricted : ProcessApi ℕ
restricted = record elevated {
  token_elevation = some elevation_default;
  process_integrity_level = some low_integrity;
}

abbrev with_rights : Statics
with_rights = record { account = user_account; evaluated = true; has_rights = true }

abbrev known_user : Statics
known_user = record { account = user_account; evaluated = false; has_rights = false }

has_user_key_access_safe_example :
    (has_user_key_access elevated initial_statics false ≡ returned (true, known_user))
    × (bytes_eq known_user.account.name (bytes "SYSTEM") ≡ false)
    × (elevated.is_vista ≡ true
        → (level : IntegrityLevel) × (elevated.process_integrity_level ≡ some level)
          × ((level ≡ medium_integrity) ⊎ (level ≡ high_integrity)))
unfolding has_user_key_access
has_user_key_access_safe_example = has_user_key_access_safe elevated initial_statics known_user refl
