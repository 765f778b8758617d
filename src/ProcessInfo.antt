-- ===== src/ProcessInfo.antt =====
-- win/lib/process_info.cc and HasUserKeyAccess of win/lib/registry_util.cc: the rights of the process.
-- What they ask of the system is a parameter; the static variables are a state.
pub mod Laws
use rlz.Prelude.{
  ℕ, Bool, true, false, not, ◌&&◌, ◌||◌, List, [], ◌∷◌, Option, none, some, Bytes, bytes, bytes_eq,
  is_empty, ◌==◌, if◌then◌else◌,
}

-- base::IntegrityLevel, in its order.
pub data IntegrityLevel : Type 0 where
  integrity_unknown low_integrity medium_integrity high_integrity : IntegrityLevel

pub data ElevationType : Type 0 where
  elevation_default elevation_full elevation_limited : ElevationType

-- The name, domain and SID of an account.
pub record Account : Type 0 where
  pub name : Bytes
  pub domain : Bytes
  pub sid : Bytes

pub record ProcessApi (Token : Type 0) : Type 0 where
  -- GetVersion() >= VERSION_VISTA
  pub is_vista : Bool
  -- OpenProcessToken of the current process with TOKEN_QUERY
  pub opens_token : Bool
  -- GetTokenInformation with no buffer fails with ERROR_INSUFFICIENT_BUFFER
  pub asks_for_buffer : Bool
  -- GetTokenInformation of TokenUser and of TokenElevationType; `none` for an error
  pub token_user : Option Token
  pub token_elevation : Option ElevationType
  -- LookupAccountSid with ConvertSidToStringSid
  pub lookup_account : Token → Option Account
  pub process_integrity_level : Option IntegrityLevel
  -- AllocateAndInitializeSid of a built-in group, and CheckTokenMembership; `none` for an error
  pub allocates_sid : ℕ → Bool
  pub is_member : ℕ → Option Bool

-- The static variables of IsRunningAsSystem and HasAdminRights.
pub record Statics : Type 0 where
  pub account : Account
  pub evaluated : Bool
  pub has_rights : Bool

abbrev pub no_account : Account
no_account = record { name = []; domain = []; sid = [] }

abbrev pub initial_statics : Statics
initial_statics = record { account = no_account; evaluated = false; has_rights = false }

-- A CHECK that fails ends the process.
pub data Run (A : Type 0) : Type 0 where
  crashed : Run A
  returned : A → Run A

abbrev domain_alias_rid_admins : ℕ
domain_alias_rid_admins = 0x220

abbrev domain_alias_rid_power_users : ℕ
domain_alias_rid_power_users = 0x223

module _ {Token : Type 0} (api : ProcessApi Token) where
  -- `none` where the result is not S_OK.
  get_current_user : Run (Option Account)
  get_current_user =
      if not api.opens_token
      then returned none
      else if not api.asks_for_buffer
      then crashed
      else elim api.token_user [
        | none ↦ returned none
        | some token ↦ returned (api.lookup_account token)
      ]

  -- `none` where the result is not S_OK.
  get_elevation_type : Option ElevationType
  get_elevation_type =
      if not api.is_vista then none else if not api.opens_token then none else api.token_elevation

  -- The group that the entry of the list gives, or 0.
  group_of : ℕ → ℕ
  group_of user_group =
      if api.allocates_sid user_group
      then elim (api.is_member user_group) [
        | none ↦ 0
        | some current_level ↦ if current_level then user_group else 0
      ]
      else 0

  user_group_loop : List ℕ → ℕ
  unfolding group_of
  user_group_loop [] = 0
  user_group_loop (user_group ∷ rest) =
      let later = user_group_loop rest in
      let group = group_of user_group in if group == 0 then later else group

  -- The result is `group != 0` for the pointer, which is not NULL.
  pub get_user_group : Bool × ℕ
  unfolding user_group_loop
  get_user_group =
      (true, user_group_loop (domain_alias_rid_admins ∷ domain_alias_rid_power_users ∷ []))

  -- The account, from the static variables or the system.
  account_of : Statics → Run Account
  unfolding get_current_user
  account_of st =
      if not (is_empty st.account.name) then returned st.account else elim get_current_user [
        | crashed ↦ crashed
        | returned none ↦ crashed
        | returned (some found) ↦ returned found
      ]

  pub is_running_as_system : Statics → Run (Bool × Statics)
  unfolding account_of
  is_running_as_system st = elim (account_of st) [
    | crashed ↦ crashed
    | returned found ↦
        returned (bytes_eq found.name (bytes "SYSTEM"), record st { account = found })
  ]

  is_full : ElevationType → Bool
  is_full elevation_full = true
  is_full _ = false

  is_high : IntegrityLevel → Bool
  is_high high_integrity = true
  is_high _ = false

  -- has_rights for an account that is not SYSTEM, from its value before.
  evaluate_rights : Bool → Bool
  unfolding get_elevation_type get_user_group is_full is_high
  evaluate_rights has_rights =
      if api.is_vista
      then elim get_elevation_type [
        | none ↦ has_rights
        | some elevation ↦ elim api.process_integrity_level [
          | none ↦ has_rights
          | some level ↦ is_full elevation || is_high level
        ]
      ]
      else if get_user_group.0
      then get_user_group.1 == domain_alias_rid_admins
      else has_rights

  unfoldable pub has_admin_rights : Statics → Run (Bool × Statics)
  unfolding is_running_as_system evaluate_rights
  has_admin_rights st =
      if st.evaluated then returned (st.has_rights, st) else elim (is_running_as_system st) [
        | crashed ↦ crashed
        | returned (system, st') ↦
            let rights = if system then true else evaluate_rights st'.has_rights in
            returned (rights, record st' { evaluated = true; has_rights = rights })
      ]

  is_low_or_unknown : IntegrityLevel → Bool
  is_low_or_unknown integrity_unknown = true
  is_low_or_unknown low_integrity = true
  is_low_or_unknown _ = false

  -- Past the test for SYSTEM.
  write_allowed : Bool
  unfolding is_low_or_unknown
  write_allowed = if not api.is_vista then true else elim api.process_integrity_level [
    | none ↦ false
    | some level ↦ not (is_low_or_unknown level)
  ]

  unfoldable pub has_user_key_access : Statics → Bool → Run (Bool × Statics)
  unfolding is_running_as_system write_allowed
  has_user_key_access st write_access = elim (is_running_as_system st) [
    | crashed ↦ crashed
    | returned (system, st') ↦
        returned ((if system then false else if write_access then write_allowed else true), st')
  ]
