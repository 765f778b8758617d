-- ===== src/AccessControl/Scan.antt =====
-- HasAccess of win/lib/rlz_lib_win.cc against what the order of the entries means.
use rlz.Prelude.{
  ℕ, zero, suc, ◌+◌, ◌<◌, ◌≤◌, ◌⊎◌, ◌≡◌, refl, Bool, true, false, not, ◌&&◌, Option, none, some,
  inl, inr, Bool-cases, bit_and, ◌==◌, if◌then◌else◌, arith,
}
use rlz.AccessControl.{
  Ace, AclApi, inherit_only_ace, access_allowed_ace_type, access_denied_ace_type, ace_decides,
  scan_aces,
}

≤-cases : (i k : ℕ) → i ≤ k → (i ≡ k) ⊎ (i + 1 ≤ k)
≤-cases i k h = omega arith

module _ {Sid Acl : Type 0} (api : AclApi Sid Acl) (sid : Sid) (wanted : ℕ) where
  -- The entry counts for the account here, and is not only to be inherited.
  abbrev pub applies : Ace Sid → Bool
  applies ace =
      not (bit_and ace.ace_flags inherit_only_ace == inherit_only_ace)
      && api.equal_sid ace.sid_start sid

  -- An entry gives the account all of the wanted rights.
  abbrev pub gives : Option (Ace Sid) → Bool
  gives none = false
  gives (some ace) =
      applies ace
      && ((ace.ace_type == access_allowed_ace_type)
          && (bit_and (api.map_generic_mask ace.mask) wanted == wanted))

  -- An entry denies the account one of the wanted rights.
  abbrev pub denies : Option (Ace Sid) → Bool
  denies none = false
  denies (some ace) =
      applies ace
      && ((ace.ace_type == access_denied_ace_type)
          && not (bit_and (api.map_generic_mask ace.mask) wanted == 0))

  -- An entry from `i` on, and before `last`, gives the rights, and none before it from `i` on denies one.
  unfoldable pub GivenFrom : Acl → ℕ → ℕ → Type 0
  GivenFrom dacl i last =
      (k : ℕ) × (i ≤ k)
      × (k < last)
      × (gives (api.get_ace dacl k) ≡ true)
      × ((j : ℕ) → i ≤ j → j < k → denies (api.get_ace dacl j) ≡ false)

  ace_decides_lem :
      (ace : Option (Ace Sid))
      → ace_decides api sid wanted ace
        ≡ (if gives ace then some true else if denies ace then some false else none)
  unfolding ace_decides
  ace_decides_lem none = refl
  ace_decides_lem (some ace) = ground arith

  scan_step :
      (dacl : Acl) (left i : ℕ)
      → scan_aces api sid wanted dacl (suc left) i ≡ (
          if gives (api.get_ace dacl i)
          then true
          else if denies (api.get_ace dacl i)
          then false
          else scan_aces api sid wanted dacl left (i + 1))
  unfolding scan_aces
  scan_step dacl left i = ground (arith, ace_decides_lem (api.get_ace dacl i))

  pub scan-given :
      (dacl : Acl) (left i : ℕ)
      → scan_aces api sid wanted dacl left i ≡ true
      → GivenFrom dacl i (i + left)
  unfolding scan_aces GivenFrom
  scan-given dacl zero i h = ground arith
  scan-given dacl (suc left) i h = elim (Bool-cases (gives (api.get_ace dacl i))) [
    | inl given ↦ (i, omega arith, omega arith, given, λ j from before. absurd (omega arith))
    | inr other ↦
        let stays : denies (api.get_ace dacl i) ≡ false = ground (arith, scan_step dacl left i) in
        let later : scan_aces api sid wanted dacl left (i + 1) ≡ true =
          ground (arith, scan_step dacl left i) in
        let (k, from, before, given, none_denies) = scan-given dacl left (i + 1) later in
        (
          k,
          omega arith,
          omega arith,
          given,
          λ j above below. elim (≤-cases i j above) [
            | inl same ↦ rw (← same) stays
            | inr more ↦ none_denies j more below
          ],
        )
  ]

  pub given-scan :
      (dacl : Acl) (left i : ℕ)
      → GivenFrom dacl i (i + left)
      → scan_aces api sid wanted dacl left i ≡ true
  unfolding scan_aces GivenFrom
  given-scan dacl zero i (k, from, before, given, none_denies) = absurd (omega arith)
  given-scan dacl (suc left) i (k, from, before, given, none_denies) = elim (≤-cases i k from) [
    | inl same ↦
        let here : gives (api.get_ace dacl i) ≡ true = rw same given in
        ground (arith, scan_step dacl left i)
    | inr more ↦
        let rest =
          given-scan dacl left (i + 1)
            (k, more, omega arith, given, λ j above below. none_denies j (omega arith) below) in
        ground (arith, scan_step dacl left i, none_denies i (omega arith) (omega arith), rest)
  ]
