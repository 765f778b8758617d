-- ===== src/MachineId.antt =====
-- lib/machine_id.cc: the machine's identifier. GetRawMachineId, of the platforms, is a parameter; a
-- string16 is the list of its 16-bit units, laid out low byte first, and an `int` is its 32-bit pattern.
pub mod Laws
use rlz.Prelude.{
  ℕ, ◌+◌, ◌*◌, ◌/◌, ◌%◌, ◌^◌, Bool, true, false, not, ◌||◌, List, [], ◌∷◌, Option, none, some,
  Bytes, bit_and, replicate, set, ◌==◌, if◌then◌else◌,
}
use rlz.Base.{Base}
use rlz.StringUtils.{bytes_to_string}
use rlz.Crc8.{generate}

-- base::kSHA1Length + sizeof(int).
abbrev pub size_without_checksum : ℕ
size_without_checksum = 24

-- std::copy of the source over the front of the destination.
abbrev pub overwrite : Bytes → Bytes → Bytes
overwrite [] destination = destination
overwrite (a ∷ source) [] = []
overwrite (a ∷ source) (b ∷ destination) = a ∷ overwrite source destination

-- The characters of a string16 as they stand in memory.
abbrev pub raw_bytes : List ℕ → Bytes
raw_bytes [] = []
raw_bytes (u ∷ units) = (u % 256) ∷ (u / 256) ∷ raw_bytes units

-- (volume_id >> shift_bits) & 0xFF for the shifts 24, 16, 8 and 0.
volume_bytes : ℕ → Bytes → Bytes
volume_bytes volume_id id =
    set
      (set
        (set (set id 20 (bit_and (volume_id / 2 ^ 24) 0xFF)) 21 (bit_and (volume_id / 2 ^ 16) 0xFF))
        22 (bit_and (volume_id / 2 ^ 8) 0xFF))
      23 (bit_and (volume_id / 2 ^ 0) 0xFF)

-- The checksum byte that Generate wrote.
put_checksum : Bytes → Bool × Option ℕ → Bytes
put_checksum id (result, none) = id
put_checksum id (result, some check_sum) = set id size_without_checksum check_sum

module _ (base : Base) where
  put_digest : List ℕ → Bytes → Bytes
  put_digest [] id = id
  put_digest (u ∷ sid_string) id = overwrite (base.sha1_hash_string (raw_bytes (u ∷ sid_string))) id

  is_empty_sid : List ℕ → Bool
  is_empty_sid [] = true
  is_empty_sid (u ∷ sid_string) = false

  id_binary : List ℕ → ℕ → Bytes
  unfolding put_digest volume_bytes is_empty_sid put_checksum
  id_binary sid_string volume_id =
      let id =
        volume_bytes volume_id (put_digest sid_string (replicate (size_without_checksum + 1) 0)) in
      if not (is_empty_sid sid_string) || not (volume_id == 0)
      then put_checksum id (generate (some id) size_without_checksum (some 0))
      else id

  -- The result, and *machine_id.
  unfoldable pub get_machine_id_impl : List ℕ → ℕ → Bool × Option Bytes
  unfolding id_binary
  get_machine_id_impl sid_string volume_id =
      bytes_to_string (some (id_binary sid_string volume_id)) (size_without_checksum + 1) (some [])

-- The static variables of GetMachineId.
pub record Cache : Type 0 where
  pub calculated_id : Bytes
  pub calculated : Bool

module _ (base : Base) where
  keep_id : Cache → Bool × Option Bytes → (Bool × Option Bytes) × Cache
  keep_id cache (true, some id) =
      ((true, some id), record { calculated_id = id; calculated = true })
  keep_id cache (true, none) = ((false, none), cache)
  keep_id cache (false, id) = ((false, id), cache)

  calculate : Cache → Bytes → Option (List ℕ × ℕ) → (Bool × Option Bytes) × Cache
  unfolding keep_id
  calculate cache machine_id none = ((false, some machine_id), cache)
  calculate cache machine_id (some (sid_string, volume_id)) =
      keep_id cache (get_machine_id_impl base sid_string volume_id)

  -- With what GetRawMachineId gives (`none` for false) and the old value of *machine_id.
  unfoldable pub get_machine_id :
      Cache → Option (List ℕ × ℕ) → Option Bytes → (Bool × Option Bytes) × Cache
  unfolding calculate
  get_machine_id cache raw none = ((false, none), cache)
  get_machine_id cache raw (some machine_id) =
      if cache.calculated
      then ((true, some cache.calculated_id), cache)
      else calculate cache machine_id raw
