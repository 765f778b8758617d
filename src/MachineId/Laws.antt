-- ===== src/MachineId/Laws.antt =====
-- The form of the identifier of lib/machine_id.cc.
use rlz.Prelude.{
  ℕ, zero, suc, ◌+◌, ◌*◌, ◌/◌, ◌%◌, ◌^◌, ◌<◌, ◌≡◌, refl, ap, sym, ◌∙◌, true, false, List, [], ◌∷◌,
  ◌++◌, Option, some, Bytes, bit_xor, bit_and_byte, length, length-append, replicate, set,
  set-append, take, take_at, take_all, arith,
}
use mathlib.Core.List.{append_assoc, append-nil}
use rlz.Base.{Base, BaseLaws}
use rlz.StringUtils.Hex.{AreBytes, pairs}
use rlz.StringUtils.Fill.{bytes_to_string-pairs}
use rlz.Crc8.{crc_loop, generate, verify}
use rlz.Crc8.Detection.{verify-generate, checksum-lt}
use rlz.MachineId.{
  overwrite, raw_bytes, volume_bytes, id_binary, get_machine_id_impl, Cache, get_machine_id,
}

-- The serial number, the top byte first.
abbrev pub volume_text : ℕ → Bytes
volume_text v = (v / 2 ^ 24 % 256) ∷ (v / 2 ^ 16 % 256) ∷ (v / 2 ^ 8 % 256) ∷ (v % 256) ∷ []

overwrite-replicate :
    (s : Bytes) (n k : ℕ) → n ≡ length s + k → overwrite s (replicate n 0) ≡ s ++ replicate k 0
overwrite-replicate [] n k h = let e : n ≡ k = omega arith in rw e
overwrite-replicate (c ∷ s) zero k h = absurd (omega arith)
overwrite-replicate (c ∷ s) (suc n) k h = ap (◌∷◌ c) (overwrite-replicate s n k (omega arith))

four_writes :
    (digest : Bytes) (a b c d : ℕ)
    → length digest ≡ 20
    → set (set (set (set (digest ++ replicate 5 0) 20 a) 21 b) 22 c) 23 d
      ≡ digest ++ (a ∷ b ∷ c ∷ d ∷ 0 ∷ [])
four_writes digest a b c d h =
    rw (set-append digest (0 ∷ 0 ∷ 0 ∷ 0 ∷ 0 ∷ []) 20 0 a (omega arith)) (
      rw (set-append digest (a ∷ 0 ∷ 0 ∷ 0 ∷ 0 ∷ []) 21 1 b (omega arith)) (
        rw (set-append digest (a ∷ b ∷ 0 ∷ 0 ∷ 0 ∷ []) 22 2 c (omega arith))
          (set-append digest (a ∷ b ∷ c ∷ 0 ∷ 0 ∷ []) 23 3 d (omega arith))))

volume_bytes-append :
    (digest : Bytes) (v : ℕ)
    → length digest ≡ 20
    → volume_bytes v (digest ++ replicate 5 0) ≡ digest ++ (volume_text v ++ 0 ∷ [])
unfolding volume_bytes
volume_bytes-append digest v h =
    let last : v / 1 % 256 ≡ v % 256 = omega arith in
    rw
      (
        bit_and_byte (v / 2 ^ 24),
        bit_and_byte (v / 2 ^ 16),
        bit_and_byte (v / 2 ^ 8),
        bit_and_byte (v / 2 ^ 0),
        last,
      )
      (four_writes digest (v / 2 ^ 24 % 256) (v / 2 ^ 16 % 256) (v / 2 ^ 8 % 256) (v % 256) h)

AreBytes-volume :
    (digest : Bytes) (v c : ℕ)
    → AreBytes digest
    → c < 256
    → AreBytes (digest ++ (volume_text v ++ c ∷ []))
AreBytes-volume [] v c h k = (omega arith, (omega arith, (omega arith, (omega arith, (k, tt)))))
AreBytes-volume (b ∷ digest) v c h k = (h.0, AreBytes-volume digest v c h.1 k)

AreBytes-message : (digest : Bytes) (v : ℕ) → AreBytes digest → AreBytes (digest ++ volume_text v)
AreBytes-message [] v h = (omega arith, (omega arith, (omega arith, (omega arith, tt))))
AreBytes-message (b ∷ digest) v h = (h.0, AreBytes-message digest v h.1)

length-pairs : (source : Bytes) → length (pairs source) ≡ 2 * length source
length-pairs [] = refl
length-pairs (b ∷ source) = omega (arith, length-pairs source)

module _ (base : Base) where
  -- The message under the checksum: the SHA-1 of the SID, and the serial number.
  abbrev pub id_message : ℕ → List ℕ → ℕ → Bytes
  id_message u sid v = base.sha1_hash_string (raw_bytes (u ∷ sid)) ++ volume_text v

module _ (base : Base) (laws : BaseLaws base) where
  length-id_message : (u : ℕ) (sid : List ℕ) (v : ℕ) → length (id_message base u sid v) ≡ 24
  length-id_message u sid v =
      let digest = base.sha1_hash_string (raw_bytes (u ∷ sid)) in
      omega (arith, length-append digest (volume_text v), laws.sha1_length (raw_bytes (u ∷ sid)))

  before_checksum :
      (u : ℕ) (sid : List ℕ) (v : ℕ)
      → volume_bytes v (overwrite (base.sha1_hash_string (raw_bytes (u ∷ sid))) (replicate 25 0))
        ≡ id_message base u sid v ++ 0 ∷ []
  before_checksum u sid v =
      let digest = base.sha1_hash_string (raw_bytes (u ∷ sid)) in
      let size = laws.sha1_length (raw_bytes (u ∷ sid)) in
      ap (volume_bytes v) (overwrite-replicate digest 25 5 (omega (arith, size)))
      ∙ (volume_bytes-append digest v size ∙ sym (append_assoc digest (volume_text v) (0 ∷ [])))

  id_binary-message :
      (u : ℕ) (sid : List ℕ) (v c : ℕ)
      → generate (some (id_message base u sid v)) 24 (some 0) ≡ (true, some c)
      → id_binary base (u ∷ sid) v ≡ id_message base u sid v ++ c ∷ []
  unfolding id_binary generate
  id_binary-message u sid v c h =
      let size = length-id_message u sid v in
      let message = id_message base u sid v in
      let shorter : take 24 (message ++ 0 ∷ []) ≡ message =
        take_at message (0 ∷ []) 24 0 (omega (arith, size)) ∙ append-nil message in
      let whole = take_all 24 message (omega (arith, size)) in
      rw
        (
          before_checksum u sid v,
          shorter,
          set-append message (0 ∷ []) 24 0 (bit_xor (crc_loop 0 message) 0x55)
              (omega (arith, size)),
        )
        (ground (arith, whole))

  id-AreBytes :
      (u : ℕ) (sid : List ℕ) (v c : ℕ)
      → AreBytes (base.sha1_hash_string (raw_bytes (u ∷ sid)))
      → generate (some (id_message base u sid v)) 24 (some 0) ≡ (true, some c)
      → AreBytes (id_message base u sid v ++ c ∷ [])
  id-AreBytes u sid v c valid sum =
      let message = id_message base u sid v in
      let digest = base.sha1_hash_string (raw_bytes (u ∷ sid)) in
      let whole = take_all 24 message (omega (arith, length-id_message u sid v)) in
      let byte = checksum-lt message 24 c 0 (rw whole (AreBytes-message digest v valid)) sum in
      rw append_assoc (AreBytes-volume digest v c valid byte)

  -- The 24 bytes under the checksum do not change with it.
  same_sum :
      (u : ℕ) (sid : List ℕ) (v c : ℕ)
      → generate (some (id_message base u sid v ++ c ∷ [])) 24 (some 0)
        ≡ generate (some (id_message base u sid v)) 24 (some 0)
  unfolding generate
  same_sum u sid v c =
      let message = id_message base u sid v in
      let size = length-id_message u sid v in
      rw (
        take_at message (c ∷ []) 24 0 (omega (arith, size)),
        append-nil message,
        take_all 24 message (omega (arith, size)),
      )

  identifier :
      (u : ℕ) (sid : List ℕ) (v c : ℕ)
      → generate (some (id_message base u sid v)) 24 (some 0) ≡ (true, some c)
      → AreBytes (id_message base u sid v ++ c ∷ [])
      → get_machine_id_impl base (u ∷ sid) v
        ≡ (true, some (pairs (id_message base u sid v ++ c ∷ [])))
  unfolding get_machine_id_impl
  identifier u sid v c sum valid =
      let size = length-id_message u sid v in
      let longer = length-append (id_message base u sid v) (c ∷ []) in
      rw (id_binary-message u sid v c sum) (
        bytes_to_string-pairs (id_message base u sid v ++ c ∷ []) 25 [] valid (omega arith)
          (omega (arith, longer, size))
        ∙ ap (λ (t : Bytes). (true, some (pairs t)))
            (take_all 25 (id_message base u sid v ++ c ∷ []) (omega (arith, longer, size))))

  -- For a machine with a SID whose SHA-1 digest consists of bytes, GetMachineIdImpl returns true
  -- and 50 hexadecimal digits: those of the digest, of the serial number with its top byte first,
  -- and of the checksum byte that Crc8::Generate writes for these 24 bytes; Crc8::Verify accepts
  -- it.
  pub get_machine_id_impl-pairs :
      (u : ℕ) (sid : List ℕ) (v c : ℕ)
      → AreBytes (base.sha1_hash_string (raw_bytes (u ∷ sid)))
      → generate (some (id_message base u sid v)) 24 (some 0) ≡ (true, some c)
      → (get_machine_id_impl base (u ∷ sid) v
          ≡ (true, some (pairs (id_message base u sid v ++ c ∷ []))))
        × (length (pairs (id_message base u sid v ++ c ∷ [])) ≡ 50)
        × (verify (some (id_message base u sid v ++ c ∷ [])) 24 c (some false) ≡ (true, some true))
  get_machine_id_impl-pairs u sid v c valid sum =
      let message = id_message base u sid v in
      let size = length-id_message u sid v in
      let longer = length-append message (c ∷ []) in
      let all_bytes = id-AreBytes u sid v c valid sum in
      (
        identifier u sid v c sum all_bytes,
        omega (arith, length-pairs (message ++ c ∷ []), longer, size),
        verify-generate (message ++ c ∷ []) 24 c 0 false (same_sum u sid v c ∙ sum),
      )

module _ (base : Base) where
  -- GetMachineId computes once: after a call that succeeded, every later one gives the same
  -- identifier, whatever the machine's data are by then, and leaves what is stored.
  pub get_machine_id_again :
      (cache cache' : Cache) (raw raw' : Option (List ℕ × ℕ)) (old old' id : Bytes)
      → get_machine_id base cache raw (some old) ≡ ((true, some id), cache')
      → get_machine_id base cache' raw' (some old') ≡ ((true, some id), cache')
  unfolding get_machine_id
  get_machine_id_again cache cache' raw raw' old old' id h = ground arith
