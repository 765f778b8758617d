-- ===== src/Tests/Numbers.antt =====
-- Examples for lib/string_utils.cc, lib/crc8.cc, lib/crc32_wrapper.cc and lib/machine_id.cc.
use rlz.Prelude.{ℕ, ◌≡◌, refl, true, false, [], ◌∷◌, ◌++◌, some, Bytes, bytes, bit_xor, arith}
use rlz.Base.Sample.{sample}
use rlz.StringUtils.{hex_string_to_integer, bytes_to_string}
use rlz.StringUtils.Hex.{pairs}
use rlz.Crc8.{generate, verify}
use rlz.Crc8.Reference.{bitwise_crc, generate-bitwise}
use rlz.Crc8.Detection.{verify_changed_byte}
use rlz.MachineId.{Cache, get_machine_id, get_machine_id_impl}
use rlz.MachineId.Laws.{id_message}

prefix_and_spaces : hex_string_to_integer (some (bytes "  0x1fE  ")) ≡ 0x1fe
unfolding hex_string_to_integer
prefix_and_spaces = refl

upper_hex : bytes_to_string (some (0x07 ∷ 0xab ∷ [])) 2 (some []) ≡ (true, some (bytes "07AB"))
unfolding bytes_to_string
upper_hex = refl

abbrev message : Bytes
message = 1 ∷ 2 ∷ 3 ∷ 4 ∷ []

check_sum_of_message : generate (some message) 4 (some 0) ≡ (true, some 0xb6)
unfolding generate
check_sum_of_message = refl

generate-bitwise_example :
    generate (some message) 4 (some 0) ≡ (true, some (bit_xor (bitwise_crc 0 message) 0x55))
generate-bitwise_example = generate-bitwise message 4 0 (omega arith)

verify_changed_byte_example :
    verify (some (1 ∷ 2 ∷ 9 ∷ 4 ∷ [])) 4 0xb6 (some true) ≡ (true, some false)
verify_changed_byte_example =
    verify_changed_byte (1 ∷ 2 ∷ []) (4 ∷ []) 3 9 4 0xb6 0 true (omega arith) (omega arith)
      (omega arith) (omega arith) (omega arith) (omega arith) check_sum_of_message

-- A SID of one character, and a serial number.
abbrev sid_check_sum : ℕ
sid_check_sum = 0xf1

sid_sum : generate (some (id_message sample 83 [] 0x1234)) 24 (some 0) ≡ (true, some sid_check_sum)
unfolding generate sample
sid_sum = refl

abbrev no_id : Cache
no_id = record { calculated_id = []; calculated = false }

-- The identifier of that machine.
abbrev sid_id : Bytes
sid_id = pairs (id_message sample 83 [] 0x1234 ++ sid_check_sum ∷ [])

first_id :
    get_machine_id sample no_id (some (83 ∷ [], 0x1234)) (some [])
    ≡ ((true, some sid_id), record { calculated_id = sid_id; calculated = true })
unfolding get_machine_id get_machine_id_impl bytes_to_string generate sample
first_id = refl
