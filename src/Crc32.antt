-- ===== src/Crc32.antt =====
-- lib/crc32_wrapper.cc: the two overloads over zlib's crc32.
use rlz.Prelude.{ℕ, ◌≡◌, Bool, true, false, [], ◌∷◌, Bytes, if◌then◌else◌, all, arith}
use rlz.Base.{Base, BaseLaws}
use rlz.StringUtils.{is_ascii}

module _ (base : Base) where
  -- Crc32(const unsigned char* buf, int length)
  unfoldable pub crc32_buffer : Bytes → ℕ
  crc32_buffer buf = base.crc32 0 buf

  crc_loop : ℕ → Bytes → Bool × ℕ
  crc_loop crc [] = (true, crc)
  crc_loop crc (c ∷ text) =
      let rest = crc_loop (base.crc32 crc (c ∷ [])) text in
      if is_ascii c then rest else (false, crc)

  -- Crc32(const char* text, int* crc), for a `crc` that is not NULL: the result and *crc.
  unfoldable pub crc32_text : Bytes → Bool × ℕ
  unfolding crc_loop
  crc32_text text = crc_loop 0 text

module _ (base : Base) (laws : BaseLaws base) where
  crc_loop-append :
      (crc : ℕ) (text : Bytes)
      → all is_ascii text ≡ true
      → crc_loop base crc text ≡ (true, base.crc32 crc text)
  unfolding crc_loop
  crc_loop-append crc [] h = ground (arith, laws.crc32_empty crc)
  crc_loop-append crc (c ∷ text) h =
      ground
        (arith, crc_loop-append (base.crc32 crc (c ∷ [])) text, laws.crc32_append crc (c ∷ []) text)

  -- On ASCII text the overload that goes byte by byte succeeds, with the checksum that the other one
  -- computes in one call.
  pub crc32_text-buffer :
      (text : Bytes)
      → all is_ascii text ≡ true
      → crc32_text base text ≡ (true, crc32_buffer base text)
  unfolding crc32_text crc32_buffer
  crc32_text-buffer text h = crc_loop-append 0 text h
