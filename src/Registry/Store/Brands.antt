-- ===== src/Registry/Store/Brands.antt =====
-- The keys of the store of win/lib/rlz_value_store_registry.cc under two brands do not meet.
pub mod Isolation
use mathlib.Core.List.{map-append, append_assoc}
use rlz.Prelude.{
  ℕ, ◌≡◌, refl, sym, ap, ◌∙◌, Bool, true, false, ◌&&◌, [], ◌∷◌, ◌++◌, map, Bytes, bytes, bytes_eq,
  bytes_eq_refl, bytes_eq_sound, has_byte, has_prefix, is_empty, arith, leb, inl, inr, Bool-cases,
  ◌==◌,
}
use rlz.Enums.{Product}
use rlz.LibValues.{get_product_name}
use rlz.LibValues.Names.{letter, get_product_name-letter, letter_capital}
use rlz.Registry.Text.{
  same_text, same_text_front, same_text_refl, within, within_refl, within_front, separator,
  fold_case, upcase,
}
use rlz.Registry.Laws.{child}
use rlz.Registry.Store.{key_location, brand_part}
use rlz.Registry.Store.Locations.{ptimes, rlzs, events_at, stateful_at}

-- Two brands that differ by more than case, with no separator in them; one of them may be empty.
pub record Distinct (a b : Bytes) : Type 0 where
  pub differ : same_text a b ≡ false
  pub plain_a : has_byte a 92 ≡ false
  pub plain_b : has_byte b 92 ≡ false

-- What stands before the first separator decides.
prefix_same :
    (a b x y : Bytes)
    → has_byte a 92 ≡ false
    → has_byte b 92 ≡ false
    → has_prefix (fold_case a ++ (92 ∷ x)) (fold_case b ++ (92 ∷ y)) ≡ true
    → same_text a b ≡ true
prefix_same [] [] x y pa pb h = refl
prefix_same [] (d ∷ b) x y pa pb h = ground arith
prefix_same (c ∷ a) [] x y pa pb h = ground arith
prefix_same (c ∷ a) (d ∷ b) x y pa pb h = ground (arith, prefix_same a b x y)

false_unless : (b c : Bool) → (b ≡ true → c ≡ true) → c ≡ false → b ≡ false
false_unless true c h ends = sym (h refl) ∙ ends
false_unless false c h ends = refl

capital-upcase : (c : ℕ) → (leb b'A' c && leb c b'Z') ≡ true → upcase c ≡ c
capital-upcase c h = ground arith

fold_tail :
    (a n : Bytes)
    → fold_case (a ++ (separator ++ n)) ++ separator
      ≡ fold_case a ++ (92 ∷ (fold_case n ++ separator))
fold_tail a n =
    rw
      (
        map-append upcase a (separator ++ n),
        append_assoc (fold_case a) (92 ∷ fold_case n) separator,
      )
      refl

tails_apart :
    (a b n m : Bytes)
    → Distinct a b
    → within (a ++ (separator ++ n)) (b ++ (separator ++ m)) ≡ false
tails_apart a b n m apart =
    false_unless (within (a ++ (separator ++ n)) (b ++ (separator ++ m))) (same_text a b)
      (λ h.
        prefix_same a b (fold_case n ++ separator) (fold_case m ++ separator) apart.plain_a
          apart.plain_b (rw (← fold_tail a n, ← fold_tail b m) h))
      apart.differ

same-within : (s t : Bytes) → same_text s t ≡ true → within s t ≡ true
same-within s t same =
    ap (λ u. has_prefix (fold_case s ++ separator) (u ++ separator))
      (sym (bytes_eq_sound (fold_case s) (fold_case t) same))
    ∙ within_refl s

-- The part of the brand alone.
brand_parts_apart : (a b : Bytes) → Distinct a b → same_text (brand_part a) (brand_part b) ≡ false
brand_parts_apart [] [] apart = apart.differ
brand_parts_apart [] (d ∷ b) apart = refl
brand_parts_apart (c ∷ a) [] apart = refl
brand_parts_apart (c ∷ a) (d ∷ b) apart =
    same_text_front (bytes "\\_") (c ∷ a) (d ∷ b) ∙ apart.differ

-- With the name of a product after it.
products_apart :
    (a b : Bytes) (p q : Product)
    → Distinct a b
    → within
        (brand_part a ++ (separator ++ get_product_name p))
        (brand_part b ++ (separator ++ get_product_name q))
      ≡ false
products_apart [] [] p q apart = absurd (ground (arith, apart.differ))
products_apart [] (d ∷ b) p q apart =
    rw (get_product_name-letter p, capital-upcase (letter p) (letter_capital p))
      (ground (arith, letter_capital p))
products_apart (c ∷ a) [] p q apart =
    rw (get_product_name-letter q, capital-upcase (letter q) (letter_capital q))
      (ground (arith, letter_capital q))
products_apart (c ∷ a) (d ∷ b) p q apart =
    within_front (bytes "\\_") ((c ∷ a) ++ (separator ++ get_product_name p))
      ((d ∷ b) ++ (separator ++ get_product_name q))
    ∙ tails_apart (c ∷ a) (d ∷ b) (get_product_name p) (get_product_name q) apart

module _ (a b : Bytes) (apart : Distinct a b) where
  pub ptimes_apart : same_text (ptimes a) (ptimes b) ≡ false
  ptimes_apart =
      same_text_front (key_location [] (bytes "PTimes")) (brand_part a) (brand_part b)
      ∙ brand_parts_apart a b apart

  pub rlzs_apart : same_text (rlzs a) (rlzs b) ≡ false
  rlzs_apart =
      same_text_front (key_location [] (bytes "RLZs")) (brand_part a) (brand_part b)
      ∙ brand_parts_apart a b apart

  pub events_below : (p q : Product) → within (events_at a p) (events_at b q) ≡ false
  events_below p q =
      within_front (key_location [] (bytes "Events"))
        (brand_part a ++ (separator ++ get_product_name p))
        (brand_part b ++ (separator ++ get_product_name q))
      ∙ products_apart a b p q apart

  pub stateful_below : (p q : Product) → within (stateful_at a p) (stateful_at b q) ≡ false
  stateful_below p q =
      within_front (key_location [] (bytes "StatefulEvents"))
        (brand_part a ++ (separator ++ get_product_name p))
        (brand_part b ++ (separator ++ get_product_name q))
      ∙ products_apart a b p q apart

  pub events_apart : (p q : Product) → same_text (events_at a p) (events_at b q) ≡ false
  events_apart p q =
      false_unless (same_text (events_at a p) (events_at b q))
        (within (events_at a p) (events_at b q)) (same-within (events_at a p) (events_at b q))
        (events_below p q)

  pub stateful_apart : (p q : Product) → same_text (stateful_at a p) (stateful_at b q) ≡ false
  stateful_apart p q =
      false_unless (same_text (stateful_at a p) (stateful_at b q))
        (within (stateful_at a p) (stateful_at b q))
        (same-within (stateful_at a p) (stateful_at b q)) (stateful_below p q)
