-- ===== src/Registry/Store/Locations.antt =====
-- The keys of the store of win/lib/rlz_value_store_registry.cc do not meet.

use rlz.Prelude.{
  ℕ, ◌≡◌, ◌≢◌, refl, sym, ap, ◌∙◌, Bool, true, false, ◌&&◌, [], ◌∷◌, ◌++◌, some, Bytes, bytes,
  arith, leb,
}
use rlz.Enums.{AccessPoint, Product}
use rlz.LibValues.{get_product_name, get_access_point_name}
use rlz.LibValues.Names.{
  letter, get_product_name-letter, letter_capital, letter_injective,
  get_access_point_name_injective, get_access_point_name_plain,
}
use rlz.Registry.Text.{same_text, same_text_front, same_text_plain, within, within_front, separator}
use rlz.Registry.Laws.{child}
use rlz.Registry.Store.{key_location}

module _ (brand : Bytes) where
  abbrev pub ptimes : Bytes
  ptimes = key_location brand (bytes "PTimes")

  abbrev pub rlzs : Bytes
  rlzs = key_location brand (bytes "RLZs")

  abbrev pub events_at : Product → Bytes
  events_at product = child (key_location brand (bytes "Events")) (get_product_name product)

  abbrev pub stateful_at : Product → Bytes
  stateful_at product =
      child (key_location brand (bytes "StatefulEvents")) (get_product_name product)

  pub ptimes_events : (q : Product) → same_text ptimes (events_at q) ≡ false
  ptimes_events q = refl

  pub rlzs_events : (q : Product) → same_text rlzs (events_at q) ≡ false
  rlzs_events q = refl

  pub events_rlzs : (p : Product) → same_text (events_at p) rlzs ≡ false
  events_rlzs p = refl

  pub events_stateful : (p q : Product) → same_text (events_at p) (stateful_at q) ≡ false
  events_stateful p q = refl

  pub stateful_events : (p q : Product) → same_text (stateful_at p) (events_at q) ≡ false
  stateful_events p q = refl

  pub within_events_rlzs : (p : Product) → within (events_at p) rlzs ≡ false
  within_events_rlzs p = refl

  pub within_events_stateful : (p q : Product) → within (events_at p) (stateful_at q) ≡ false
  within_events_stateful p q = refl

  pub within_stateful_events : (p q : Product) → within (stateful_at p) (events_at q) ≡ false
  within_stateful_events p q = refl

letters_text :
    (a b : ℕ)
    → (leb b'A' a && leb a b'Z') ≡ true
    → (leb b'A' b && leb b b'Z') ≡ true
    → same_text (a ∷ []) (b ∷ []) ≡ true
    → a ≡ b
letters_text a b h k same = ground arith

letters_within :
    (a b : ℕ)
    → (leb b'A' a && leb a b'Z') ≡ true
    → (leb b'A' b && leb b b'Z') ≡ true
    → within (a ∷ []) (b ∷ []) ≡ true
    → a ≡ b
letters_within a b h k same = ground arith

false_of : (b : Bool) → (b ≡ true → ⊥) → b ≡ false
false_of true h = absurd (h refl)
false_of false h = refl

-- The keys of two products at one location.
pub children_apart :
    (x : Bytes) (p q : Product)
    → q ≢ p
    → same_text (child x (get_product_name p)) (child x (get_product_name q)) ≡ false
children_apart x p q ne =
    rw
      (
        same_text_front x (separator ++ get_product_name p) (separator ++ get_product_name q),
        same_text_front separator (get_product_name p) (get_product_name q),
        get_product_name-letter p,
        get_product_name-letter q,
      )
      (false_of (same_text (letter p ∷ []) (letter q ∷ [])) (λ same. ne (
        sym (
          letter_injective p q
            (letters_text (letter p) (letter q) (letter_capital p) (letter_capital q) same)))))

pub children_within :
    (x : Bytes) (p q : Product)
    → q ≢ p
    → within (child x (get_product_name p)) (child x (get_product_name q)) ≡ false
children_within x p q ne =
    rw
      (
        within_front x (separator ++ get_product_name p) (separator ++ get_product_name q),
        within_front separator (get_product_name p) (get_product_name q),
        get_product_name-letter p,
        get_product_name-letter q,
      )
      (false_of (within (letter p ∷ []) (letter q ∷ [])) (λ same. ne (
        sym (
          letter_injective p q
            (letters_within (letter p) (letter q) (letter_capital p) (letter_capital q) same)))))

-- The names of the values for two products and for two access points.
pub product_names_apart :
    (p q : Product) → q ≢ p → same_text (get_product_name p) (get_product_name q) ≡ false
product_names_apart p q ne = children_apart_names p q ne
  where
    children_apart_names :
        (p q : Product) → q ≢ p → same_text (get_product_name p) (get_product_name q) ≡ false
    children_apart_names p q ne =
        sym (same_text_front ([] ++ separator) (get_product_name p) (get_product_name q))
        ∙ children_apart [] p q ne

pub point_names_apart :
    (p q : AccessPoint) (n m : Bytes)
    → q ≢ p
    → get_access_point_name p ≡ some n
    → get_access_point_name q ≡ some m
    → same_text n m ≡ false
point_names_apart p q n m ne hp hq = false_of (same_text n m) (λ same. ne (
    get_access_point_name_injective q p m hq (
      hp
      ∙ ap some (
          same_text_plain n m (get_access_point_name_plain p n hp)
            (get_access_point_name_plain q m hq) same))))
