-- ===== src/MacStore/Dict.antt =====
-- The dictionaries of mac/lib/rlz_value_store_mac.mm: a property list of numbers, strings and dictionaries.
-- An NSString is its bytes in UTF-8, and a dictionary is mutable.
use rlz.Prelude.{
  ℕ, ◌≡◌, refl, ap, ◌∙◌, Bool, true, false, List, [], ◌∷◌, Option, none, some, Bytes, bytes_eq,
  bytes_eq_sound, inl, inr, Bool-cases, if◌then◌else◌, arith,
}
use rlz.ValueStore.{contains_by}

mutual
  pub data Object : Type 0 where
    number : ℕ → Object
    string : Bytes → Object
    dictionary : Dict → Object

  pub data Dict : Type 0 where
    empty : Dict
    entry : Bytes → Object → Dict → Dict

-- objectForKey, setObject:forKey and removeObjectForKey.
abbrev pub object_for_key : Dict → Bytes → Option Object
object_for_key empty k = none
object_for_key (entry key object d) k = if bytes_eq key k then some object else object_for_key d k

abbrev pub set_object : Dict → Bytes → Object → Dict
set_object empty k v = entry k v empty
set_object (entry key object d) k v =
    let rest = set_object d k v in if bytes_eq key k then entry k v d else entry key object rest

abbrev pub remove_object : Dict → Bytes → Dict
remove_object empty k = empty
remove_object (entry key object d) k =
    let rest = remove_object d k in if bytes_eq key k then rest else entry key object rest

-- for (NSString* s in d).
abbrev pub keys : Dict → List Bytes
keys empty = []
keys (entry key object d) = key ∷ keys d

-- ObjCCast of an object.
abbrev pub as_number : Option Object → Option ℕ
as_number (some (number n)) = some n
as_number _ = none

abbrev pub as_string : Option Object → Option Bytes
as_string (some (string s)) = some s
as_string _ = none

abbrev pub as_dict : Option Object → Option Dict
as_dict (some (dictionary d)) = some d
as_dict _ = none

abbrev pub is_there : Option Object → Bool
is_there none = false
is_there (some object) = true

abbrev pub dict_or_empty : Option Dict → Dict
dict_or_empty none = empty
dict_or_empty (some d) = d

-- The dictionary that GetOrCreateDict gives.
abbrev pub sub_dict : Dict → Bytes → Dict
sub_dict p k = dict_or_empty (as_dict (object_for_key p k))

-- What `p` is after GetOrCreateDict and a change of the dictionary that it gave.
abbrev pub change_in : Dict → Bytes → (Dict → Dict) → Dict
change_in p k change = set_object p k (dictionary (change (sub_dict p k)))

key_same : (a b c : Bytes) → bytes_eq a b ≡ true → bytes_eq a c ≡ bytes_eq b c
key_same a b c h = rw (bytes_eq_sound a b h)

same_key : (a b c : Bytes) → bytes_eq a b ≡ true → bytes_eq c a ≡ bytes_eq c b
same_key a b c h = rw (bytes_eq_sound a b h)

pub object_for_key-set_object :
    (d : Dict) (k n : Bytes) (v : Object)
    → object_for_key (set_object d k v) n ≡ (if bytes_eq k n then some v else object_for_key d n)
object_for_key-set_object empty k n v = refl
object_for_key-set_object (entry key object d) k n v = elim (Bool-cases (bytes_eq key k)) [
  | inl same ↦ ground (arith, same, key_same key k n same)
  | inr other ↦ elim (Bool-cases (bytes_eq k n)) [
    | inl here ↦
        ground (arith, other, here, same_key k n key here, object_for_key-set_object d k n v)
    | inr elsewhere ↦ ground (arith, other, elsewhere, object_for_key-set_object d k n v)
  ]
]

pub object_for_key-remove_object :
    (d : Dict) (k n : Bytes)
    → object_for_key (remove_object d k) n ≡ (if bytes_eq k n then none else object_for_key d n)
object_for_key-remove_object empty k n = ground arith
object_for_key-remove_object (entry key object d) k n = elim (Bool-cases (bytes_eq key k)) [
  | inl same ↦ ground (arith, same, key_same key k n same, object_for_key-remove_object d k n)
  | inr other ↦ elim (Bool-cases (bytes_eq k n)) [
    | inl here ↦
        ground (arith, other, here, same_key k n key here, object_for_key-remove_object d k n)
    | inr elsewhere ↦ ground (arith, other, elsewhere, object_for_key-remove_object d k n)
  ]
]

pub keys-objects :
    (d : Dict) (n : Bytes) → contains_by bytes_eq (keys d) n ≡ is_there (object_for_key d n)
keys-objects empty n = refl
keys-objects (entry key object d) n = ground (arith, keys-objects d n)

-- A change in one dictionary, seen from another key.
pub sub_dict-change_in :
    (p : Dict) (k n : Bytes) (change : Dict → Dict)
    → sub_dict (change_in p k change) n
      ≡ (if bytes_eq k n then change (sub_dict p k) else sub_dict p n)
sub_dict-change_in p k n change =
    ap (λ (o : Option Object). dict_or_empty (as_dict o))
      (object_for_key-set_object p k n (dictionary (change (sub_dict p k))))
    ∙ chosen (bytes_eq k n)
  where
    chosen :
        (b : Bool)
        → dict_or_empty
            (as_dict (if b then some (dictionary (change (sub_dict p k))) else object_for_key p n))
          ≡ (if b then change (sub_dict p k) else sub_dict p n)
    chosen true = refl
    chosen false = refl
