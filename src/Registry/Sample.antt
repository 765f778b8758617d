-- ===== src/Registry/Sample.antt =====
-- A registry that is the list of what was done to it, the last first: it is as documented, and its
-- account may do everything.
use rlz.Prelude.{
  ℕ, ◌≡◌, ◌⊎◌, refl, ap, Bool, true, false, ◌&&◌, ◌||◌, List, [], ◌∷◌, Option, none, some, Bytes,
  inl, inr, Bool-cases, bytes_eq_sound, length, if◌then◌else◌, arith,
}
use rlz.ValueStore.{contains_by}
use rlz.Registry.{key_read, key_write, RegKey, closed, root_key, opened, Value, Registry}
use rlz.Registry.Text.{same_text, fold_case, within}
use rlz.Registry.Laws.{
  RegistryLaws, Grants, is_there, qword_in, dword_in, text_in, seen, enum_of, child,
}

-- A value set or deleted, and a key deleted with all that is below.
pub data Change : Type 0 where
  set : Bytes → Bytes → Option Value → Change
  cut : Bytes → Change

abbrev pub value_in : List Change → Bytes → Bytes → Option Value
value_in [] l n = none
value_in (set location name v ∷ s) l n =
    if same_text location l && same_text name n then v else value_in s l n
value_in (cut top ∷ s) l n = if within top l then none else value_in s l n

abbrev without : Bytes → List Bytes → List Bytes
without name [] = []
without name (n ∷ ns) = if same_text name n then without name ns else n ∷ without name ns

abbrev pub names_in : List Change → Bytes → List Bytes
names_in [] l = []
names_in (set location name none ∷ s) l =
    if same_text location l then without name (names_in s l) else names_in s l
names_in (set location name (some v) ∷ s) l =
    if same_text location l then name ∷ names_in s l else names_in s l
names_in (cut top ∷ s) l = if within top l then [] else names_in s l

-- May something be at the location or below?
abbrev pub holds : List Change → Bytes → Bool
holds [] top = false
holds (set location name none ∷ s) top = holds s top
holds (set location name (some v) ∷ s) top = within top location || holds s top
holds (cut below ∷ s) top = if same_text below top then false else holds s top

abbrev write_in : List Change → RegKey → Bytes → Value → Bool × List Change
write_in s (opened key_write location) name v = (true, set location name (some v) ∷ s)
write_in s (opened key_read location) name v = (false, s)
write_in s closed name v = (false, s)
write_in s root_key name v = (false, s)

abbrev delete_in : List Change → RegKey → Bytes → List Change
delete_in s (opened key_write location) name = set location name none ∷ s
delete_in s (opened key_read location) name = s
delete_in s closed name = s
delete_in s root_key name = s

abbrev delete_key_in : List Change → RegKey → Bytes → Bool × List Change
delete_key_in s (opened rights location) name = (true, cut (child location name) ∷ s)
delete_key_in s closed name = (false, s)
delete_key_in s root_key name = (true, cut name ∷ s)

abbrev holds_child : List Change → RegKey → Bytes → Bool
holds_child s (opened rights location) name = holds s (child location name)
holds_child s closed name = false
holds_child s root_key name = holds s name

abbrev names_of_key : List Change → RegKey → List Bytes
names_of_key s (opened rights location) = names_in s location
names_of_key s closed = []
names_of_key s root_key = []

abbrev pub sample_registry : Registry (List Change)
sample_registry = record {
  open_key = λ s l. true;
  create_key = λ s l. (true, s);
  read_int64 = λ s key n. qword_in (seen (value_in s) key n);
  read_dword = λ s key n. dword_in (seen (value_in s) key n);
  read_text = λ s key n. text_in (seen (value_in s) key n);
  read_raw = λ s key n size. is_there (seen (value_in s) key n);
  write_value = write_in;
  delete_value = delete_in;
  delete_key = delete_key_in;
  open_child = holds_child;
  enum_value = λ s key. enum_of (names_of_key s key);
  listed = λ s key. length (names_of_key s key);
  subkey_count = λ s l. if holds s l then 1 else 0;
  value_count = λ s l. length (names_in s l);
}

same_as : (a b c : Bytes) → same_text b c ≡ true → same_text a b ≡ same_text a c
same_as a b c h = rw (bytes_eq_sound (fold_case b) (fold_case c) h)

contains-without :
    (name : Bytes) (ns : List Bytes) (m : Bytes)
    → contains_by same_text (without name ns) m
      ≡ (if same_text name m then false else contains_by same_text ns m)
contains-without name [] m = ground arith
contains-without name (n ∷ ns) m = elim (Bool-cases (same_text n m)) [
  | inl same ↦ ground (arith, same, same_as name n m same, contains-without name ns m)
  | inr other ↦ ground (arith, other, contains-without name ns m)
]

pub names-values :
    (s : List Change) (l m : Bytes)
    → contains_by same_text (names_in s l) m ≡ is_there (value_in s l m)
names-values [] l m = refl
names-values (set location name none ∷ s) l m =
    ground (arith, contains-without name (names_in s l) m, names-values s l m)
names-values (set location name (some v) ∷ s) l m = ground (arith, names-values s l m)
names-values (cut top ∷ s) l m = ground (arith, names-values s l m)

pub wrote :
    (s s' : List Change) (key : RegKey) (n : Bytes) (v : Value)
    → write_in s key n v ≡ (true, s')
    → (location : Bytes) × (key ≡ opened key_write location)
      × ((l m : Bytes)
          → value_in s' l m
            ≡ (if same_text location l && same_text n m then some v else value_in s l m))
wrote s s' (opened key_write location) n v h =
    (location, refl, λ l m. rw (← (ap (λ (x : Bool × List Change). x.1) h)) refl)
wrote s s' (opened key_read location) n v h = ground arith
wrote s s' closed n v h = ground arith
wrote s s' root_key n v h = ground arith

pub nothing_held :
    (s : List Change) (top l m : Bytes)
    → holds s top ≡ false
    → within top l ≡ true
    → value_in s l m ≡ none
nothing_held [] top l m empty below = refl
nothing_held (set location name none ∷ s) top l m empty below =
    ground (arith, nothing_held s top l m empty below)
nothing_held (set location name (some v) ∷ s) top l m empty below =
    elim (Bool-cases (same_text location l)) [
      | inl same ↦ absurd (ground (arith, same_below top location l same))
      | inr other ↦ ground (arith, other, nothing_held s top l m)
    ]
  where
    same_below : (top a b : Bytes) → same_text a b ≡ true → within top a ≡ within top b
    same_below top a b same = rw (bytes_eq_sound (fold_case a) (fold_case b) same)
nothing_held (cut removed ∷ s) top l m empty below = elim (Bool-cases (same_text removed top)) [
  | inl same ↦ ground (arith, same_above removed top l same)
  | inr other ↦ ground (arith, other, nothing_held s top l m)
]
  where
    same_above : (a b l : Bytes) → same_text a b ≡ true → within a l ≡ within b l
    same_above a b l same = rw (bytes_eq_sound (fold_case a) (fold_case b) same)

pub cut_unseen :
    (s : List Change) (name l m : Bytes)
    → (within name l ≡ false) ⊎ (value_in s l m ≡ none)
    → value_in (cut name ∷ s) l m ≡ value_in s l m
cut_unseen s name l m (inl apart) = rw apart
cut_unseen s name l m (inr nothing) = ground (arith, nothing)

pub none_held :
    (s : List Change) (l : Bytes) → ◌≡◌ {A = ℕ} (if holds s l then 1 else 0) 0 → holds s l ≡ false
none_held s l h = ground arith

abbrev pub sample_laws : RegistryLaws sample_registry
sample_laws = record {
  value = value_in;
  value_names = names_in;
  created = λ s location l n. refl;
  int64_read = λ s key n. refl;
  dword_read = λ s key n. refl;
  text_read = λ s key n. refl;
  raw_unseen = λ s key n size h. ap is_there h;
  written = wrote;
  deleted_others = λ s location n l m apart. rw apart;
  key_deleted_others = λ s location name l m apart. rw apart;
  empty_key = λ s location l m found subkeys values below.
      nothing_held s location l m (none_held s location subkeys) below;
  root_deleted = cut_unseen;
  enumerated = λ s location n. refl;
  all_listed = λ s location. refl;
  names_of_values = names-values;
}

pub sample_account : Grants sample_registry sample_laws
sample_account = record {
  creates = λ s location. refl;
  opens = λ s location n v found. refl;
  opens_child =
      λ s location name l m gone below. nothing_held s (child location name) l m gone below;
  deletes = λ s location n l m same. rw same;
}
