-- ===== src/ValueStore/Memory.antt =====
-- A store in memory that meets the contract of lib/rlz_value_store.h: every operation succeeds while
-- the lock and the access are there. It stands for no code; tests and examples run on it.
use mathlib.Core.Logic.{ite, if_pos, if_neg}
use mathlib.Core.Option.{some-injective}
use rlz.Prelude.{
  ℕ, ◌≡◌, ◌≢◌, refl, ap, sym, ◌∙◌, Bool, true, false, List, [], ◌∷◌, not, Option, none, some, Bytes,
  bytes_eq, bytes_eq_refl, bytes_eq_sound, length, ltb, if◌then◌else◌, arith,
}
use rlz.Enums.{AccessPoint, Product}
use rlz.ValueStore.Frames.{StoreFrames}
use rlz.ValueStore.{
  AccessType, RlzValueStore, View, StoreLaws, contains_by, read_access, write_access,
}

pub Product-discrete : Discrete Product
Product-discrete = hlevel

pub AccessPoint-discrete : Discrete AccessPoint
AccessPoint-discrete = hlevel

pub record Memory : Type 0 where
  pub locked_out : Bool
  pub readable : Bool
  pub writable : Bool
  pub ping_times : Product → Option ℕ
  pub rlzs : AccessPoint → Bytes
  pub events : Product → List Bytes
  pub stateful : Product → List Bytes

abbrev update {ℓ} : {K : Type 0} {V : Type ℓ} → Discrete K → (K → V) → K → V → K → V
update d f k v j = ite (d j k) v (f j)

abbrev contains : List Bytes → Bytes → Bool
contains xs e = contains_by bytes_eq xs e

remove : Bytes → List Bytes → List Bytes
remove e [] = []
remove e (x ∷ xs) = let rest = remove e xs in if bytes_eq x e then rest else x ∷ rest

access : Memory → AccessType → Bool
access m read_access = m.readable
access m write_access = m.writable

abbrev with_events : Memory → (Product → List Bytes) → Memory
with_events m f = record m { events = f }

unfoldable pub memory : RlzValueStore Memory
unfolding access remove Product-discrete AccessPoint-discrete
memory = record {
  get_store = λ m. not m.locked_out;
  has_access = access;
  write_ping_time =
      λ m p t. (true, record m { ping_times = update Product-discrete m.ping_times p (some t) });
  read_ping_time = λ m p. m.ping_times p;
  clear_ping_time =
      λ m p. (true, record m { ping_times = update Product-discrete m.ping_times p none });
  write_access_point_rlz =
      λ m p r. (true, record m { rlzs = update AccessPoint-discrete m.rlzs p r });
  read_access_point_rlz =
      λ m p size. if ltb (length (m.rlzs p)) size then (true, m.rlzs p) else (false, []);
  clear_access_point_rlz =
      λ m p. (true, record m { rlzs = update AccessPoint-discrete m.rlzs p [] });
  add_product_event = λ m p e.
      (true, record m { events = update Product-discrete m.events p (e ∷ remove e (m.events p)) });
  read_product_events = λ m p. some (m.events p);
  clear_product_event = λ m p e.
      (true, record m { events = update Product-discrete m.events p (remove e (m.events p)) });
  clear_all_product_events =
      λ m p. (true, record m { events = update Product-discrete m.events p [] });
  add_stateful_event = λ m p e. (
    true,
    record m { stateful = update Product-discrete m.stateful p (e ∷ remove e (m.stateful p)) },
  );
  is_stateful_event = λ m p e. contains (m.stateful p) e;
  clear_all_stateful_events =
      λ m p. (true, record m { stateful = update Product-discrete m.stateful p [] });
  collect_garbage = λ m. m;
}

abbrev view_of : Memory → View
view_of m = record {
  ping_time = m.ping_times;
  rlz = m.rlzs;
  product_event = λ p e. contains (m.events p) e;
  stateful_event = λ p e. contains (m.stateful p) e;
}

contains-remove :
    (e f : Bytes) (xs : List Bytes)
    → contains (remove e xs) f ≡ (if bytes_eq e f then false else contains xs f)
unfolding remove
contains-remove e f [] = ground arith
contains-remove e f (x ∷ xs) = ground (
  arith,
  contains-remove e f xs,
  bytes_eq_sound x e,
  bytes_eq_sound x f,
  bytes_eq_sound e f,
  bytes_eq_refl e,
  bytes_eq_refl f,
)

module _ {ℓ} {K : Type 0} {V : Type ℓ} (d : Discrete K) (f : K → V) where
  update_self : (k : K) (v : V) → update d f k v k ≡ v
  update_self k v = if_pos (d k k) refl v (f k)

  update_ne : (k j : K) (v : V) → j ≢ k → update d f k v j ≡ f j
  update_ne k j v h = if_neg (d j k) h v (f j)

-- The state that a call returned.
after : {s s' : Memory} → ◌≡◌ {A = Bool × Memory} (true, s) (true, s') → s ≡ s'
after h = ap (λ (t : Bool × Memory). t.1) h

module _ (m : Memory) (p : Product) (f : Product → List Bytes) (es : List Bytes) where
  has_self : (e : Bytes) → contains (update Product-discrete f p es p) e ≡ contains es e
  has_self e = rw (update_self Product-discrete f p es)

  has_ne :
      (q : Product)
      → q ≢ p
      → ◌≡◌ {A = Bytes → Bool} (contains (update Product-discrete f p es q)) (contains (f q))
  has_ne q h = ap (λ (xs : List Bytes). contains xs) (update_ne Product-discrete f p q es h)

  added :
      (e g : Bytes)
      → contains (e ∷ remove e (f p)) g ≡ (if bytes_eq e g then true else contains (f p) g)
  added e g = ground (arith, contains-remove e g (f p))

pub memory-StoreLaws : StoreLaws memory
unfolding memory
memory-StoreLaws = record {
  view = view_of;
  same_name = bytes_eq;
  same_name_refl = bytes_eq_refl;
  same_name_plain = λ e f h k same. bytes_eq_sound e f same;
  read_rlz = λ m p name size n h. ground arith;
  write_rlz = λ m m' p r h. rw (← after h) (
    update_self AccessPoint-discrete m.rlzs p r,
    λ q ne. update_ne AccessPoint-discrete m.rlzs p q r ne,
    refl,
  );
  clear_rlz = λ m m' p h. rw (← after h) (
    update_self AccessPoint-discrete m.rlzs p [],
    λ q ne. update_ne AccessPoint-discrete m.rlzs p q [] ne,
    refl,
  );
  read_ping = λ m p. refl;
  write_ping = λ m m' p t h. rw (← after h) (
    update_self Product-discrete m.ping_times p (some t),
    λ q ne. update_ne Product-discrete m.ping_times p q (some t) ne,
    refl,
  );
  clear_ping = λ m m' p h. rw (← after h) (
    update_self Product-discrete m.ping_times p none,
    λ q ne. update_ne Product-discrete m.ping_times p q none ne,
    refl,
  );
  read_events = λ m p es h e. ap (λ xs. contains xs e) (some-injective _ _ (sym h));
  add_event = λ m m' p e h. rw (← after h) (
    λ g. has_self m p m.events (e ∷ remove e (m.events p)) g ∙ added m p m.events [] e g,
    has_ne m p m.events (e ∷ remove e (m.events p)),
    refl,
    refl,
  );
  clear_event = λ m m' p e h. rw (← after h) (
    λ g. has_self m p m.events (remove e (m.events p)) g ∙ contains-remove e g (m.events p),
    has_ne m p m.events (remove e (m.events p)),
    refl,
    refl,
  );
  clear_all_events =
      λ m m' p h. rw (← after h) (has_self m p m.events [], has_ne m p m.events [], refl, refl);
  is_stateful = λ m p e. refl;
  add_stateful = λ m m' p e h. rw (← after h) (
    λ g. has_self m p m.stateful (e ∷ remove e (m.stateful p)) g ∙ added m p m.stateful [] e g,
    has_ne m p m.stateful (e ∷ remove e (m.stateful p)),
    refl,
  );
  clear_all_stateful =
      λ m m' p h. rw (← after h) (has_self m p m.stateful [], has_ne m p m.stateful [], refl);
}

pub memory-StoreFrames : StoreFrames memory memory-StoreLaws
unfolding memory memory-StoreLaws
memory-StoreFrames = record {
  write_rlz_frame = λ m m' p r h. rw (← after h) (refl, refl);
  clear_rlz_frame = λ m m' p h. rw (← after h) (refl, refl);
  write_ping_frame = λ m m' p t h. rw (← after h) (refl, refl);
  clear_ping_frame = λ m m' p h. rw (← after h) (refl, refl);
  add_event_frame = λ m m' p e h. rw (← after h) refl;
  clear_event_frame = λ m m' p e h. rw (← after h) refl;
  clear_all_events_frame = λ m m' p h. rw (← after h) refl;
  add_stateful_frame = λ m m' p e h. rw (← after h) (refl, refl);
  clear_all_stateful_frame = λ m m' p h. rw (← after h) (refl, refl);
  collect_garbage_frame = λ m. refl;
}

pub memory-same_name : (e f : Bytes) → memory-StoreLaws.same_name e f ≡ bytes_eq e f
unfolding memory-StoreLaws
memory-same_name e f = refl
