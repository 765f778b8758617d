-- ===== src/RlzLib/Events/Laws.antt =====
-- The events of lib/rlz_lib.cc: their values, and what recording and clearing does to the store.
use rlz.Prelude.{
  all, Bool-cases, ℕ, ◌≡◌, ◌≢◌, ◌⊎◌, inl, inr, refl, sym, ap, ◌∙◌, true, false, Option, none, some,
  [], ◌∷◌, ◌++◌, Bytes, arith,
}
use rlz.Enums.{AccessPoint, Event, Product, no_access_point, invalid_event}
use rlz.LibValues.{get_access_point_name, get_event_name}
use rlz.LibValues.Names.{
  get_access_point_name_shape, get_access_point_name_injective, get_event_name_shape,
  get_event_from_name_iff, is_plain, get_access_point_name_plain, get_event_name_plain,
}
use rlz.ValueStore.{RlzValueStore, StoreLaws, can, write_access}
use rlz.RlzLib.Events.{
  event_value, join_names, record_product_event, record_stateful_event, clear_product_event,
}

pub no_access_point_name : get_access_point_name no_access_point ≡ some []
unfolding get_access_point_name
no_access_point_name = refl

pub invalid_event_name : get_event_name invalid_event ≡ some []
unfolding get_event_name
invalid_event_name = refl

join_names_parts :
    (p e : Option Bytes) (v : Bytes)
    → join_names p e ≡ some v
    → (pn : Bytes) × (en : Bytes) × (p ≡ some pn)
      × (e ≡ some en)
      × (pn ≢ [])
      × (en ≢ [])
      × (v ≡ pn ++ en)
unfolding join_names
join_names_parts none e v h = ground arith
join_names_parts (some pn) none v h = ground arith
join_names_parts (some []) (some en) v h = ground arith
join_names_parts (some (a ∷ pn)) (some []) v h = ground arith
join_names_parts (some (a ∷ pn)) (some (b ∷ en)) v h =
    (a ∷ pn, b ∷ en, refl, refl, ground arith, ground arith, ground arith)

-- An event's value is three characters: the two of the access point's name, and the event's.
pub event_value_shape :
    (point : AccessPoint) (event : Event) (v : Bytes)
    → event_value point event ≡ some v
    → (a : ℕ) × (b : ℕ) × (c : ℕ) × (v ≡ a ∷ b ∷ c ∷ [])
      × (get_access_point_name point ≡ some (a ∷ b ∷ []))
      × (get_event_name event ≡ some (c ∷ []))
unfolding event_value
event_value_shape point event v h =
    let (pn, en, hp, he, np, ne, hv) =
      join_names_parts (get_access_point_name point) (get_event_name event) v h in
    let (a, b, ep) =
      get_access_point_name_shape point pn
        (λ (same : point ≡ no_access_point). ground (arith, no_access_point_name)) hp in
    let (c, ee) =
      get_event_name_shape event en
        (λ (same : event ≡ invalid_event). ground (arith, invalid_event_name)) he in
    (a, b, c, cc, hp ∙ ap some ep, he ∙ ap some ee)

-- A value holds capital letters and digits.
pub value_plain :
    (point : AccessPoint) (event : Event) (v : Bytes)
    → event_value point event ≡ some v
    → (all is_plain v ≡ true) × (v ≢ [])
value_plain point event v h =
    let (a, b, c, e, hp, he) = event_value_shape point event v h in
    let left = get_access_point_name_plain point (a ∷ b ∷ []) hp in
    let right = get_event_name_plain event (c ∷ []) he in
    (rw e (ground (arith, left, right)), rw e (ground arith))

-- Two pairs of an access point and an event that have the same value are the same pair.
pub event_value_injective :
    (p q : AccessPoint) (e f : Event) (v : Bytes)
    → event_value p e ≡ some v
    → event_value q f ≡ some v
    → (p ≡ q) × (e ≡ f)
event_value_injective p q e f v h k =
    let (a, b, c, ev, hp, he) = event_value_shape p e v h in
    let (a', b', c', ev', hq, hf) = event_value_shape q f v k in
    let letters : (a ∷ b ∷ [] ≡ a' ∷ b' ∷ []) × (c ∷ [] ≡ c' ∷ []) = ground arith in
    let hq' : get_access_point_name q ≡ some (a ∷ b ∷ []) = hq ∙ ap some (sym letters.0) in
    let hf' : get_event_name f ≡ some (c ∷ []) = hf ∙ ap some (sym letters.1) in
    (
      get_access_point_name_injective p q (a ∷ b ∷ []) hp hq',
      ground (
        arith,
        (get_event_from_name_iff (c ∷ []) e).1 he,
        (get_event_from_name_iff (c ∷ []) f).1 hf',
      ),
    )

module _ {S : Type 0} (store : RlzValueStore S) where
  -- With no write access, or for an access point and an event that have no value, recording and
  -- clearing return false and leave the state.
  pub events_reject :
      (s : S) (product : Product) (point : AccessPoint) (event : Event)
      → (can store s write_access ≡ false) ⊎ (event_value point event ≡ none)
      → (record_product_event store s product point event ≡ (false, s))
        × (record_stateful_event store s product point event ≡ (false, s))
        × (clear_product_event store s product point event ≡ (false, s))
  unfolding record_product_event record_stateful_event clear_product_event
  events_reject s product point event h = ground arith

  cleared :
      (s s' : S) (product : Product) (point : AccessPoint) (event : Event) (v : Bytes)
      → clear_product_event store s product point event ≡ (true, s')
      → event_value point event ≡ some v
      → store.clear_product_event s product v ≡ (true, s')
  unfolding clear_product_event
  cleared s s' product point event v h e = ground arith

  recorded_stateful :
      (s s' : S) (product : Product) (point : AccessPoint) (event : Event)
      → record_stateful_event store s product point event ≡ (true, s')
      → (v : Bytes) × (event_value point event ≡ some v)
        × (store.add_stateful_event s product v ≡ (true, s'))
  unfolding record_stateful_event
  recorded_stateful s s' product point event h = ground arith

  recorded :
      (s s' : S) (product : Product) (point : AccessPoint) (event : Event) (v : Bytes)
      → record_product_event store s product point event ≡ (true, s')
      → event_value point event ≡ some v
      → ((store.is_stateful_event s product v ≡ true) × (s ≡ s'))
        ⊎ ((store.is_stateful_event s product v ≡ false)
            × (store.add_product_event s product v ≡ (true, s')))
  unfolding record_product_event
  recorded s s' product point event v h e = ground arith

module _ {S : Type 0} (store : RlzValueStore S) (laws : StoreLaws store) where
  open laws use {view, same_name}

  -- A successful RecordProductEvent of an event with the value v: if that is a stateful event of the
  -- product, the state stays; otherwise v is added to the events of the product, and no value f that
  -- the store tells from v, no other product q, no RLZ and no stateful event changes.
  pub record_product_event_view :
      (s s' : S) (product q : Product) (point : AccessPoint) (event : Event) (v f : Bytes)
      → record_product_event store s product point event ≡ (true, s')
      → event_value point event ≡ some v
      → same_name v f ≡ false
      → q ≢ product
      → (((view s).stateful_event product v ≡ true) × (s ≡ s'))
        ⊎ (((view s).stateful_event product v ≡ false)
            × ((view s').product_event product v ≡ true)
            × ((view s').product_event product f ≡ (view s).product_event product f)
            × ((view s').product_event q ≡ (view s).product_event q)
            × ((view s').rlz ≡ (view s).rlz)
            × ((view s').stateful_event ≡ (view s).stateful_event))
  record_product_event_view s s' product q point event v f h e other apart =
      elim (recorded store s s' product point event v h e) [
        | inl (old, same) ↦ inl (sym (laws.is_stateful s product v) ∙ old, same)
        | inr (new, done) ↦
            let (values, products, rlzs, stateful) = laws.add_event s s' product v done in
            inr (
              sym (laws.is_stateful s product v) ∙ new,
              values v ∙ rw (laws.same_name_refl v),
              values f ∙ rw other,
              products q apart,
              rlzs,
              stateful,
            )
      ]

  -- After a successful RecordStatefulEvent the same event of the same product is no longer recorded:
  -- RecordProductEvent returns true and leaves the state, if the store can be written.
  pub record_product_event-record_stateful_event :
      (s s' : S) (product : Product) (point : AccessPoint) (event : Event)
      → record_stateful_event store s product point event ≡ (true, s')
      → can store s' write_access ≡ true
      → record_product_event store s' product point event ≡ (true, s')
  unfolding record_product_event
  record_product_event-record_stateful_event s s' product point event h writable =
      let (v, e, done) = recorded_stateful store s s' product point event h in
      ground (
        arith,
        e,
        (laws.add_stateful s s' product v done).0 v,
        laws.same_name_refl v,
        laws.is_stateful s' product v,
      )

  -- A successful ClearProductEvent of an event with the value v removes v from the events of its
  -- product; the value w of every other pair of an access point and an event, and the events of every
  -- other product, are left.
  pub clear_product_event_view :
      (s s' : S) (product other : Product) (point q : AccessPoint) (event f : Event) (v w : Bytes)
      → clear_product_event store s product point event ≡ (true, s')
      → event_value point event ≡ some v
      → event_value q f ≡ some w
      → (q ≢ point) ⊎ (f ≢ event)
      → other ≢ product
      → ((view s').product_event product v ≡ false)
        × ((view s').product_event product w ≡ (view s).product_event product w)
        × ((view s').product_event other ≡ (view s).product_event other)
  clear_product_event_view s s' product other point q event f v w h e k differ apart =
      let (values, products, rlzs, stateful) =
        laws.clear_event s s' product v (cleared store s s' product point event v h e) in
      let told_apart : laws.same_name v w ≡ false = elim (Bool-cases (same_name v w)) [
        | inl same ↦ absurd (
            distinct differ (
              event_value_injective q point f event v
                (k
                  ∙ ap some (
                      sym (
                        laws.same_name_plain v w (value_plain point event v e).0
                          (value_plain q f w k).0 same)))
                e))
        | inr differs ↦ differs
      ] in
      (values v ∙ rw (laws.same_name_refl v), values w ∙ rw told_apart, products other apart)
    where
      distinct : (q ≢ point) ⊎ (f ≢ event) → (q ≡ point) × (f ≡ event) → ⊥
      distinct (inl ne) both = ne both.0
      distinct (inr ne) both = ne both.1
