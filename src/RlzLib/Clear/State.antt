-- ===== src/RlzLib/Clear/State.antt =====
-- ClearProductState of lib/rlz_lib_clear.cc: all that it clears, and all that it leaves.
use rlz.Prelude.{
  ℕ, Option, ◌≡◌, ◌≢◌, ◌⊎◌, refl, sym, ap, ◌∙◌, Bool, true, false, ◌||◌, List, [], ◌∷◌, some, Bytes,
  if◌then◌else◌, inl, inr, Bool-cases, arith,
}
use mathlib.Core.Option.{none}
use rlz.Enums.{AccessPoint, Product}
use rlz.ValueStore.{RlzValueStore, View, StoreLaws, can, write_access}
use rlz.ValueStore.Memory.{AccessPoint-discrete}
use rlz.ValueStore.Frames.{StoreFrames}
use rlz.RlzLib.PingParams.{is_no_access_point}
use rlz.RlzLib.Clear.{clear_rlzs, clear_product_state, clear_all_product_events, clear_points}

abbrev decided : {P : Type 0} → Dec P → Bool
decided (yes h) = true
decided (no h) = false

abbrev same_point : AccessPoint → AccessPoint → Bool
same_point p q = decided (AccessPoint-discrete p q)

-- Does the access point stand before the first NO_ACCESS_POINT?
abbrev pub is_listed : List AccessPoint → AccessPoint → Bool
is_listed [] q = false
is_listed (point ∷ points) q =
    let rest = is_listed points q in
    if is_no_access_point point then false else (same_point point q || rest)

-- The calls that clear succeed, for the RLZs of the access points in the list.
pub record ClearsState {S : Type 0} (store : RlzValueStore S) (points : List AccessPoint)
    : Type 0 where
  pub events_clear :
      (s : S) (product : Product) → (store.clear_all_product_events s product).0 ≡ true
  pub stateful_clear :
      (s : S) (product : Product) → (store.clear_all_stateful_events s product).0 ≡ true
  pub ping_clear : (s : S) (product : Product) → (store.clear_ping_time s product).0 ≡ true
  pub rlz_clear :
      (s : S) (point : AccessPoint)
      → is_listed points point ≡ true
      → (store.clear_access_point_rlz s point).0 ≡ true

pair_of : {S : Type 0} (r : Bool × S) → r.0 ≡ true → r ≡ (true, r.1)
pair_of (b, s) h = rw h

decided-cases : {P : Type 0} (d : Dec P) → ((decided d ≡ true) × P) ⊎ ((decided d ≡ false) × ¬ P)
decided-cases (yes h) = inl (refl, h)
decided-cases (no h) = inr (refl, h)

same_point_refl : (p : AccessPoint) → same_point p p ≡ true
same_point_refl p = elim (decided-cases (AccessPoint-discrete p p)) [
  | inl (same, e) ↦ same
  | inr (other, ne) ↦ absurd (ne refl)
]

-- A point before the first NO_ACCESS_POINT, and those after it.
first_listed :
    (point : AccessPoint) (points : List AccessPoint)
    → is_no_access_point point ≡ false
    → is_listed (point ∷ points) point ≡ true
first_listed point points named = rw (named, same_point_refl point) refl

rest_listed :
    (point q : AccessPoint) (points : List AccessPoint)
    → is_no_access_point point ≡ false
    → is_listed points q ≡ true
    → is_listed (point ∷ points) q ≡ true
rest_listed point q points named there = rw (named, there) (ground arith)

nothing_left : (b : Bool) (t : Bytes) → t ≡ [] → ◌≡◌ {A = Bytes} (if b then [] else t) []
nothing_left true t h = refl
nothing_left false t h = h

module _ {S : Type 0} (store : RlzValueStore S) (laws : StoreLaws store)
    (frames : StoreFrames store laws) where
  open laws use {view}

  -- The RLZs of the list are cleared, and nothing else is changed.
  abbrev RlzsCleared : List AccessPoint → S → S → Type 0
  RlzsCleared points s s' =
      ((q : AccessPoint) → (view s').rlz q ≡ (if is_listed points q then [] else (view s).rlz q))
      × ((view s').product_event ≡ (view s).product_event)
      × ((view s').stateful_event ≡ (view s).stateful_event)
      × ((view s').ping_time ≡ (view s).ping_time)

  one_cleared :
      (point : AccessPoint) (points : List AccessPoint) (s s1 s' : S)
      → is_no_access_point point ≡ false
      → store.clear_access_point_rlz s point ≡ (true, s1)
      → RlzsCleared points s1 s'
      → RlzsCleared (point ∷ points) s s'
  one_cleared point points s s1 s' named h (rlzs, events, stateful, ping) =
      let (gone, others, events1) = laws.clear_rlz s s1 point h in
      let (ping1, stateful1) = frames.clear_rlz_frame s s1 point h in
      (
        λ q. elim (decided-cases (AccessPoint-discrete point q)) [
          | inl (same, e) ↦
              rlzs q
              ∙ rw (named, same)
                  (nothing_left (is_listed points q) ((view s1).rlz q)
                    (ap (view s1).rlz (sym e) ∙ gone))
          | inr (other, ne) ↦
              rlzs q
              ∙ rw (named, other)
                  (ap (λ (t : Bytes). if is_listed points q then [] else t)
                    (others q (λ e. ne (sym e))))
        ],
        events ∙ events1,
        stateful ∙ stateful1,
        ping ∙ ping1,
      )

  rlzs_cleared :
      (points : List AccessPoint) (s : S)
      → ((s : S) (point : AccessPoint)
          → is_listed points point ≡ true
          → (store.clear_access_point_rlz s point).0 ≡ true)
      → RlzsCleared points s (clear_rlzs store s points)
  unfolding clear_rlzs
  rlzs_cleared [] s clears = (λ q. refl, refl, refl, refl)
  rlzs_cleared (point ∷ points) s clears = elim (Bool-cases (is_no_access_point point)) [
    | inl last ↦ rw last (λ q. refl, refl, refl, refl)
    | inr named ↦
        let s1 = (store.clear_access_point_rlz s point).1 in
        let done : store.clear_access_point_rlz s point ≡ (true, s1) =
          pair_of (store.clear_access_point_rlz s point)
            (clears s point (first_listed point points named)) in
        let rest =
          rlzs_cleared points s1
            (λ t q there. clears t q (rest_listed point q points named there)) in
        let step : clear_rlzs store s (point ∷ points) ≡ clear_rlzs store s1 points =
          rw named refl in
        rw step (one_cleared point points s s1 (clear_rlzs store s1 points) named done rest)
  ]

  -- A view in which the product's entries are cleared.
  abbrev pub Cleared : List AccessPoint → Product → View → View → Type 0
  Cleared points product before after =
      ((e : Bytes)
        → (after.product_event product e ≡ false) × (after.stateful_event product e ≡ false))
      × (after.ping_time product ≡ none)
      × ((q : AccessPoint) → after.rlz q ≡ (if is_listed points q then [] else before.rlz q))
      × ((q : Product)
          → q ≢ product
          → (after.product_event q ≡ before.product_event q)
            × (after.stateful_event q ≡ before.stateful_event q)
            × (after.ping_time q ≡ before.ping_time q))

  -- Where the store can be written and its calls that clear succeed, ClearProductState leaves the product no
  -- event, stateful or not, and no ping time, clears the RLZs of the access points before the first
  -- NO_ACCESS_POINT of the list, and leaves all other RLZs, and the events and ping times of every other product.
  pub clear_product_state_view :
      (s : S) (product : Product) (points : List AccessPoint)
      → ClearsState store points
      → can store s write_access ≡ true
      → Cleared points product (view s) (view (clear_product_state store s product (some points)))
  unfolding clear_product_state clear_points clear_all_product_events
  clear_product_state_view s product points clears writable =
      let s1 = (store.clear_all_product_events s product).1 in
      let s2 = (store.clear_all_stateful_events s1 product).1 in
      let s3 = (store.clear_ping_time s2 product).1 in
      let s4 = clear_rlzs store s3 points in
      let h1 : store.clear_all_product_events s product ≡ (true, s1) =
        pair_of _ (clears.events_clear s product) in
      let h2 : store.clear_all_stateful_events s1 product ≡ (true, s2) =
        pair_of _ (clears.stateful_clear s1 product) in
      let h3 : store.clear_ping_time s2 product ≡ (true, s3) =
        pair_of _ (clears.ping_clear s2 product) in
      let (gone, others, rlz1, stateful1) = laws.clear_all_events s s1 product h1 in
      let (gone2, others2, events2) = laws.clear_all_stateful s1 s2 product h2 in
      let (ping2, rlz2) = frames.clear_all_stateful_frame s1 s2 product h2 in
      let (ping_gone, ping_others, events3) = laws.clear_ping s2 s3 product h3 in
      let (rlz3, stateful3) = frames.clear_ping_frame s2 s3 product h3 in
      let (rlzs, events4, stateful4, ping4) = rlzs_cleared points s3 clears.rlz_clear in
      let events : (view s4).product_event ≡ (view s1).product_event =
        events4 ∙ (events3 ∙ events2) in
      let stateful : (view s4).stateful_event ≡ (view s2).stateful_event = stateful4 ∙ stateful3 in
      let rlz : (view s3).rlz ≡ (view s).rlz = rlz3 ∙ (rlz2 ∙ rlz1) in
      let ping : (view s2).ping_time ≡ (view s).ping_time =
        ping2 ∙ frames.clear_all_events_frame s s1 product h1 in
      let state : clear_product_state store s product (some points) ≡ store.collect_garbage s4 =
        rw writable refl in
      let kept : Cleared points product (view s) (view s4) = (
        λ e. (
          ap (λ (f : Product → Bytes → Bool). f product e) events ∙ gone e,
          ap (λ (f : Product → Bytes → Bool). f product e) stateful ∙ gone2 e,
        ),
        ap (λ (f : Product → Option ℕ). f product) ping4 ∙ ping_gone,
        λ q. rlzs q ∙ ap (λ (f : AccessPoint → Bytes). if is_listed points q then [] else f q) rlz,
        λ q ne. (
          ap (λ (f : Product → Bytes → Bool). f q) events ∙ others q ne,
          ap (λ (f : Product → Bytes → Bool). f q) stateful
              ∙ (others2 q ne ∙ ap (λ (f : Product → Bytes → Bool). f q) stateful1),
          ap (λ (f : Product → Option ℕ). f q) ping4
              ∙ (ping_others q ne ∙ ap (λ (f : Product → Option ℕ). f q) ping),
        ),
      ) in
      rw (state, frames.collect_garbage_frame s4) kept
