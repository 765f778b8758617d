-- ===== src/RlzLib/AccessPoints/Laws.antt =====
-- SetAccessPointRlz and GetAccessPointRlz of lib/rlz_lib.cc against each other.
use rlz.Prelude.{
  ℕ, ◌<◌, ◌≤◌, ◌≡◌, ◌≢◌, ◌⊎◌, true, false, Option, none, some, [], ◌∷◌, Bytes, length, arith,
}
use rlz.Enums.{AccessPoint}
use rlz.Base.{Base}
use rlz.ValueStore.{RlzValueStore, StoreLaws, can, read_access, write_access}
use rlz.RlzLib.Normalize.{is_access_point_supported, normalize_rlz, max_rlz_length}
use rlz.RlzLib.Normalize.Laws.{normalize_rlz-length, supported_name}
use rlz.RlzLib.AccessPoints.{get_access_point_rlz, set_access_point_rlz, store_rlz}

module _ {S : Type 0} (base : Base) (store : RlzValueStore S) where
  -- With no write access, for no RLZ, for an access point that is not supported, or for an RLZ of
  -- more than 64 characters, SetAccessPointRlz returns false and leaves the state.
  pub set_access_point_rlz_rejects :
      (s : S) (point : AccessPoint) (rlz : Option Bytes)
      → (can store s write_access ≡ false)
        ⊎ (rlz ≡ none)
        ⊎ (is_access_point_supported point ≡ false)
        ⊎ ((text : Bytes) × (rlz ≡ some text) × (max_rlz_length < length text))
      → set_access_point_rlz base store s point rlz ≡ (false, s)
  unfolding set_access_point_rlz
  set_access_point_rlz_rejects s point none h = ground arith
  set_access_point_rlz_rejects s point (some text) h = ground arith

  set_accepted :
      (s s' : S) (point : AccessPoint) (rlz : Bytes)
      → set_access_point_rlz base store s point (some rlz) ≡ (true, s')
      → (store_rlz base store s point (normalize_rlz base rlz) ≡ (true, s'))
        × (is_access_point_supported point ≡ true)
        × (length rlz ≤ max_rlz_length)
  unfolding set_access_point_rlz
  set_accepted s s' point rlz h = ground arith

module _ {S : Type 0} (base : Base) (store : RlzValueStore S) (laws : StoreLaws store) where
  open laws use {view}

  store_rlz_view :
      (s s' : S) (point : AccessPoint) (rlz : Bytes)
      → store_rlz base store s point rlz ≡ (true, s')
      → ((view s').rlz point ≡ rlz)
        × ((q : AccessPoint) → q ≢ point → (view s').rlz q ≡ (view s).rlz q)
        × ((view s').product_event ≡ (view s).product_event)
  unfolding store_rlz
  store_rlz_view s s' point [] h = laws.clear_rlz s s' point h
  store_rlz_view s s' point (c ∷ rlz) h = laws.write_rlz s s' point (c ∷ rlz) h

  -- A successful SetAccessPointRlz changes the RLZ of its access point to the normalized text (none
  -- stored if that is empty), and neither the RLZ of another access point q nor a product event.
  pub set_access_point_rlz_view :
      (s s' : S) (point q : AccessPoint) (rlz : Bytes)
      → set_access_point_rlz base store s point (some rlz) ≡ (true, s')
      → q ≢ point
      → ((view s').rlz point ≡ normalize_rlz base rlz)
        × ((view s').rlz q ≡ (view s).rlz q)
        × ((view s').product_event ≡ (view s).product_event)
  set_access_point_rlz_view s s' point q rlz h ne =
      let (own, others, events) =
        store_rlz_view s s' point (normalize_rlz base rlz)
          (set_accepted base store s s' point rlz h).0 in
      (own, others q ne, events)

  get_reads :
      (s : S) (point : AccessPoint) (size : ℕ)
      → can store s read_access ≡ true
      → is_access_point_supported point ≡ true
      → length ((view s).rlz point) < size
      → get_access_point_rlz store s point (some size) ≡ (true, (view s).rlz point)
  unfolding get_access_point_rlz
  get_reads s point size h k l =
      let (name, named) = supported_name point k in
      ground (arith, laws.read_rlz s point name size named l)

  -- After a successful SetAccessPointRlz, GetAccessPointRlz into a buffer that is longer than the
  -- given RLZ returns true and the normalized text, if the store can be read.
  pub get_access_point_rlz-set_access_point_rlz :
      (s s' : S) (point : AccessPoint) (rlz : Bytes) (size : ℕ)
      → set_access_point_rlz base store s point (some rlz) ≡ (true, s')
      → can store s' read_access ≡ true
      → length rlz < size
      → get_access_point_rlz store s' point (some size) ≡ (true, normalize_rlz base rlz)
  get_access_point_rlz-set_access_point_rlz s s' point rlz size h readable room =
      let accepted = set_accepted base store s s' point rlz h in
      let stored = (store_rlz_view s s' point (normalize_rlz base rlz) accepted.0).0 in
      let fits = normalize_rlz-length base rlz accepted.2 in
      rw stored at (get_reads s' point size readable accepted.1 (rw (stored, fits) room))
