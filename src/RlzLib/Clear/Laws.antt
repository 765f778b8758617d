-- ===== src/RlzLib/Clear/Laws.antt =====
-- What lib/rlz_lib_clear.cc clears.
use rlz.Prelude.{◌≡◌, ◌≢◌, ap, ◌∙◌, Bool, true, false, [], some, Bytes, is_empty, arith}
use rlz.Enums.{Product}
use rlz.ValueStore.{RlzValueStore, StoreLaws}
use rlz.RlzLib.Clear.{clear_all_product_events, supplementary_branding, end_supplementary_branding}

module _ {S : Type 0} (store : RlzValueStore S) (laws : StoreLaws store) where
  open laws use {view}

  all_cleared :
      (s s'' : S) (product : Product)
      → clear_all_product_events store s product ≡ (true, s'')
      → let s' = (store.clear_all_product_events s product).1 in
        (store.clear_all_product_events s product ≡ (true, s'))
        × (store.clear_all_stateful_events s' product ≡ (true, s''))
  unfolding clear_all_product_events
  all_cleared s s'' product h = ground arith

  -- A successful ClearAllProductEvents leaves the product no event e, stateful or not, and every other
  -- product q its events.
  pub clear_all_product_events_view :
      (s s'' : S) (product q : Product) (e : Bytes)
      → clear_all_product_events store s product ≡ (true, s'')
      → q ≢ product
      → ((view s'').product_event product e ≡ false)
        × ((view s'').stateful_event product e ≡ false)
        × ((view s'').product_event q ≡ (view s).product_event q)
        × ((view s'').stateful_event q ≡ (view s).stateful_event q)
  clear_all_product_events_view s s'' product q e h ne =
      let s' = (store.clear_all_product_events s product).1 in
      let (first, second) = all_cleared s s'' product h in
      let (gone, others, rlzs, stateful) = laws.clear_all_events s s' product first in
      let (gone', others', events) = laws.clear_all_stateful s' s'' product second in
      (
        ap (λ (f : Product → Bytes → Bool). f product e) events ∙ gone e,
        gone' e,
        ap (λ (f : Product → Bytes → Bool). f q) events ∙ others q ne,
        others' q ne ∙ ap (λ (f : Product → Bytes → Bool). f q) stateful,
      )

-- In the scope of a SupplementaryBranding with a lock and a brand, a second one with a lock changes
-- nothing when it begins, whatever its brand, and takes the brand of the first away when it ends.
pub nested_branding :
    (brand inner : Bytes)
    → is_empty brand ≡ false
    → let outer = supplementary_branding true (some brand) [] in
      (outer ≡ brand)
      × (supplementary_branding true (some inner) outer ≡ brand)
      × (end_supplementary_branding true (supplementary_branding true (some inner) outer) ≡ [])
unfolding supplementary_branding end_supplementary_branding
nested_branding brand inner h = ground arith
