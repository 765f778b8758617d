-- ===== src/Tests/Registries.antt =====
-- Examples for the store of win/lib/rlz_value_store_registry.cc over a sample registry.
use rlz.Prelude.{◌≡◌, refl, Bool, true, List, [], ◌∷◌, some, Bytes, bytes}
use rlz.Enums.{toolbar_notifier, desktop}
use rlz.ValueStore.{AccessType}
use rlz.Registry.{dword}
use rlz.Registry.Sample.{Change, set, sample_registry, sample_laws, sample_account}
use rlz.Registry.Store.{
  registry_store, collect_garbage, read_product_events, clear_ping_time, clear_named_rlz,
  clear_product_event,
}
use rlz.Registry.Store.Locations.{events_at}
use rlz.Registry.Store.Listing.{read_product_events_lists}
use rlz.Registry.Store.Frames.{registry_store-StoreContract}
use rlz.ValueStore.Frames.{StoreContract}
use rlz.Registry.Text.{same_text}
use rlz.ValueStore.Writes.{add_event, apply_write}
use rlz.Registry.Store.Changes.{view_of}
use rlz.Registry.Store.Brands.{Distinct}
use rlz.Registry.Store.Brands.Isolation.{brands_isolated}
use rlz.Registry.Store.Garbage.{collect_garbage_kept}
use rlz.Registry.Store.Unverified.{clear-reports_success}

abbrev with_brand : Bytes
with_brand = bytes "TEST"

abbrev two_events : List Change
two_events =
    set (events_at with_brand toolbar_notifier) (bytes "I7S") (some (dword 1))
    ∷ set (events_at with_brand toolbar_notifier) (bytes "W1I") (some (dword 1))
    ∷ set (events_at with_brand desktop) (bytes "D1S") (some (dword 1))
    ∷ []

abbrev unlocked : List Change → Bool
unlocked s = true

abbrev allowed : List Change → AccessType → Bool
allowed s t = true

registry_store-StoreContract_example :
    StoreContract (registry_store sample_registry unlocked allowed with_brand) same_text
registry_store-StoreContract_example =
    registry_store-StoreContract sample_registry sample_laws sample_account unlocked allowed
      with_brand

read_product_events_lists_example :
    read_product_events sample_registry with_brand two_events toolbar_notifier
    ≡ some (bytes "I7S" ∷ bytes "W1I" ∷ [])
unfolding rlz.LibValues.get_product_name
read_product_events_lists_example =
    read_product_events_lists sample_registry sample_laws with_brand two_events toolbar_notifier
      refl refl

clear-reports_success_example :
    ((clear_ping_time sample_registry with_brand two_events toolbar_notifier).0 ≡ true)
    × ((clear_named_rlz sample_registry with_brand two_events (some (bytes "I7"))).0 ≡ true)
    × ((clear_product_event sample_registry with_brand two_events toolbar_notifier (bytes "I7S")).0
        ≡ true)
clear-reports_success_example =
    clear-reports_success sample_registry sample_laws with_brand two_events toolbar_notifier
      (bytes "I7") (bytes "I7S")

abbrev other_brand : Bytes
other_brand = bytes "TES"

brands_Distinct : Distinct other_brand with_brand
brands_Distinct = record { differ = refl; plain_a = refl; plain_b = refl }

abbrev event_added : List Change
event_added = set (events_at other_brand desktop) (bytes "D1F") (some (dword 1)) ∷ two_events

brands_isolated_example :
    view_of with_brand (sample_laws.value event_added)
    ≡ view_of with_brand (sample_laws.value two_events)
unfolding apply_write registry_store rlz.LibValues.get_product_name
brands_isolated_example =
    brands_isolated sample_registry sample_laws sample_account unlocked allowed other_brand
      with_brand brands_Distinct (add_event desktop (bytes "D1F")) two_events event_added refl

collect_garbage_kept_example :
    sample_laws.value
      (collect_garbage sample_registry with_brand two_events)
      (events_at with_brand desktop)
      (bytes "D1S")
    ≡ sample_laws.value two_events (events_at with_brand desktop) (bytes "D1S")
collect_garbage_kept_example =
    collect_garbage_kept sample_registry sample_laws with_brand two_events
      (events_at with_brand desktop) (bytes "D1S")
