-- ===== src/FinancialPing/Times.antt =====
-- When lib/financial_ping.cc pings, in terms of the times as numbers.
use rlz.Prelude.{
  ℕ, ◌+◌, ◌^◌, ◌≤◌, ◌<◌, ◌≡◌, inl, inr, ◌∙◌, Bool, true, false, ◌&&◌, ◌||◌, none, some, leb, ltb,
  if◌then◌else◌, Bool-cases, Option-cases, arith,
}
use rlz.Enums.{Product}
use rlz.LibValues.{events_ping_interval, no_events_ping_interval}
use rlz.ValueStore.{RlzValueStore, StoreLaws, can, read_access}
use rlz.Platform.{Platform}
use rlz.RlzLib.EventsCgi.{max_cgi_length, get_product_events_as_cgi}
use rlz.FinancialPing.{is_ping_time, ping_due, update_last_ping_time}

module _ {S : Type 0} (store : RlzValueStore S) (platform : Platform S) where
  -- The product has events to report.
  abbrev pub has_events : S → Product → Bool
  has_events s product = (get_product_events_as_cgi store s product (some (max_cgi_length + 1))).ok

  abbrev pub ping_interval : S → Product → ℕ
  ping_interval s product =
      if has_events s product then events_ping_interval else no_events_ping_interval

  -- The schedule: the clock went back, or unreported events and no delay, or the interval has passed.
  abbrev pub is_due : S → Product → Bool → ℕ → Bool
  is_due s product no_delay last =
      ltb (platform.now s) last
      || ((no_delay && has_events s product)
          || leb (last + ping_interval s product) (platform.now s))

  -- Where a ping time is stored and can be read, and it and the clock are below 2^63, IsPingTime
  -- is true exactly if the clock stands before the last ping, or no_delay is set and there are
  -- events to report, or a day has passed since the last ping (with events) or a week (with none).
  pub is_ping_time_schedule :
      (s : S) (product : Product) (no_delay : Bool) (last : ℕ)
      → can store s read_access ≡ true
      → store.read_ping_time s product ≡ some last
      → platform.now s < 2 ^ 63
      → last < 2 ^ 63
      → is_ping_time store platform s product no_delay ≡ is_due s product no_delay last
  unfolding is_ping_time
  is_ping_time_schedule s product no_delay last readable stored h k =
      elim (Bool-cases (has_events s product)) [
        | inl e ↦ rw (stored, readable) (ground (arith, e))
        | inr e ↦ rw (stored, readable) (ground (arith, e))
      ]

  pub is_ping_time_first :
      (s : S) (product : Product) (no_delay : Bool)
      → store.read_ping_time s product ≡ none
      → is_ping_time store platform s product no_delay ≡ can store s read_access
  unfolding is_ping_time
  is_ping_time_first s product no_delay h = ground arith

module _ {S : Type 0} (store : RlzValueStore S) (platform : Platform S)
    (laws : StoreLaws store) where
  open laws use {view}

  pub update_stored :
      (s s' : S) (product : Product)
      → update_last_ping_time store platform s product ≡ (true, s')
      → (view s').ping_time product ≡ some (platform.now s)
  unfolding update_last_ping_time
  update_stored s s' product h = (laws.write_ping s s' product (platform.now s) (ground arith)).0

  -- After a successful UpdateLastPingTime, IsPingTime with no_delay unset is false in every
  -- readable state that keeps the ping time of the product and whose clock, below 2^63, is not
  -- before that time and less than a day after it.
  pub is_ping_time-update_last_ping_time :
      (s s' t : S) (product : Product)
      → update_last_ping_time store platform s product ≡ (true, s')
      → (view t).ping_time product ≡ (view s').ping_time product
      → can store t read_access ≡ true
      → platform.now s ≤ platform.now t
      → platform.now t < platform.now s + events_ping_interval
      → platform.now t < 2 ^ 63
      → is_ping_time store platform t product false ≡ false
  is_ping_time-update_last_ping_time s s' t product h kept readable later soon small =
      let stored : store.read_ping_time t product ≡ some (platform.now s) =
        laws.read_ping t product ∙ (kept ∙ update_stored s s' product h) in
      is_ping_time_schedule store platform t product false (platform.now s) readable stored small
        (omega arith)
      ∙ ground arith

-- Without the delay for unreported events it is time no later.
pub is_ping_time-sooner :
    {S : Type 0} (store : RlzValueStore S) (platform : Platform S) (s : S) (product : Product)
    → is_ping_time store platform s product false ≡ true
    → is_ping_time store platform s product true ≡ true
unfolding is_ping_time ping_due
is_ping_time-sooner store platform s product due =
    elim (Option-cases (store.read_ping_time s product)) [
      | inl never ↦ ground (arith, never, due)
      | inr (last_ping, found) ↦ ground (arith, found, due)
    ]
