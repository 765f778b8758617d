-- ===== src/LibValues/Names.antt =====
-- The names of lib/lib_values.cc are read back as what they name.
use mathlib.Core.Option.{some-injective}
use rlz.Prelude.{
  ap, ◌∙◌, ◌==◌, if◌then◌else◌, Bool, leb, ◌&&◌, all, true, ℕ, ◌≡◌, ◌↔◌, sym, ◌≢◌, refl, List, [],
  ◌∷◌, Option, none, some, Bytes, bytes_eq_sound, arith,
}
use rlz.Enums.{AccessPoint, no_access_point, last_access_point}
use rlz.Enums.{Event, invalid_event, last_event}
use rlz.Enums.{
  Product, ie_toolbar, toolbar_notifier, pack, desktop, chrome, ff_toolbar, qsb_win, webapps,
  pinyin_ime, partner,
}
use rlz.LibValues.{
  is_name, get_access_point_name, get_access_point_from_name, search_points, access_points,
  get_event_name, get_event_from_name, search_events, events, get_product_name,
}

-- The name of an access point other than LAST_ACCESS_POINT is read back as that access point.
pub get_access_point_from_name-get_access_point_name :
    (point : AccessPoint)
    → point ≢ last_access_point
    → get_access_point_from_name (get_access_point_name point) ≡ (true, point)
unfolding get_access_point_from_name
get_access_point_from_name-get_access_point_name no_access_point h = refl
get_access_point_from_name-get_access_point_name last_access_point h = absurd (h refl)
get_access_point_from_name-get_access_point_name _ h = refl

is_name_sound :
    (name : Bytes) (value : Option Bytes) → is_name name value ≡ true → value ≡ some name
is_name_sound name none h = ground arith
is_name_sound name (some value) h = ground (arith, bytes_eq_sound name value h)

search_points_sound :
    (name : Bytes) (points : List AccessPoint) (point : AccessPoint)
    → search_points name points ≡ (true, point)
    → get_access_point_name point ≡ some name
unfolding search_points
search_points_sound name [] point h = ground arith
search_points_sound name (p ∷ rest) point h =
    ground
      (arith, is_name_sound name (get_access_point_name p), search_points_sound name rest point)

last_access_point_nameless : get_access_point_name last_access_point ≡ none
unfolding get_access_point_name
last_access_point_nameless = refl

-- GetAccessPointFromName returns true with an access point exactly when the argument is the name of
-- that access point.
pub get_access_point_from_name_iff :
    (name : Bytes) (point : AccessPoint)
    → (get_access_point_from_name (some name) ≡ (true, point))
      ↔ (get_access_point_name point ≡ some name)
get_access_point_from_name_iff name point = (
  unfold get_access_point_from_name in search_points_sound name access_points point,
  λ e. rw (← e) (
      get_access_point_from_name-get_access_point_name point
        (λ (last : point ≡ last_access_point). ground (arith, last_access_point_nameless))),
)

-- No two access points share a name.
pub get_access_point_name_injective :
    (p q : AccessPoint) (name : Bytes)
    → get_access_point_name p ≡ some name
    → get_access_point_name q ≡ some name
    → p ≡ q
get_access_point_name_injective p q name h k = ground (
  arith,
  (get_access_point_from_name_iff name p).1 h,
  (get_access_point_from_name_iff name q).1 k,
)

-- The name of an event other than LAST_EVENT is read back as that event.
pub get_event_from_name-get_event_name :
    (event : Event)
    → event ≢ last_event
    → get_event_from_name (get_event_name event) ≡ (true, event)
unfolding get_event_from_name
get_event_from_name-get_event_name invalid_event h = refl
get_event_from_name-get_event_name last_event h = absurd (h refl)
get_event_from_name-get_event_name _ h = refl

search_events_sound :
    (name : Bytes) (values : List Event) (event : Event)
    → search_events name values ≡ (true, event)
    → get_event_name event ≡ some name
unfolding search_events
search_events_sound name [] event h = ground arith
search_events_sound name (v ∷ rest) event h =
    ground (arith, is_name_sound name (get_event_name v), search_events_sound name rest event)

last_event_nameless : get_event_name last_event ≡ none
unfolding get_event_name
last_event_nameless = refl

-- GetEventFromName returns true with an event exactly when the argument is the name of that event.
pub get_event_from_name_iff :
    (name : Bytes) (event : Event)
    → (get_event_from_name (some name) ≡ (true, event)) ↔ (get_event_name event ≡ some name)
get_event_from_name_iff name event = (
  unfold get_event_from_name in search_events_sound name events event,
  λ e. rw (← e) (
      get_event_from_name-get_event_name event
        (λ (last : event ≡ last_event). ground (arith, last_event_nameless))),
)

-- A name of two characters, other than the empty name of NO_ACCESS_POINT.
pub get_access_point_name_shape :
    (point : AccessPoint) (name : Bytes)
    → point ≢ no_access_point
    → get_access_point_name point ≡ some name
    → (a : ℕ) × (b : ℕ) × (name ≡ a ∷ b ∷ [])
unfolding get_access_point_name
get_access_point_name_shape no_access_point name h e = absurd (h refl)
get_access_point_name_shape last_access_point name h e = cc
get_access_point_name_shape _ name h e = (_, _, sym (some-injective _ _ e))

-- A name of one character, other than the empty name of INVALID_EVENT.
pub get_event_name_shape :
    (event : Event) (name : Bytes)
    → event ≢ invalid_event
    → get_event_name event ≡ some name
    → (c : ℕ) × (name ≡ c ∷ [])
unfolding get_event_name
get_event_name_shape invalid_event name h e = absurd (h refl)
get_event_name_shape last_event name h e = cc
get_event_name_shape _ name h e = (_, sym (some-injective _ _ e))

-- The names are made of capital letters and digits.
abbrev pub is_plain : ℕ → Bool
is_plain c = leb b'0' c && leb c b'Z'

pub get_access_point_name_plain :
    (point : AccessPoint) (name : Bytes)
    → get_access_point_name point ≡ some name
    → all is_plain name ≡ true
unfolding get_access_point_name
get_access_point_name_plain last_access_point name e = cc
get_access_point_name_plain _ name e = rw (← some-injective _ _ e)

pub get_event_name_plain :
    (event : Event) (name : Bytes) → get_event_name event ≡ some name → all is_plain name ≡ true
unfolding get_event_name
get_event_name_plain last_event name e = cc
get_event_name_plain _ name e = rw (← some-injective _ _ e)

-- A product's name is one capital letter.
pub letter : Product → ℕ
letter ie_toolbar = b'T'
letter toolbar_notifier = b'P'
letter pack = b'U'
letter desktop = b'D'
letter chrome = b'C'
letter ff_toolbar = b'B'
letter qsb_win = b'K'
letter webapps = b'W'
letter pinyin_ime = b'N'
letter partner = b'V'

product_of : ℕ → Product
product_of c =
    if c == b'T'
    then ie_toolbar
    else if c == b'P'
    then toolbar_notifier
    else if c == b'U'
    then pack
    else if c == b'D'
    then desktop
    else if c == b'C'
    then chrome
    else if c == b'B'
    then ff_toolbar
    else if c == b'K'
    then qsb_win
    else if c == b'W'
    then webapps
    else if c == b'N'
    then pinyin_ime
    else partner

product_of-letter : (p : Product) → product_of (letter p) ≡ p
unfolding product_of letter
product_of-letter ie_toolbar = refl
product_of-letter _ = refl

pub get_product_name-letter : (p : Product) → get_product_name p ≡ letter p ∷ []
unfolding get_product_name letter
get_product_name-letter ie_toolbar = refl
get_product_name-letter _ = refl

pub letter_capital : (p : Product) → (leb b'A' (letter p) && leb (letter p) b'Z') ≡ true
unfolding letter
letter_capital ie_toolbar = refl
letter_capital _ = refl

pub letter_injective : (p q : Product) → letter p ≡ letter q → p ≡ q
letter_injective p q h = sym (product_of-letter p) ∙ (ap product_of h ∙ product_of-letter q)
