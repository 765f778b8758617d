-- ===== src/LibValues.antt =====
-- lib/lib_values.h and lib/lib_values.cc: the words of the protocol and the names of the enumerations.
-- A name is a C string, `none` for NULL. The loops of Get...FromName run over the values from the
-- first one to the one before LAST_..., which are listed in their order.
pub mod Names
use rlz.Prelude.{
  ℕ, ◌*◌, Bool, true, false, List, [], ◌∷◌, Option, none, some, Bytes, bytes, bytes_eq,
  if◌then◌else◌,
}
use rlz.Enums.{
  AccessPoint, no_access_point, ie_default_search, ie_home_page, ietb_search_box, quick_search_box,
  gd_deskband, gd_search_gadget, gd_web_server, gd_outlook, chrome_omnibox, chrome_home_page,
  fftb2_box, fftb3_box, pinyin_ime_bho, igoogle_webpage, mobile_idle_screen_blackberry,
  mobile_idle_screen_winmob, mobile_idle_screen_symbian, ff_home_page, ff_search_box,
  ie_browsed_page, qsb_win_box, webapps_calendar, webapps_docs, webapps_gmail, ietb_linkdoctor,
  fftb_linkdoctor, ietb7_search_box, tb8_search_box, chrome_frame, partner_ap_1, partner_ap_2,
  partner_ap_3, partner_ap_4, partner_ap_5, undefined_ap_h, undefined_ap_i, undefined_ap_j,
  undefined_ap_k, undefined_ap_l, undefined_ap_m, undefined_ap_n, undefined_ap_o, undefined_ap_p,
  undefined_ap_q, undefined_ap_r, undefined_ap_s, undefined_ap_t, undefined_ap_u, undefined_ap_v,
  undefined_ap_w, undefined_ap_x, undefined_ap_y, undefined_ap_z, pack_ap0, pack_ap1, pack_ap2,
  pack_ap3, pack_ap4, pack_ap5, pack_ap6, pack_ap7, pack_ap8, pack_ap9, pack_ap10, pack_ap11,
  pack_ap12, pack_ap13, last_access_point,
}
use rlz.Enums.{
  Product, ie_toolbar, toolbar_notifier, pack, desktop, chrome, ff_toolbar, qsb_win, webapps,
  pinyin_ime, partner,
}
use rlz.Enums.{
  Event, invalid_event, install, set_to_google, first_search, report_rls, activate, last_event,
}

abbrev pub protocol_cgi_argument : Bytes
protocol_cgi_argument = bytes "rep=2"

abbrev pub events_cgi_variable : Bytes
events_cgi_variable = bytes "events"

abbrev pub stateful_events_cgi_variable : Bytes
stateful_events_cgi_variable = bytes "stateful-events"

abbrev pub events_cgi_separator : ℕ
events_cgi_separator = b','

abbrev pub rlz_cgi_variable : Bytes
rlz_cgi_variable = bytes "rlz"

abbrev pub rlz_cgi_separator : Bytes
rlz_cgi_separator = bytes ","

abbrev pub rlz_cgi_indicator : Bytes
rlz_cgi_indicator = bytes ":"

abbrev pub product_signature_cgi_variable : Bytes
product_signature_cgi_variable = bytes "as"

abbrev pub product_brand_cgi_variable : Bytes
product_brand_cgi_variable = bytes "brand"

abbrev pub product_language_cgi_variable : Bytes
product_language_cgi_variable = bytes "hl"

abbrev pub product_id_cgi_variable : Bytes
product_id_cgi_variable = bytes "pid"

abbrev pub machine_id_cgi_variable : Bytes
machine_id_cgi_variable = bytes "id"

abbrev pub financial_server : Bytes
financial_server = bytes "clients1.google.com"

abbrev pub financial_port : ℕ
financial_port = 80

abbrev pub financial_ping_user_agent : Bytes
financial_ping_user_agent = bytes "Mozilla/4.0 (compatible; Win32)"

abbrev pub financial_ping_response_objects : List Bytes
financial_ping_response_objects = bytes "text/*" ∷ []

abbrev pub financial_ping_path : Bytes
financial_ping_path = bytes "/tools/pso/ping"

-- In steps of 100 ns: a day, and a week.
abbrev pub events_ping_interval : ℕ
events_ping_interval = 24 * 3600 * 10000000

abbrev pub no_events_ping_interval : ℕ
no_events_ping_interval = events_ping_interval * 7

unfoldable pub get_access_point_name : AccessPoint → Option Bytes
get_access_point_name no_access_point = some (bytes "")
get_access_point_name ie_default_search = some (bytes "I7")
get_access_point_name ie_home_page = some (bytes "W1")
get_access_point_name ietb_search_box = some (bytes "T4")
get_access_point_name quick_search_box = some (bytes "Q1")
get_access_point_name gd_deskband = some (bytes "D1")
get_access_point_name gd_search_gadget = some (bytes "D2")
get_access_point_name gd_web_server = some (bytes "D3")
get_access_point_name gd_outlook = some (bytes "D4")
get_access_point_name chrome_omnibox = some (bytes "C1")
get_access_point_name chrome_home_page = some (bytes "C2")
get_access_point_name fftb2_box = some (bytes "B2")
get_access_point_name fftb3_box = some (bytes "B3")
get_access_point_name pinyin_ime_bho = some (bytes "N1")
get_access_point_name igoogle_webpage = some (bytes "G1")
get_access_point_name mobile_idle_screen_blackberry = some (bytes "H1")
get_access_point_name mobile_idle_screen_winmob = some (bytes "H2")
get_access_point_name mobile_idle_screen_symbian = some (bytes "H3")
get_access_point_name ff_home_page = some (bytes "R0")
get_access_point_name ff_search_box = some (bytes "R1")
get_access_point_name ie_browsed_page = some (bytes "R2")
get_access_point_name qsb_win_box = some (bytes "R3")
get_access_point_name webapps_calendar = some (bytes "R4")
get_access_point_name webapps_docs = some (bytes "R5")
get_access_point_name webapps_gmail = some (bytes "R6")
get_access_point_name ietb_linkdoctor = some (bytes "R7")
get_access_point_name fftb_linkdoctor = some (bytes "R8")
get_access_point_name ietb7_search_box = some (bytes "T7")
get_access_point_name tb8_search_box = some (bytes "T8")
get_access_point_name chrome_frame = some (bytes "C3")
get_access_point_name partner_ap_1 = some (bytes "V1")
get_access_point_name partner_ap_2 = some (bytes "V2")
get_access_point_name partner_ap_3 = some (bytes "V3")
get_access_point_name partner_ap_4 = some (bytes "V4")
get_access_point_name partner_ap_5 = some (bytes "V5")
get_access_point_name undefined_ap_h = some (bytes "RH")
get_access_point_name undefined_ap_i = some (bytes "RI")
get_access_point_name undefined_ap_j = some (bytes "RJ")
get_access_point_name undefined_ap_k = some (bytes "RK")
get_access_point_name undefined_ap_l = some (bytes "RL")
get_access_point_name undefined_ap_m = some (bytes "RM")
get_access_point_name undefined_ap_n = some (bytes "RN")
get_access_point_name undefined_ap_o = some (bytes "RO")
get_access_point_name undefined_ap_p = some (bytes "RP")
get_access_point_name undefined_ap_q = some (bytes "RQ")
get_access_point_name undefined_ap_r = some (bytes "RR")
get_access_point_name undefined_ap_s = some (bytes "RS")
get_access_point_name undefined_ap_t = some (bytes "RT")
get_access_point_name undefined_ap_u = some (bytes "RU")
get_access_point_name undefined_ap_v = some (bytes "RV")
get_access_point_name undefined_ap_w = some (bytes "RW")
get_access_point_name undefined_ap_x = some (bytes "RX")
get_access_point_name undefined_ap_y = some (bytes "RY")
get_access_point_name undefined_ap_z = some (bytes "RZ")
get_access_point_name pack_ap0 = some (bytes "U0")
get_access_point_name pack_ap1 = some (bytes "U1")
get_access_point_name pack_ap2 = some (bytes "U2")
get_access_point_name pack_ap3 = some (bytes "U3")
get_access_point_name pack_ap4 = some (bytes "U4")
get_access_point_name pack_ap5 = some (bytes "U5")
get_access_point_name pack_ap6 = some (bytes "U6")
get_access_point_name pack_ap7 = some (bytes "U7")
get_access_point_name pack_ap8 = some (bytes "U8")
get_access_point_name pack_ap9 = some (bytes "U9")
get_access_point_name pack_ap10 = some (bytes "UA")
get_access_point_name pack_ap11 = some (bytes "UB")
get_access_point_name pack_ap12 = some (bytes "UC")
get_access_point_name pack_ap13 = some (bytes "UD")
get_access_point_name last_access_point = none

abbrev pub access_points : List AccessPoint
access_points =
    no_access_point ∷ ie_default_search ∷ ie_home_page ∷ ietb_search_box ∷ quick_search_box
    ∷ gd_deskband ∷ gd_search_gadget ∷ gd_web_server ∷ gd_outlook ∷ chrome_omnibox
    ∷ chrome_home_page ∷ fftb2_box ∷ fftb3_box ∷ pinyin_ime_bho ∷ igoogle_webpage
    ∷ mobile_idle_screen_blackberry ∷ mobile_idle_screen_winmob ∷ mobile_idle_screen_symbian
    ∷ ff_home_page ∷ ff_search_box ∷ ie_browsed_page ∷ qsb_win_box ∷ webapps_calendar ∷ webapps_docs
    ∷ webapps_gmail ∷ ietb_linkdoctor ∷ fftb_linkdoctor ∷ ietb7_search_box ∷ tb8_search_box
    ∷ chrome_frame ∷ partner_ap_1 ∷ partner_ap_2 ∷ partner_ap_3 ∷ partner_ap_4 ∷ partner_ap_5
    ∷ undefined_ap_h ∷ undefined_ap_i ∷ undefined_ap_j ∷ undefined_ap_k ∷ undefined_ap_l
    ∷ undefined_ap_m ∷ undefined_ap_n ∷ undefined_ap_o ∷ undefined_ap_p ∷ undefined_ap_q
    ∷ undefined_ap_r ∷ undefined_ap_s ∷ undefined_ap_t ∷ undefined_ap_u ∷ undefined_ap_v
    ∷ undefined_ap_w ∷ undefined_ap_x ∷ undefined_ap_y ∷ undefined_ap_z ∷ pack_ap0 ∷ pack_ap1
    ∷ pack_ap2 ∷ pack_ap3 ∷ pack_ap4 ∷ pack_ap5 ∷ pack_ap6 ∷ pack_ap7 ∷ pack_ap8 ∷ pack_ap9
    ∷ pack_ap10 ∷ pack_ap11 ∷ pack_ap12 ∷ pack_ap13 ∷ []

unfoldable pub get_event_name : Event → Option Bytes
get_event_name invalid_event = some (bytes "")
get_event_name install = some (bytes "I")
get_event_name set_to_google = some (bytes "S")
get_event_name first_search = some (bytes "F")
get_event_name report_rls = some (bytes "R")
get_event_name activate = some (bytes "A")
get_event_name last_event = none

abbrev pub events : List Event
events = invalid_event ∷ install ∷ set_to_google ∷ first_search ∷ report_rls ∷ activate ∷ []

unfoldable pub get_product_name : Product → Bytes
get_product_name ie_toolbar = bytes "T"
get_product_name toolbar_notifier = bytes "P"
get_product_name pack = bytes "U"
get_product_name desktop = bytes "D"
get_product_name chrome = bytes "C"
get_product_name ff_toolbar = bytes "B"
get_product_name qsb_win = bytes "K"
get_product_name webapps = bytes "W"
get_product_name pinyin_ime = bytes "N"
get_product_name partner = bytes "V"

-- strcmp(name, value) == 0; a NULL value, which the loops do not reach, matches nothing.
abbrev is_name : Bytes → Option Bytes → Bool
is_name name none = false
is_name name (some value) = bytes_eq name value

search_points : Bytes → List AccessPoint → Bool × AccessPoint
search_points name [] = (false, no_access_point)
search_points name (point ∷ rest) =
    let found = search_points name rest in
    if is_name name (get_access_point_name point) then (true, point) else found

-- The second result is *point after the call, for a `point` that is not NULL.
unfoldable pub get_access_point_from_name : Option Bytes → Bool × AccessPoint
unfolding search_points get_access_point_name
get_access_point_from_name none = (false, no_access_point)
get_access_point_from_name (some name) = search_points name access_points

search_events : Bytes → List Event → Bool × Event
search_events name [] = (false, invalid_event)
search_events name (event ∷ rest) =
    let found = search_events name rest in
    if is_name name (get_event_name event) then (true, event) else found

-- The second result is *event after the call, for an `event` that is not NULL.
unfoldable pub get_event_from_name : Option Bytes → Bool × Event
unfolding search_events get_event_name
get_event_from_name none = (false, invalid_event)
get_event_from_name (some name) = search_events name events
