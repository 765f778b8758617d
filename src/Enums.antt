-- ===== src/Enums.antt =====
-- lib/rlz_enums.h. An enumeration holds its declared values only; LAST_ACCESS_POINT and LAST_EVENT,
-- which only bound the loops, are values like the others.
pub data AccessPoint : Type 0 where
  no_access_point ie_default_search ie_home_page ietb_search_box quick_search_box gd_deskband :
      AccessPoint
  gd_search_gadget gd_web_server gd_outlook chrome_omnibox chrome_home_page fftb2_box fftb3_box :
      AccessPoint
  pinyin_ime_bho igoogle_webpage mobile_idle_screen_blackberry mobile_idle_screen_winmob :
      AccessPoint
  mobile_idle_screen_symbian ff_home_page ff_search_box ie_browsed_page qsb_win_box : AccessPoint
  webapps_calendar webapps_docs webapps_gmail ietb_linkdoctor fftb_linkdoctor ietb7_search_box :
      AccessPoint
  tb8_search_box chrome_frame partner_ap_1 partner_ap_2 partner_ap_3 partner_ap_4 partner_ap_5 :
      AccessPoint
  undefined_ap_h undefined_ap_i undefined_ap_j undefined_ap_k undefined_ap_l undefined_ap_m :
      AccessPoint
  undefined_ap_n undefined_ap_o undefined_ap_p undefined_ap_q undefined_ap_r undefined_ap_s :
      AccessPoint
  undefined_ap_t undefined_ap_u undefined_ap_v undefined_ap_w undefined_ap_x undefined_ap_y :
      AccessPoint
  undefined_ap_z pack_ap0 pack_ap1 pack_ap2 pack_ap3 pack_ap4 pack_ap5 pack_ap6 pack_ap7 :
      AccessPoint
  pack_ap8 pack_ap9 pack_ap10 pack_ap11 pack_ap12 pack_ap13 last_access_point : AccessPoint

pub data Product : Type 0 where
  ie_toolbar toolbar_notifier pack desktop chrome ff_toolbar qsb_win webapps pinyin_ime partner :
      Product

pub data Event : Type 0 where
  invalid_event install set_to_google first_search report_rls activate last_event : Event
