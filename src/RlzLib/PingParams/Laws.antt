-- ===== src/RlzLib/PingParams/Laws.antt =====
-- The text that GetPingParams of lib/rlz_lib.cc writes.
use rlz.Prelude.{
  ℕ, ◌+◌, ◌≡◌, refl, Bool, true, false, List, [], ◌∷◌, ◌++◌, Option, none, some, Bytes, bytes,
  length, ltb, if◌then◌else◌, arith,
}
use mathlib.Core.List.{append-nil}
use rlz.Enums.{AccessPoint}
use rlz.ValueStore.{RlzValueStore, can, read_access}
use rlz.Platform.{Platform}
use rlz.RlzLib.EventsCgi.Bounds.{joined}
use rlz.RlzLib.PingParams.{
  max_dcc_length, is_no_access_point, rlz_entry, rlz_list, ping_params_string, get_ping_params,
}

module _ {S : Type 0} (store : RlzValueStore S) where
  abbrev onto : Option Bytes → List Bytes → List Bytes
  onto none rest = rest
  onto (some entry) rest = entry ∷ rest

  -- "<name>:<rlz>" for each access point before the first NO_ACCESS_POINT that has a name and whose
  -- RLZ can be read.
  abbrev pub rlz_entries : S → List AccessPoint → List Bytes
  rlz_entries s [] = []
  rlz_entries s (point ∷ points) =
      let rest = rlz_entries s points in
      if is_no_access_point point then [] else onto (rlz_entry store s point) rest

  rlz_list-joined :
      (s : S) (first : Bool) (points : List AccessPoint)
      → rlz_list store s first points ≡ joined first (rlz_entries s points)
  unfolding rlz_list
  rlz_list-joined s first [] = refl
  rlz_list-joined s true (point ∷ points) =
      ground (arith, rlz_list-joined s true points, rlz_list-joined s false points)
  rlz_list-joined s false (point ∷ points) = ground (arith, rlz_list-joined s false points)

module _ {S : Type 0} (store : RlzValueStore S) (platform : Platform S) where
  -- The parameters of a ping that is not sent from Windows.
  abbrev pub params_of : S → List AccessPoint → Bytes
  params_of s points = bytes "rep=2&rlz=" ++ joined true (rlz_entries store s points)

  -- Not on Windows, GetPingParams in a readable store writes "rep=2&rlz=" and the entries of the access
  -- points, separated by commas, and returns true, if they are shorter than the buffer; otherwise it
  -- returns false and leaves the empty string.
  pub get_ping_params-joined :
      (s : S) (points : List AccessPoint) (cgi_size : ℕ)
      → platform.os_win ≡ false
      → can store s read_access ≡ true
      → get_ping_params store platform s (some points) (some cgi_size) ≡ (
          if ltb (length (params_of s points)) cgi_size
          then (true, params_of s points)
          else (false, []))
  unfolding get_ping_params ping_params_string
  get_ping_params-joined s points n not_win readable =
      let e = rlz_list-joined store s true points in
      let t = append-nil (joined true (rlz_entries store s points)) in
      rw (not_win, readable, e, t) (ground arith)

  -- On Windows with a deal code that is read, which stands after the entries.
  pub get_ping_params-dcc :
      (s : S) (points : List AccessPoint) (cgi_size c : ℕ) (dcc : Bytes)
      → platform.os_win ≡ true
      → platform.get_machine_deal_code s (max_dcc_length + 1) ≡ (true, c ∷ dcc)
      → can store s read_access ≡ true
      → get_ping_params store platform s (some points) (some cgi_size) ≡ (
          if ltb (length (params_of s points ++ (bytes "&dcc=" ++ (c ∷ dcc)))) cgi_size
          then (true, params_of s points ++ (bytes "&dcc=" ++ (c ∷ dcc)))
          else (false, []))
  unfolding get_ping_params ping_params_string
  get_ping_params-dcc s points n c dcc win coded readable =
      let e = rlz_list-joined store s true points in rw (win, coded, readable, e) (ground arith)
