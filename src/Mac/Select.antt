-- ===== src/Mac/Select.antt =====
-- mac80211.c, the choice of a network among the results of a scan.
pub mod Chosen
pub mod Keeps
use lcompat.Base.{
  ℕ, ◌<◌, Bool, true, false, not, ◌&&◌, ◌||◌, Option, none, some, List, [], ◌∷◌, ltb, ◌==◌,
  if◌then◌else◌, length, take, Ret, ok, err, enoent,
}
use lcompat.Mac.Bytes.{same_bytes, bit_set}
use lcompat.Mac.Elements.{find_ie}
use lcompat.Mac.Runtime.{ScanResult, ConnectParams, zero_addr}

unfoldable pub is_empty : List ℕ → Bool
is_empty [] = true
is_empty (b ∷ bs) = false

-- `lcompat_ieee80211_bss_privacy_matches`
unfoldable pub bss_privacy_matches : ScanResult → ConnectParams → Bool
bss_privacy_matches bss params =
    if bit_set 4 bss.capability then params.privacy else not params.privacy

abbrev pub ssid_is : Option (List ℕ) → List ℕ → Bool
ssid_is none ssid = false
ssid_is (some ie) ssid = same_bytes ie ssid

-- `lcompat_ieee80211_ssid_matches`
unfoldable pub ssid_matches : ScanResult → List ℕ → Bool
ssid_matches result ssid = ssid_is (find_ie result.ies 0) ssid

-- The name to take over from an element, at most the 32 bytes that `params->ssid` has.
abbrev pub ssid_from : Option (List ℕ) → ConnectParams → ConnectParams
ssid_from none params = params
ssid_from (some ie) params = record params { ssid = if ltb 32 (length ie) then take 32 ie else ie }

-- `lcompat_ieee80211_fill_scan_ssid`; an empty element changes nothing
unfoldable pub fill_scan_ssid : ScanResult → ConnectParams → ConnectParams
unfolding is_empty
fill_scan_ssid result params =
    if is_empty params.ssid then ssid_from (find_ie result.ies 0) params else params

-- The conditions of the first loop of `lcompat_ieee80211_select_bss`.
unfoldable pub fits_request : ScanResult → ConnectParams → Bool
unfolding is_empty
fits_request r params =
    r.valid
    && (not params.has_bssid || same_bytes r.bssid params.bssid)
    && (is_empty params.ssid || ssid_matches r params.ssid)
    && bss_privacy_matches r params

-- The conditions of its second loop.
unfoldable pub fits_ssid : ScanResult → ConnectParams → Bool
unfolding is_empty
fits_ssid r params =
    r.valid
    && not (is_empty params.ssid)
    && ssid_matches r params.ssid
    && bss_privacy_matches r params

unfoldable pub first_fit : (ScanResult → Bool) → List ScanResult → Option ScanResult
first_fit fits [] = none
first_fit fits (r ∷ rs) = if fits r then some r else first_fit fits rs

-- What the second loop does with the result that it takes.
abbrev pub take_fallback : Option ScanResult → ConnectParams → Ret ScanResult × ConnectParams
take_fallback none params = (err enoent, params)
take_fallback (some r) params =
    (ok r, if params.has_bssid then params else record params { bssid = r.bssid; has_bssid = true })

abbrev pub take_first :
    Option ScanResult → List ScanResult → ConnectParams → Ret ScanResult × ConnectParams
take_first (some r) results params = (ok r, fill_scan_ssid r params)
take_first none results params =
    take_fallback (first_fit (λ (r : ScanResult). fits_ssid r params) results) params

-- The network of a request without a scan.
abbrev pub requested : ConnectParams → ScanResult
requested params = record {
  valid = true;
  bssid = params.bssid;
  frequency = params.frequency;
  beacon_interval = 0;
  capability = 0;
  ies = [];
}

-- `lcompat_ieee80211_select_bss`, with the parameters that it leaves; the scan state is none where
-- `netdev_get_scan_state` fails.
unfoldable pub select_bss :
    Option (List ScanResult) → ConnectParams → Ret ScanResult × ConnectParams
unfolding first_fit
select_bss none params =
    if params.has_bssid && not (params.frequency == 0)
    then (ok (requested params), params)
    else (err enoent, params)
select_bss (some results) params =
    take_first (first_fit (λ (r : ScanResult). fits_request r params) results) results params
