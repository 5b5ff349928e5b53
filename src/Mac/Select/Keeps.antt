-- ===== src/Mac/Select/Keeps.antt =====
-- What `lcompat_ieee80211_select_bss` leaves of the request.
use lcompat.Base.{
  ℕ, ◌≡◌, refl, Bool, true, false, not, ◌&&◌, Option, none, some, List, arith, ◌==◌, if◌then◌else◌,
  Bool-cases, inl, inr,
}
use lcompat.Mac.Elements.{find_ie}
use lcompat.Mac.Runtime.{ScanResult, ConnectParams}
use lcompat.Mac.Select.{
  select_bss, fill_scan_ssid, take_first, take_fallback, first_fit, fits_request, fits_ssid,
  is_empty, ssid_from,
}

-- Choosing a network again keeps the one that was requested.
abbrev pub KeepsBssid : ConnectParams → ConnectParams → Type 0
KeepsBssid params params' =
    params.has_bssid ≡ true → (params'.has_bssid ≡ true) × (params'.bssid ≡ params.bssid)

ssid_from-KeepsBssid :
    (o : Option (List ℕ)) (params : ConnectParams) → KeepsBssid params (ssid_from o params)
ssid_from-KeepsBssid none params h = (h, refl)
ssid_from-KeepsBssid (some ie) params h = (h, refl)

KeepsBssid-if :
    (b : Bool) (params p q : ConnectParams)
    → KeepsBssid params p
    → KeepsBssid params q
    → KeepsBssid params (if b then p else q)
KeepsBssid-if true params p q h k = h
KeepsBssid-if false params p q h k = k

KeepsBssid-refl : (params : ConnectParams) → KeepsBssid params params
KeepsBssid-refl params h = (h, refl)

fill-KeepsBssid :
    (r : ScanResult) (params : ConnectParams) → KeepsBssid params (fill_scan_ssid r params)
unfolding fill_scan_ssid
fill-KeepsBssid r params =
    KeepsBssid-if (is_empty params.ssid) params (ssid_from (find_ie r.ies 0) params) params
      (ssid_from-KeepsBssid (find_ie r.ies 0) params) (KeepsBssid-refl params)

fallback-KeepsBssid :
    (o : Option ScanResult) (params : ConnectParams) → KeepsBssid params (take_fallback o params).1
fallback-KeepsBssid none params h = (h, refl)
fallback-KeepsBssid (some r) params h = ground (arith, h)

take_first-KeepsBssid :
    (o : Option ScanResult) (rs : List ScanResult) (params : ConnectParams)
    → KeepsBssid params (take_first o rs params).1
take_first-KeepsBssid none rs params =
    fallback-KeepsBssid (first_fit (λ (r : ScanResult). fits_ssid r params) rs) params
take_first-KeepsBssid (some r) rs params = fill-KeepsBssid r params

pub select_bss-KeepsBssid :
    (scan : Option (List ScanResult)) (params : ConnectParams)
    → KeepsBssid params (select_bss scan params).1
unfolding select_bss
select_bss-KeepsBssid none params =
    elim (Bool-cases (params.has_bssid && not (params.frequency == 0))) [
      | inl e ↦ rw e (KeepsBssid-refl params)
      | inr e ↦ rw e (KeepsBssid-refl params)
    ]
select_bss-KeepsBssid (some rs) params =
    take_first-KeepsBssid (first_fit (λ (r : ScanResult). fits_request r params) rs) rs params
