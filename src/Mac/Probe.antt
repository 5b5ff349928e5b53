-- ===== src/Mac/Probe.antt =====
-- mac80211.c, the probe request that a scan sends on every channel.
use lcompat.Base.{
  ℕ, ◌-◌, Bool, not, Option, none, some, List, [], ◌++◌, ltb, ◌==◌, if◌then◌else◌, length, take,
  drop, replicate, map, min, ◌>>=◌, Errno, einval, enomem, eoverflow,
}
use lcompat.Base.Words.{uint_max}
use lcompat.Mac.Runtime.{Runtime, Band}
use lcompat.Mac.Rates.{current_band, rate_of, rates_in}
use lcompat.Mac.Transmit.{
  size_add, size_add_ie, alloc_tx_skb, next_seq_ctrl, send_mgmt, send_numbered, ie_bytes,
}

-- At most 16 rates of the band.
abbrev pub probe_rates : Band → List ℕ
probe_rates band = map rate_of (take 16 (rates_in band.bitrates))

-- The length that `lcompat_ieee80211_send_probe_req` computes before it writes.
unfoldable pub probe_len : (ssid rates : List ℕ) → Option ℕ
unfolding size_add_ie size_add
probe_len ssid rates = do
  with_ssid ← size_add_ie 24 (length ssid)
  with_supp ←
      (if length rates == 0 then some with_ssid else size_add_ie with_ssid (min (length rates) 8))
  if ltb 8 (length rates) then size_add_ie with_supp (length rates - 8) else some with_supp

-- The elements that it writes.
unfoldable pub probe_ies : (ssid rates : List ℕ) → List ℕ
probe_ies ssid rates =
    ie_bytes 0 ssid
    ++ (if length rates == 0
        then []
        else ie_bytes 1 (take 8 rates)
          ++ (if ltb 8 (length rates) then ie_bytes 50 (drop 8 rates) else []))

abbrev pub broadcast_addr : List ℕ
broadcast_addr = replicate 6 255

abbrev pub send_probe_sized :
    Runtime → Option ℕ → (ies : List ℕ) → (memory : Bool) → Option Errno × Runtime
send_probe_sized rt none ies memory = (some eoverflow, rt)
send_probe_sized rt (some frame_len) ies memory =
    if ltb uint_max frame_len
    then (some eoverflow, rt)
    else if not (alloc_tx_skb rt.hw.extra_tx_headroom frame_len memory)
    then (some enomem, rt)
    else if length ies == frame_len - 24
    then send_numbered rt 64 broadcast_addr broadcast_addr ies
    else (some einval, record rt { tx_seq = (next_seq_ctrl rt.tx_seq).1 })

abbrev pub send_probe_on :
    Option Band → Runtime → (ssid : List ℕ) → (memory : Bool) → Option Errno × Runtime
send_probe_on none rt ssid memory = (some einval, rt)
send_probe_on (some band) rt ssid memory =
    send_probe_sized rt (probe_len ssid (probe_rates band)) (probe_ies ssid (probe_rates band))
      memory

-- `lcompat_ieee80211_send_probe_req`; without a channel there is no band
unfoldable pub send_probe_req : Runtime → (ssid : List ℕ) → (memory : Bool) → Option Errno × Runtime
unfolding probe_len probe_ies alloc_tx_skb send_mgmt
send_probe_req rt ssid memory = send_probe_on (current_band rt.hw) rt ssid memory
