-- ===== src/Mac/Beacon.antt =====
-- mac80211.c, `lcompat_ieee80211_store_scan_result`: what a beacon or a probe response adds to the host's
-- scan results.
pub mod Stored
use lcompat.Base.{
  ℕ, ◌||◌, true, Option, none, some, List, ltb, ◌==◌, if◌then◌else◌, length, take, drop,
}
use lcompat.Mac.Bytes.{le16}
use lcompat.Mac.FrameControl.{is_beacon, is_probe_resp}
use lcompat.Mac.Runtime.{ScanResult}
use lcompat.Mac.Data.{addr3}

-- The result that is handed to the host, none on an error. The fixed part of `struct ieee80211_mgmt`
-- has 40 bytes, with the padding behind the 12 bytes of a beacon; `frequency` is that of the status of
-- the frame, `center_freq1` that of the device, and `max_ie_len` is NETDEV_MAX_SCAN_IE_LEN of the host.
unfoldable pub store_scan_result :
    (center_freq1 frequency max_ie_len : ℕ) → List ℕ → Option ScanResult
store_scan_result center_freq1 frequency max_ie_len frame =
    if ltb (length frame) 40
    then none
    else if is_beacon (le16 frame 0) || is_probe_resp (le16 frame 0)
    then some (record {
      valid = true;
      bssid = addr3 frame;
      frequency = if frequency == 0 then center_freq1 else frequency;
      beacon_interval = le16 frame 32;
      capability = le16 frame 34;
      ies = take max_ie_len (drop 36 frame);
    })
    else none
