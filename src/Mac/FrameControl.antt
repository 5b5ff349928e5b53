-- ===== src/Mac/FrameControl.antt =====
-- include/net/mac80211.h: what the frame control word of a frame says. Types are bits 2 and 3, subtypes
-- bits 4 to 7.
use lcompat.Base.{ℕ, ◌/◌, ◌%◌, ◌+◌, Bool, not, ◌&&◌, ◌||◌, if◌then◌else◌, ◌==◌}
use lcompat.Mac.Bytes.{bit_set}

abbrev pub frame_type : ℕ → ℕ
frame_type fc = fc / 4 % 4

abbrev pub subtype : ℕ → ℕ
subtype fc = fc / 16 % 16

abbrev pub has_tods : ℕ → Bool
has_tods fc = bit_set 8 fc

abbrev pub has_fromds : ℕ → Bool
has_fromds fc = bit_set 9 fc

-- `LCOMPAT_IEEE80211_FCTL_PROTECTED` and `LCOMPAT_IEEE80211_FCTL_ORDER`
abbrev pub is_protected : ℕ → Bool
is_protected fc = bit_set 14 fc

abbrev pub has_order : ℕ → Bool
has_order fc = bit_set 15 fc

abbrev pub is_mgmt : ℕ → Bool
is_mgmt fc = frame_type fc == 0

abbrev pub is_ctl : ℕ → Bool
is_ctl fc = frame_type fc == 1

abbrev pub is_data : ℕ → Bool
is_data fc = frame_type fc == 2

abbrev pub is_any_nullfunc : ℕ → Bool
is_any_nullfunc fc = is_data fc && (subtype fc == 4 || subtype fc == 12)

abbrev pub is_data_qos : ℕ → Bool
is_data_qos fc = is_data fc && bit_set 7 fc

abbrev pub is_data_present : ℕ → Bool
is_data_present fc = is_data fc && not (is_any_nullfunc fc)

abbrev pub is_beacon : ℕ → Bool
is_beacon fc = is_mgmt fc && subtype fc == 8

abbrev pub is_probe_resp : ℕ → Bool
is_probe_resp fc = is_mgmt fc && subtype fc == 5

abbrev pub is_probe_req : ℕ → Bool
is_probe_req fc = is_mgmt fc && subtype fc == 4

abbrev pub is_assoc_resp : ℕ → Bool
is_assoc_resp fc = is_mgmt fc && subtype fc == 1

abbrev pub is_auth : ℕ → Bool
is_auth fc = is_mgmt fc && subtype fc == 11

abbrev pub is_deauth : ℕ → Bool
is_deauth fc = is_mgmt fc && subtype fc == 12

abbrev pub is_disassoc : ℕ → Bool
is_disassoc fc = is_mgmt fc && subtype fc == 10

-- `lcompat_ieee80211_data_hdr_len` of mac80211.c
unfoldable pub data_hdr_len : ℕ → ℕ
data_hdr_len fc =
    24
    + (if has_tods fc && has_fromds fc then 6 else 0)
    + (if is_data_qos fc then 2 + (if has_order fc then 4 else 0) else 0)
