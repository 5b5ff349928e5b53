-- ===== src/Mac/Transmit.antt =====
-- mac80211.c, the management frames that the station sends. A buffer for a frame has room for exactly
-- the bytes that are put into it; its headroom is `extra_tx_headroom`.
pub mod Lengths
pub mod Requests
use lcompat.Base.{
  ℕ, zero, suc, ◌+◌, ◌-◌, ◌*◌, ◌%◌, Bool, true, false, not, ◌&&◌, ◌||◌, Option, none, some, List,
  [], ◌∷◌, ◌++◌, ltb, ◌==◌, if◌then◌else◌, length, take, drop, replicate, map, min, ◌>>=◌, Errno,
  einval, enomem, eoverflow, ℤ, pos, negsuc,
}
use lcompat.Base.Words.{uint_max, ulong_max}
use lcompat.Mac.Bytes.{bit_set, le16_bytes}
use lcompat.Mac.Elements.{bss_has_wmm}
use lcompat.Mac.Runtime.{Runtime, Hw, Band, ScanResult}
use lcompat.Mac.Rates.{current_band, bitrates_of, rate_of, rates_in, build_supported_rates_ie}

-- `lcompat_size_add`: none is its result `true`, an overflow.
unfoldable pub size_add : ℕ → ℕ → Option ℕ
size_add a b = if ltb (ulong_max - b) a then none else some (a + b)

-- `lcompat_size_add_ie`
unfoldable pub size_add_ie : (total len : ℕ) → Option ℕ
unfolding size_add
size_add_ie total len =
    if ltb 255 len then none else size_add 2 len >>= λ ie_len. size_add total ie_len

-- `lcompat_ieee80211_alloc_tx_skb`: whether a buffer is given
unfoldable pub alloc_tx_skb : (headroom : ℤ) → (payload_len : ℕ) → (memory : Bool) → Bool
alloc_tx_skb (negsuc n) payload_len memory = false
alloc_tx_skb (pos headroom) payload_len memory =
    if ltb uint_max headroom
      || ltb (ulong_max - payload_len) headroom
      || ltb uint_max (headroom + payload_len)
    then false
    else memory

-- `lcompat_ieee80211_next_seq_ctrl`: the word, and the counter after it
abbrev pub next_seq_ctrl : ℕ → ℕ × ℕ
next_seq_ctrl tx_seq = (tx_seq % 4096 * 16, (tx_seq + 1) % 65536)

-- The first 24 bytes of a frame: `struct ieee80211_hdr_3addr`, its duration 0.
abbrev pub hdr_3addr : (fc : ℕ) → (addr1 addr2 addr3 : List ℕ) → (seq_ctrl : ℕ) → List ℕ
hdr_3addr fc addr1 addr2 addr3 seq_ctrl =
    le16_bytes fc ++ (0 ∷ 0 ∷ (addr1 ++ (addr2 ++ (addr3 ++ le16_bytes seq_ctrl))))

-- `lcompat_ieee80211_send_mgmt`: the error, none for 0, and the frames given to the driver
unfoldable pub send_mgmt : Runtime → List ℕ → Option Errno × Runtime
send_mgmt rt frame =
    if rt.hw.has_tx then (none, record rt { sent = rt.sent ++ (frame ∷ []) }) else (some einval, rt)

-- A management frame whose sequence number is the runtime's next one.
abbrev pub send_numbered : Runtime → (fc : ℕ) → (da bssid body : List ℕ) → Option Errno × Runtime
send_numbered rt fc da bssid body =
    send_mgmt (record rt { tx_seq = (next_seq_ctrl rt.tx_seq).1 })
      (hdr_3addr fc da rt.vif.addr bssid (next_seq_ctrl rt.tx_seq).0 ++ body)

-- `lcompat_ieee80211_send_auth`: open system, transaction 1, status 0
unfoldable pub send_auth : Runtime → (memory : Bool) → Option Errno × Runtime
unfolding alloc_tx_skb send_mgmt
send_auth rt memory =
    if not rt.connect_params.has_bssid
    then (some einval, rt)
    else if not (alloc_tx_skb rt.hw.extra_tx_headroom 30 memory)
    then (some enomem, rt)
    else send_numbered rt 176 rt.connect_params.bssid rt.connect_params.bssid
        (le16_bytes 0 ++ (le16_bytes 1 ++ le16_bytes 0))

-- One element.
abbrev pub ie_bytes : (id : ℕ) → List ℕ → List ℕ
ie_bytes id body = id ∷ length body ∷ body

-- An element that is left out where it is empty.
abbrev pub ie_unless_empty : (id : ℕ) → List ℕ → List ℕ
ie_unless_empty id body = if length body == 0 then [] else ie_bytes id body

abbrev pub size_add_unless_empty : (total len : ℕ) → Option ℕ
size_add_unless_empty total len = if len == 0 then some total else size_add_ie total len

-- The array up to its first 0, as the loops over `supp_rates` and `ext_rates` count it.
unfoldable pub until_zero : List ℕ → List ℕ
until_zero [] = []
until_zero (zero ∷ bs) = []
until_zero (suc b ∷ bs) = suc b ∷ until_zero bs

-- `lcompat_wmm_info_ie`
abbrev pub wmm_info_ie : List ℕ
wmm_info_ie = 221 ∷ 7 ∷ 0 ∷ 80 ∷ 242 ∷ 2 ∷ 0 ∷ 1 ∷ 0 ∷ []

-- The length that `lcompat_ieee80211_send_assoc_req` computes before it writes.
unfoldable pub assoc_len : (ssid supp ext : List ℕ) → (wmm : Bool) → Option ℕ
unfolding size_add_ie size_add
assoc_len ssid supp ext wmm = do
  with_ssid ← size_add_ie 28 (length ssid)
  with_supp ← size_add_unless_empty with_ssid (length supp)
  with_ext ← size_add_unless_empty with_supp (length ext)
  if wmm then size_add with_ext 9 else some with_ext

-- The elements that it writes.
unfoldable pub assoc_ies : (ssid supp ext : List ℕ) → (wmm : Bool) → List ℕ
assoc_ies ssid supp ext wmm =
    ie_bytes 0 ssid
    ++ (ie_unless_empty 1 supp ++ (ie_unless_empty 50 ext ++ (if wmm then wmm_info_ie else [])))

abbrev pub assoc_capability : (privacy : Bool) → (capability : ℕ) → ℕ
assoc_capability privacy capability =
    1 + (if privacy then 16 else 0) + (if bit_set 10 capability then 1024 else 0)

-- The last part of `lcompat_ieee80211_send_assoc_req`, from the allocation on.
abbrev pub send_assoc_frame :
    Runtime → (total_len : ℕ) → (ies : List ℕ) → (memory : Bool) → Option Errno × Runtime
send_assoc_frame rt total_len ies memory =
    if not (alloc_tx_skb rt.hw.extra_tx_headroom total_len memory)
    then (some enomem, rt)
    else if length ies == total_len - 28
    then send_numbered rt 0 rt.connect_params.bssid rt.connect_params.bssid (
        le16_bytes (assoc_capability rt.connect_params.privacy rt.capability)
        ++ (le16_bytes 10 ++ ies))
    else (some einval, record rt { tx_seq = (next_seq_ctrl rt.tx_seq).1 })

abbrev pub send_assoc_sized :
    Runtime → Option ℕ → (ies : List ℕ) → (memory : Bool) → Option Errno × Runtime
send_assoc_sized rt none ies memory = (some eoverflow, rt)
send_assoc_sized rt (some total_len) ies memory =
    if ltb uint_max total_len
    then (some eoverflow, rt)
    else send_assoc_frame rt total_len ies memory

abbrev pub send_assoc_on :
    Option Band → Runtime → ScanResult → (memory : Bool) → Option Errno × Runtime
send_assoc_on none rt bss memory = (some einval, rt)
send_assoc_on (some band) rt bss memory =
    let (supp_rates, ext_rates) = build_supported_rates_ie rt.hw bss 8 16 in
    let supp = until_zero supp_rates in
    let ext = until_zero ext_rates in
    let wmm = bss_has_wmm bss.ies in
    send_assoc_sized rt (assoc_len rt.connect_params.ssid supp ext wmm)
      (assoc_ies rt.connect_params.ssid supp ext wmm) memory

-- `lcompat_ieee80211_send_assoc_req`, for a `bss` that is not NULL
unfoldable pub send_assoc_req : Runtime → ScanResult → (memory : Bool) → Option Errno × Runtime
unfolding send_mgmt until_zero assoc_len assoc_ies alloc_tx_skb
send_assoc_req rt bss memory =
    if not rt.connect_params.has_bssid
    then (some einval, rt)
    else send_assoc_on (current_band rt.hw) rt bss memory
