-- ===== src/Mac/Scan.antt =====
-- mac80211.c, scans: the request for one, the scan that the driver does by itself and the scan in
-- software, channel by channel.
pub mod Ends
pub mod Trigger
pub mod Views
use lcompat.Base.{
  ℕ, zero, suc, ◌+◌, ◌-◌, ◌^◌, Bool, true, false, not, ◌&&◌, ◌||◌, Option, none, some, List, [],
  ◌∷◌, ◌++◌, ltb, ◌==◌, if◌then◌else◌, length, take, Errno, einval, enomem, ebusy, eopnotsupp,
  eoverflow,
}
use lcompat.Mac.Runtime.{Runtime, Hw, Band, Channel, ScanRequest, notify, scan_begin, scan_complete}
use lcompat.Mac.Connect.{channels_of, set_channel}
use lcompat.Mac.Probe.{send_probe_req}

-- What `ops->hw_scan` returns: 0, a failure, or 1 for a scan in software.
pub data HwScan : Type 0 where
  running software : HwScan
  refused : Errno → HwScan

-- The answers during a scan: those to one channel by its place in the request, and memory for a frame by
-- the places of the channel and the name. `max_ssids` is NETDEV_MAX_SCAN_SSIDS of the host.
pub record ScanHost : Type 0 where
  pub memory : Bool
  pub max_ssids : ℕ
  pub begin : Option Errno
  pub has_hw_scan : Bool
  pub hw_scan : HwScan
  pub has_sw_scan : Bool
  pub config : ℕ → Option Errno
  pub skb_memory : ℕ → ℕ → Bool

-- `lcompat_ieee80211_configure_scan_filter`
unfoldable pub configure_scan_filter : Runtime → Bool → Runtime
configure_scan_filter rt enable =
    if rt.hw.has_filter then record rt { scan_filter_active = enable } else rt

-- `lcompat_ieee80211_free_scan_req`
abbrev pub free_scan_req : Runtime → Runtime
free_scan_req rt = record rt { scan_req = none }

-- The channels of all bands.
unfoldable pub all_channels : List (Option Band) → List Channel
all_channels [] = []
all_channels (b ∷ bs) = channels_of b ++ all_channels bs

-- The first loop of `lcompat_ieee80211_alloc_scan_req`: the number of channels, none on an overflow.
unfoldable pub count_channels : List (Option Band) → (n : ℕ) → Option ℕ
count_channels [] n = some n
count_channels (b ∷ bs) n =
    let rest = count_channels bs (n + length (channels_of b)) in
    if ltb (2 ^ 31 - 1 - n) (length (channels_of b)) then none else rest

-- Some name is longer than 32 bytes.
unfoldable pub some_long : List (List ℕ) → Bool
some_long [] = false
some_long (s ∷ ss) = ltb 32 (length s) || some_long ss

-- The names to look for: those of the request, at most as many as the host allows, or the empty one.
abbrev pub names_of : (max_ssids : ℕ) → List (List ℕ) → List (List ℕ)
names_of max_ssids [] = [] ∷ []
names_of max_ssids (s ∷ ss) = take max_ssids (s ∷ ss)

abbrev pub alloc_counted :
    Option ℕ → Runtime → (ssids : List (List ℕ)) → (memory : Bool) → Option Errno × Runtime
alloc_counted none rt ssids memory = (some eoverflow, rt)
alloc_counted (some n) rt ssids memory =
    if n == 0
    then (some einval, rt)
    else if not memory
    then (some enomem, rt)
    else if some_long ssids
    then (some einval, rt)
    else (
      none,
      record rt { scan_req = some (record { channels = all_channels rt.hw.bands; ssids = ssids }) },
    )

abbrev pub is_scanning : Option ScanRequest → Bool
is_scanning none = false
is_scanning (some r) = true

-- `lcompat_ieee80211_alloc_scan_req`; no parameters are no names
unfoldable pub alloc_scan_req :
    Runtime → (ssids : List (List ℕ)) → (max_ssids : ℕ) → (memory : Bool) → Option Errno × Runtime
unfolding all_channels count_channels some_long
alloc_scan_req rt ssids max_ssids memory =
    if is_scanning rt.scan_req
    then (some ebusy, rt)
    else alloc_counted (count_channels rt.hw.bands 0) rt (names_of max_ssids ssids) memory

-- Goes on after a call that returned 0.
abbrev pub then_on :
    Option Errno × Runtime → (Runtime → Option Errno × Runtime) → Option Errno × Runtime
then_on (some e, rt) next = (some e, rt)
then_on (none, rt) next = next rt

-- The probe requests on one channel, from the `s`th name on.
unfoldable pub probe_names :
    List (List ℕ) → (s : ℕ) → (memory : ℕ → Bool) → Runtime → Option Errno × Runtime
unfolding send_probe_req
probe_names [] s memory rt = (none, rt)
probe_names (name ∷ names) s memory rt =
    then_on (send_probe_req rt name (memory s)) (probe_names names (s + 1) memory)

abbrev pub tuned : Option Errno × Hw → Runtime → Option Errno × Runtime
tuned (r, hw) rt = (r, record rt { hw = hw })

abbrev pub or_empty_name : List (List ℕ) → List (List ℕ)
or_empty_name [] = [] ∷ []
or_empty_name (name ∷ names) = name ∷ names

-- The loop of `lcompat_ieee80211_run_sw_scan`, from the `ch`th channel on.
unfoldable pub scan_channels :
    List Channel → (ch : ℕ) → (names : List (List ℕ)) → ScanHost → Runtime → Option Errno × Runtime
unfolding probe_names set_channel
scan_channels [] ch names host rt = (none, rt)
scan_channels (c ∷ cs) ch names host rt =
    then_on (tuned (set_channel rt.hw c.center_freq (host.config ch)) rt) (λ rt1.
      then_on (probe_names (or_empty_name names) 0 (host.skb_memory ch) rt1)
        (scan_channels cs (ch + 1) names host))

-- The channel of `from` again.
abbrev pub restore_channel : (from : Hw) → Runtime → Runtime
restore_channel from rt = record rt {
  hw = record (rt.hw) {
    chan = from.chan;
    center_freq1 = from.center_freq1;
    center_freq2 = from.center_freq2;
    width = from.width;
  };
}

abbrev pub restored : (from : Hw) → Option Errno × Runtime → Option Errno × Runtime
restored from (r, rt) = (r, restore_channel from rt)

-- `lcompat_ieee80211_run_sw_scan` for a request
unfoldable pub run_sw_scan : Runtime → ScanRequest → ScanHost → Option Errno × Runtime
unfolding scan_channels
run_sw_scan rt req host =
    if not host.has_sw_scan
    then (some eopnotsupp, rt)
    else restored rt.hw (scan_channels req.channels 0 req.ssids host rt)

-- `ieee80211_scan_completed`, and the end of a scan in software
unfoldable pub scan_completed : Runtime → (aborted : Bool) → Runtime
unfolding configure_scan_filter
scan_completed rt aborted =
    free_scan_req (notify (scan_complete aborted) (configure_scan_filter rt false))

abbrev pub is_error : Option Errno → Bool
is_error none = false
is_error (some e) = true

abbrev pub software_scan : Option ScanRequest → Runtime → ScanHost → Option Errno × Runtime
software_scan none rt host = (some einval, scan_completed rt true)
software_scan (some req) rt host =
    let r = run_sw_scan rt req host in (r.0, scan_completed r.1 (is_error r.0))

abbrev pub scan_started : HwScan → Runtime → ScanHost → Option Errno × Runtime
scan_started running rt host = (none, rt)
scan_started software rt host = software_scan rt.scan_req rt host
scan_started (refused e) rt host = (some e, scan_completed rt true)

abbrev pub scan_begun : Option Errno → Runtime → (portid : ℕ) → ScanHost → Option Errno × Runtime
scan_begun (some e) rt portid host = (some e, free_scan_req (configure_scan_filter rt false))
scan_begun none rt portid host = scan_started host.hw_scan (notify (scan_begin portid) rt) host

-- `lcompat_netdev_trigger_scan`
unfoldable pub trigger_scan :
    Runtime → (ssids : List (List ℕ)) → (portid : ℕ) → ScanHost → Option Errno × Runtime
unfolding alloc_scan_req configure_scan_filter run_sw_scan scan_completed
trigger_scan rt ssids portid host =
    if not rt.started || not host.has_hw_scan
    then (some eopnotsupp, rt)
    else then_on (alloc_scan_req rt ssids host.max_ssids host.memory)
        (λ rt1. scan_begun host.begin (configure_scan_filter rt1 true) portid host)
