-- ===== src/Mac/Connect.antt =====
-- mac80211.c, the station's connection: choosing a network, authenticating, associating, and leaving.
-- Each call is one step: the driver does not call back in the middle of it.
use lcompat.Base.{
  ℕ, Bool, true, false, not, ◌&&◌, ◌||◌, Option, none, some, List, [], ◌∷◌, ◌==◌, if◌then◌else◌,
  Errno, einval, enomem, enoent, eoverflow, ℤ, pos, negsuc,
}
use lcompat.Mac.Runtime.{
  Runtime, Hw, Band, Channel, BssConf, Vif, ScanResult, disconnected, connected, connect_result,
  disconnect_event, notify, Host, clear_connect_params, zero_addr,
}
use lcompat.Mac.Rates.{
  current_band, bitrates_of, all_rates_if, supported_rates_mask, basic_rates_mask,
}
use lcompat.Mac.Transmit.{size_add}

-- The loop of `lcompat_ieee80211_find_channel_by_freq` over one band, then over all.
unfoldable pub find_in : List Channel → (frequency : ℕ) → Option Channel
find_in [] frequency = none
find_in (c ∷ cs) frequency = if c.center_freq == frequency then some c else find_in cs frequency

abbrev pub channels_of : Option Band → List Channel
channels_of none = []
channels_of (some band) = elim band.channels [ none ↦ [] | some cs ↦ cs ]

unfoldable pub find_channel_by_freq : List (Option Band) → (frequency : ℕ) → Option Channel
unfolding find_in
find_channel_by_freq [] frequency = none
find_channel_by_freq (b ∷ bs) frequency =
    let later = find_channel_by_freq bs frequency in
    elim (find_in (channels_of b) frequency) [ none ↦ later | some c ↦ some c ]

abbrev pub same_channel : Option Channel → Channel → Bool
same_channel none c = false
same_channel (some d) c = d.ptr == c.ptr

-- The rest of `lcompat_ieee80211_set_channel`, from the channel that was found.
abbrev pub tune :
    Option Channel → Hw → (frequency : ℕ) → (config : Option Errno) → Option Errno × Hw
tune none hw frequency config = (some enoent, hw)
tune (some c) hw frequency config =
    if same_channel hw.chan c && hw.center_freq1 == frequency then (none, hw) else (
      config,
      record hw { chan = some c; width = 1; center_freq1 = c.center_freq; center_freq2 = 0 },
    )

-- `lcompat_ieee80211_set_channel`, with what `ops->config` returns
unfoldable pub set_channel : Hw → (frequency : ℕ) → (config : Option Errno) → Option Errno × Hw
unfolding find_channel_by_freq
set_channel hw frequency config =
    if frequency == 0
    then (none, hw)
    else tune (find_channel_by_freq hw.bands frequency) hw frequency config

-- Some bit of a mask is set.
unfoldable pub is_nonzero : List Bool → Bool
is_nonzero [] = false
is_nonzero (b ∷ bs) = b || is_nonzero bs

abbrev pub sta_rates : Hw → ScanResult → List Bool
sta_rates hw bss =
    if is_nonzero (supported_rates_mask hw bss)
    then supported_rates_mask hw bss
    else all_rates_if (bitrates_of (current_band hw))

abbrev pub overflows : Option ℕ → Bool
overflows none = true
overflows (some n) = false

-- `lcompat_ieee80211_alloc_sta`: one answer for its allocations, all of which are undone if one fails
unfoldable pub alloc_sta :
    Runtime → ScanResult → Host → (sta_data txq_data : ℤ) → Option Errno × Runtime
unfolding is_nonzero size_add
alloc_sta rt bss host (negsuc n) txq_data = (some einval, rt)
alloc_sta rt bss host (pos m) (negsuc n) = (some einval, rt)
alloc_sta rt bss host (pos m) (pos n) =
    if not rt.connect_params.has_bssid
    then (some einval, rt)
    else if overflows (size_add host.sta_size m) || overflows (size_add host.txq_size n)
    then (some eoverflow, rt)
    else if not host.sta_memory
    then (some enomem, rt)
    else (
      none,
      record rt {
        sta =
            some (record {
              addr = rt.connect_params.bssid;
              supp_rates = sta_rates rt.hw bss;
              txq = [];
            });
      },
    )

abbrev pub no_bss : BssConf
no_bss = record {
  assoc = false;
  aid = 0;
  bssid = zero_addr;
  transmitter_bssid = zero_addr;
  beacon_int = 0;
  basic_rates = [];
}

abbrev pub publish_disconnect :
    (have_wireless : Bool) → (reason portid : ℕ) → (by_ap : Bool) → Runtime → Runtime
publish_disconnect have_wireless reason portid by_ap rt =
    if have_wireless then notify (disconnect_event portid reason by_ap) rt else rt

-- `lcompat_ieee80211_disconnect_local`
unfoldable pub disconnect_local : Runtime → (reason portid : ℕ) → (by_ap : Bool) → Runtime
unfolding clear_connect_params
disconnect_local rt reason portid by_ap = clear_connect_params (
    publish_disconnect rt.connect_params.has_bssid reason portid by_ap (record rt {
      sta = none;
      vif = record (rt.vif) { assoc = false; aid = 0; bss_conf = no_bss };
      conn_state = disconnected;
      link_state = false;
    }))

-- `lcompat_ieee80211_connect_failed`
unfoldable pub connect_failed : Runtime → (status : ℕ) → Runtime
unfolding clear_connect_params
connect_failed rt status = clear_connect_params (
    notify (connect_result rt.connect_request_portid status)
      (record rt { conn_state = disconnected; link_state = false }))

-- The interface of a station that is associated.
abbrev pub joined : Runtime → ScanResult → (aid : ℕ) → Vif
joined rt bss aid = record (rt.vif) {
  assoc = true;
  aid = aid;
  bss_conf = record {
    assoc = true;
    aid = aid;
    bssid = rt.connect_params.bssid;
    transmitter_bssid = rt.connect_params.bssid;
    beacon_int = rt.beacon_interval;
    basic_rates = basic_rates_mask rt.hw bss;
  };
}

-- `lcompat_ieee80211_connect_complete` from `ops->sta_add` on, with what that returns.
abbrev pub add_station : Option Errno → Runtime → ScanResult → (aid : ℕ) → Option Errno × Runtime
add_station (some e) rt bss aid = (some e, record rt { sta = none })
add_station none rt bss aid = (
  none,
  notify (connect_result rt.connect_request_portid 0) (record rt {
    conn_state = connected;
    vif = joined rt bss aid;
    link_state = true;
    connect_request_portid = 0;
  }),
)

abbrev pub complete_with :
    Option Errno × Runtime
    → (sta_add : Option Errno) → ScanResult
    → (aid : ℕ) → Option Errno × Runtime
complete_with (some e, rt) sta_add bss aid = (some e, rt)
complete_with (none, rt) sta_add bss aid = add_station sta_add rt bss aid

-- `lcompat_ieee80211_connect_complete`
unfoldable pub connect_complete : Runtime → ScanResult → (aid : ℕ) → Host → Option Errno × Runtime
unfolding alloc_sta
connect_complete rt bss aid host =
    complete_with
      (alloc_sta (record rt { sta = none }) bss host rt.hw.sta_data_size rt.hw.txq_data_size)
      host.sta_add bss aid
