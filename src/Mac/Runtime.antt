-- ===== src/Mac/Runtime.antt =====
-- mac80211.c, the state of one wireless device: `lcompat_ieee80211_runtime_t`, and the parts of the
-- driver's structs that it reads and writes. A runtime is registered: it has its hardware, its interface
-- and its network device. `ops` is present; its optional calls are arguments with their results.
use lcompat.Base.{ℕ, Bool, false, Option, List, [], ◌∷◌, ◌++◌, replicate, ℤ, Errno}

-- `netdev_scan_result_t` of the host kernel, the fields that are used. `ies` has `ie_len` bytes.
pub record ScanResult : Type 0 where
  pub valid : Bool
  pub bssid : List ℕ
  pub frequency : ℕ
  pub beacon_interval : ℕ
  pub capability : ℕ
  pub ies : List ℕ

-- `netdev_connect_params_t` of the host kernel. `ssid` has `ssid_len` bytes.
pub record ConnectParams : Type 0 where
  pub has_bssid : Bool
  pub bssid : List ℕ
  pub ssid : List ℕ
  pub frequency : ℕ
  pub privacy : Bool
  pub auth_type : ℕ

-- Bytes of a cleared address.
abbrev pub zero_addr : List ℕ
zero_addr = replicate 6 0

abbrev pub no_params : ConnectParams
no_params = record {
  has_bssid = false;
  bssid = zero_addr;
  ssid = [];
  frequency = 0;
  privacy = false;
  auth_type = 0;
}

-- `struct ieee80211_channel`, at an address
pub record Channel : Type 0 where
  pub ptr : ℕ
  pub center_freq : ℕ
  pub band : ℕ

-- `struct ieee80211_supported_band`; its `channels` and `bitrates` may be NULL
pub record Band : Type 0 where
  pub channels : Option (List Channel)
  pub bitrates : Option (List ℕ)

-- `struct ieee80211_hw` and its `conf.chandef`
pub record Hw : Type 0 where
  pub bands : List (Option Band)
  pub chan : Option Channel
  pub center_freq1 : ℕ
  pub center_freq2 : ℕ
  pub width : ℕ
  pub extra_tx_headroom : ℤ
  pub sta_data_size : ℤ
  pub txq_data_size : ℤ
  pub has_tx : Bool
  pub wakes_tx_queue : Bool
  pub includes_fcs : Bool
  pub has_filter : Bool

-- `struct ieee80211_bss_conf`. A mask of rates is the list of its bits, the lowest first, and a missing
-- bit is 0.
pub record BssConf : Type 0 where
  pub assoc : Bool
  pub aid : ℕ
  pub bssid : List ℕ
  pub transmitter_bssid : List ℕ
  pub beacon_int : ℕ
  pub basic_rates : List Bool

-- `struct ieee80211_vif`, with `cfg.assoc` and `cfg.aid`
pub record Vif : Type 0 where
  pub addr : List ℕ
  pub assoc : Bool
  pub aid : ℕ
  pub bss_conf : BssConf

-- `struct ieee80211_sta`; the rates are those of the band of the current channel, and `txq` has the
-- frames that wait in its queue for TID 0
pub record Sta : Type 0 where
  pub addr : List ℕ
  pub supp_rates : List Bool
  pub txq : List (List ℕ)

-- `enum lcompat_ieee80211_conn_state`
pub data ConnState : Type 0 where
  disconnected authenticating associating connected : ConnState

-- What the runtime tells the host: `netlink_publish_connect_result`,
-- `netlink_publish_disconnect_event`, `netdev_scan_begin` and `netdev_scan_complete`.
pub data Notice : Type 0 where
  connect_result : (portid status : ℕ) → Notice
  disconnect_event : (portid reason : ℕ) → (by_ap : Bool) → Notice
  scan_begin : (portid : ℕ) → Notice
  scan_complete : (aborted : Bool) → Notice

-- `struct ieee80211_scan_request`: the channels and the names to look for
pub record ScanRequest : Type 0 where
  pub channels : List Channel
  pub ssids : List (List ℕ)

-- `lcompat_ieee80211_runtime_t`. The last three fields are
-- what went out: the frames given to `ops->tx` and the notices, oldest first, and the link state.
pub record Runtime : Type 0 where
  pub hw : Hw
  pub vif : Vif
  pub sta : Option Sta
  pub txq : List (List ℕ)
  pub rx_queue : List (List ℕ)
  pub conn_state : ConnState
  pub connect_params : ConnectParams
  pub connect_request_portid : ℕ
  pub beacon_interval : ℕ
  pub capability : ℕ
  pub tx_seq : ℕ
  pub use_qos : Bool
  pub started : Bool
  pub scan_req : Option ScanRequest
  pub scan_filter_active : Bool
  pub sent : List (List ℕ)
  pub notices : List Notice
  pub link_state : Bool

-- `lcompat_ieee80211_clear_connect_params`
unfoldable pub clear_connect_params : Runtime → Runtime
clear_connect_params rt = record rt {
  connect_params = no_params;
  connect_request_portid = 0;
  beacon_interval = 0;
  capability = 0;
  use_qos = false;
}

abbrev pub notify : Notice → Runtime → Runtime
notify n rt = record rt { notices = rt.notices ++ (n ∷ []) }

-- What the host and the driver answer during a call: the scan state of the network device, whether
-- memory is given, what `ops->config` and `ops->sta_add` return (`none` is 0, also where the driver has
-- no such call), and the sizes of two structs.
pub record Host : Type 0 where
  pub scan : Option (List ScanResult)
  pub skb_memory : Bool
  pub sta_memory : Bool
  pub config : Option Errno
  pub sta_add : Option Errno
  pub sta_size : ℕ
  pub txq_size : ℕ
