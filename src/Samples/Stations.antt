-- ===== src/Samples/Stations.antt =====
-- A station, its network and the frames between them.
use lcompat.Base.{ℕ, true, false, none, some, List, [], ◌∷◌, ◌++◌, pos, replicate}
use lcompat.Mac.Runtime.{
  ScanResult, ConnectParams, Channel, Band, Hw, Runtime, Host, disconnected, authenticating,
  associating, connected, no_params, zero_addr,
}
use lcompat.Mac.Transmit.{hdr_3addr}
use lcompat.Mac.Connect.{no_bss}
use lcompat.Mac.Receive.{Event, connecting, arriving}

abbrev pub own_addr : List ℕ
own_addr = 2 ∷ 0 ∷ 0 ∷ 0 ∷ 0 ∷ 1 ∷ []

abbrev pub ap_addr : List ℕ
ap_addr = 2 ∷ 0 ∷ 0 ∷ 0 ∷ 0 ∷ 9 ∷ []

abbrev pub peer_addr : List ℕ
peer_addr = 2 ∷ 0 ∷ 0 ∷ 0 ∷ 0 ∷ 7 ∷ []

abbrev pub channel : Channel
channel = record { ptr = 5000; center_freq = 2412; band = 0 }

abbrev pub band : Band
band = record { channels = some (channel ∷ []); bitrates = some (10 ∷ 20 ∷ 55 ∷ 110 ∷ []) }

-- The name "ab", the rates 1 (basic), 2 and 11 Mbit/s.
abbrev pub network : ScanResult
network = record {
  valid = true;
  bssid = ap_addr;
  frequency = 2412;
  beacon_interval = 100;
  capability = 1;
  ies = 0 ∷ 2 ∷ 97 ∷ 98 ∷ 1 ∷ 3 ∷ 130 ∷ 4 ∷ 22 ∷ [];
}

abbrev pub request : ConnectParams
request = record {
  has_bssid = false;
  bssid = zero_addr;
  ssid = 97 ∷ 98 ∷ [];
  frequency = 0;
  privacy = false;
  auth_type = 0;
}

abbrev pub device : Hw
device = record {
  bands = some band ∷ [];
  chan = some channel;
  center_freq1 = 2412;
  center_freq2 = 0;
  width = 1;
  extra_tx_headroom = pos 16;
  sta_data_size = pos 64;
  txq_data_size = pos 8;
  has_tx = true;
  wakes_tx_queue = false;
  includes_fcs = true;
  has_filter = true;
}

abbrev pub host : Host
host = record {
  scan = some (network ∷ []);
  skb_memory = true;
  sta_memory = true;
  config = none;
  sta_add = none;
  sta_size = 300;
  txq_size = 50;
}

abbrev pub idle : Runtime
idle = record {
  hw = device;
  vif = record { addr = own_addr; assoc = false; aid = 0; bss_conf = no_bss };
  sta = none;
  txq = [];
  rx_queue = [];
  conn_state = disconnected;
  connect_params = no_params;
  connect_request_portid = 0;
  beacon_interval = 0;
  capability = 0;
  tx_seq = 7;
  use_qos = false;
  started = true;
  scan_req = none;
  scan_filter_active = false;
  sent = [];
  notices = [];
  link_state = false;
}

-- Frames of the access point: authenticated, and associated with the number 5.
abbrev pub auth_frame : List ℕ
auth_frame = hdr_3addr 176 own_addr ap_addr ap_addr 0 ++ (0 ∷ 0 ∷ 2 ∷ 0 ∷ 0 ∷ 0 ∷ [])

abbrev pub assoc_resp : List ℕ
assoc_resp = hdr_3addr 16 own_addr ap_addr ap_addr 16 ++ (1 ∷ 0 ∷ 0 ∷ 0 ∷ 5 ∷ 192 ∷ [])

abbrev pub fcs : List ℕ
fcs = replicate 4 0

abbrev pub joining : List (Event × Host)
joining =
    (connecting request 3, host)
    ∷ (arriving false (auth_frame ++ fcs) (λ n. true), host)
    ∷ (arriving false (assoc_resp ++ fcs) (λ n. true), host)
    ∷ []

-- The state in the middle of the attempt, and at its end.
abbrev pub waiting_auth : Runtime
waiting_auth = record idle {
  conn_state = authenticating;
  connect_params = record request { has_bssid = true; bssid = ap_addr; frequency = 2412 };
  connect_request_portid = 3;
}

abbrev pub waiting_assoc : Runtime
waiting_assoc = record waiting_auth { conn_state = associating }

abbrev pub on_air : Runtime
on_air = record waiting_auth { conn_state = connected }
