-- ===== src/Mac/Station.antt =====
-- mac80211.c, what moves the connection: the user's requests and the management frames that arrive.
pub mod Invariant
pub mod Runs
pub mod Answers
use lcompat.Base.{
  ℕ, ◌+◌, ◌%◌, Bool, true, false, not, ◌&&◌, ◌||◌, Option, none, some, List, [], ◌∷◌, ltb, ◌==◌,
  if◌then◌else◌, length, take, drop, Ret, ok, err, Errno, enodev, ebusy, enotconn, eopnotsupp,
}
use lcompat.Mac.Bytes.{same_bytes, le16, le16_bytes}
use lcompat.Mac.Elements.{bss_has_wmm}
use lcompat.Mac.FrameControl.{
  is_beacon, is_probe_resp, is_probe_req, is_auth, is_assoc_resp, is_deauth, is_disassoc,
}
use lcompat.Mac.Runtime.{
  Runtime, ScanResult, ConnectParams, ConnState, disconnected, authenticating, associating,
  connected, Host,
}
use lcompat.Mac.Select.{select_bss}
use lcompat.Mac.Transmit.{alloc_tx_skb, send_numbered, send_mgmt, send_auth, send_assoc_req}
use lcompat.Mac.Connect.{set_channel, disconnect_local, connect_failed, connect_complete}

abbrev pub is_disconnected : ConnState → Bool
is_disconnected disconnected = true
is_disconnected authenticating = false
is_disconnected associating = false
is_disconnected connected = false

abbrev pub is_connected : ConnState → Bool
is_connected disconnected = false
is_connected authenticating = false
is_connected associating = false
is_connected connected = true

-- `err_connect` of `lcompat_netdev_connect`: an error ends the attempt.
abbrev pub or_failed : Option Errno × Runtime → Option Errno × Runtime
or_failed (none, rt) = (none, rt)
or_failed (some e, rt) = (some e, connect_failed rt 1)

abbrev pub authenticate : Option Errno → Runtime → (memory : Bool) → Option Errno × Runtime
authenticate (some e) rt memory = or_failed (some e, rt)
authenticate none rt memory =
    or_failed (send_auth (record rt { conn_state = authenticating }) memory)

-- The parameters of the network that was chosen.
abbrev pub settle : ConnectParams → ScanResult → ConnectParams
settle params selected = record params {
  has_bssid = true;
  bssid = if params.has_bssid then params.bssid else selected.bssid;
  frequency = if params.frequency == 0 then selected.frequency else params.frequency;
}

abbrev pub connect_selected :
    Ret ScanResult × ConnectParams → Runtime → Host → Option Errno × Runtime
connect_selected (err e, params) rt host = or_failed (some e, record rt { connect_params = params })
connect_selected (ok selected, params) rt host =
    let tuned = set_channel rt.hw (settle params selected).frequency host.config in
    authenticate tuned.0
      (record rt {
        hw = tuned.1;
        connect_params = settle params selected;
        beacon_interval = selected.beacon_interval;
        capability = selected.capability;
        use_qos = bss_has_wmm selected.ies;
      })
      host.skb_memory

-- `lcompat_netdev_connect`: the error, none for 0
unfoldable pub connect : Runtime → ConnectParams → (portid : ℕ) → Host → Option Errno × Runtime
unfolding select_bss set_channel connect_failed send_auth
connect rt params portid host =
    if not rt.started
    then (some enodev, rt)
    else if params.privacy || not (params.auth_type == 8 || params.auth_type == 0)
    then (some eopnotsupp, rt)
    else if not (is_disconnected rt.conn_state)
    then (some ebusy, rt)
    else connect_selected (select_bss host.scan params)
        (record rt { connect_params = params; connect_request_portid = portid }) host

-- The deauthentication frame, if there is memory for it; its result is ignored.
abbrev pub send_deauth : Runtime → (reason : ℕ) → (memory : Bool) → Runtime
send_deauth rt reason memory =
    if alloc_tx_skb rt.hw.extra_tx_headroom 26 memory
    then (send_numbered rt 192 rt.connect_params.bssid rt.connect_params.bssid
        (le16_bytes reason)).1
    else rt

-- `lcompat_netdev_disconnect`
unfoldable pub disconnect : Runtime → (reason portid : ℕ) → Host → Option Errno × Runtime
unfolding alloc_tx_skb send_mgmt disconnect_local
disconnect rt reason portid host =
    if not rt.started
    then (some enodev, rt)
    else if not (is_connected rt.conn_state)
    then (some enotconn, rt)
    else (
      none,
      disconnect_local (send_deauth rt reason host.skb_memory) (if reason == 0 then 3 else reason)
          portid false,
    )

-- `lcompat_ieee80211_mgmt_matches`
unfoldable pub mgmt_matches : Runtime → List ℕ → Bool
unfolding same_bytes
mgmt_matches rt frame =
    same_bytes (take 6 (drop 4 frame)) rt.vif.addr
    && (not rt.connect_params.has_bssid
        || same_bytes (take 6 (drop 16 frame)) rt.connect_params.bssid)

-- The network that was chosen, or what is known of it where it is not in the scan results any more.
abbrev pub selected_or_known : Ret ScanResult → Runtime → ScanResult
selected_or_known (ok selected) rt = selected
selected_or_known (err e) rt = record {
  valid = true;
  bssid = rt.connect_params.bssid;
  frequency = rt.connect_params.frequency;
  beacon_interval = rt.beacon_interval;
  capability = rt.capability;
  ies = [];
}

abbrev pub failed_on_error : Option Errno × Runtime → Runtime
failed_on_error (none, rt) = rt
failed_on_error (some e, rt) = connect_failed rt 1

abbrev pub associate : Ret ScanResult × ConnectParams → Runtime → Host → Runtime
associate (r, params) rt host =
    let rt' = record rt { connect_params = params; conn_state = associating } in
    failed_on_error (send_assoc_req rt' (selected_or_known r rt') host.skb_memory)

abbrev pub is_state : (want have : ConnState) → Bool
is_state disconnected have = is_disconnected have
is_state authenticating have = elim have [ authenticating ↦ true | _ ↦ false ]
is_state associating have = elim have [ associating ↦ true | _ ↦ false ]
is_state connected have = is_connected have

-- `lcompat_ieee80211_handle_auth_rx`: whether the frame was handled, and the runtime
unfoldable pub handle_auth_rx : Runtime → List ℕ → Host → Bool × Runtime
unfolding mgmt_matches select_bss send_assoc_req connect_failed
handle_auth_rx rt frame host =
    if ltb (length frame) 30
    then (false, rt)
    else if not (is_state authenticating rt.conn_state) || not (mgmt_matches rt frame)
    then (true, rt)
    else if not (le16 frame 28 == 0) || not (le16 frame 26 == 2)
    then (true, connect_failed rt (le16 frame 28))
    else (true, associate (select_bss host.scan rt.connect_params) rt host)

abbrev pub complete : Ret ScanResult × ConnectParams → Runtime → (aid : ℕ) → Host → Runtime
complete (r, params) rt aid host =
    let rt' = record rt { connect_params = params } in
    failed_on_error (connect_complete rt' (selected_or_known r rt') aid host)

-- `lcompat_ieee80211_handle_assoc_resp_rx`
unfoldable pub handle_assoc_resp_rx : Runtime → List ℕ → Host → Bool × Runtime
unfolding mgmt_matches select_bss connect_complete connect_failed
handle_assoc_resp_rx rt frame host =
    if ltb (length frame) 30
    then (false, rt)
    else if not (is_state associating rt.conn_state) || not (mgmt_matches rt frame)
    then (true, rt)
    else if not (le16 frame 26 == 0)
    then (true, connect_failed rt (le16 frame 26))
    else (true, complete (select_bss host.scan rt.connect_params) rt (le16 frame 28 % 16384) host)

-- `lcompat_ieee80211_handle_disconnect_rx`; both kinds of frame have the reason at one place
unfoldable pub handle_disconnect_rx : Runtime → List ℕ → Bool × Runtime
unfolding mgmt_matches disconnect_local
handle_disconnect_rx rt frame =
    if ltb (length frame) 26
    then (false, rt)
    else if is_disconnected rt.conn_state || not (mgmt_matches rt frame)
    then (true, rt)
    else (true, disconnect_local rt (le16 frame 24) 0 true)

-- `lcompat_ieee80211_handle_mgmt_rx`. A beacon is passed on to the host's scan results (Mac.Beacon)
-- and changes nothing here.
unfoldable pub handle_mgmt_rx : Runtime → List ℕ → Host → Bool × Runtime
unfolding handle_auth_rx handle_assoc_resp_rx handle_disconnect_rx
handle_mgmt_rx rt frame host =
    let fc = le16 frame 0 in
    if ltb (length frame) 24
    then (false, rt)
    else if is_beacon fc || is_probe_resp fc || is_probe_req fc
    then (true, rt)
    else if is_auth fc
    then handle_auth_rx rt frame host
    else if is_assoc_resp fc
    then handle_assoc_resp_rx rt frame host
    else if is_deauth fc || is_disassoc fc
    then handle_disconnect_rx rt frame
    else (false, rt)
