-- ===== src/Mac/Receive.antt =====
-- mac80211.c, the frames that the driver receives: `ieee80211_rx_irqsafe`, and everything that happens
-- to a runtime.
pub mod Delivery
pub mod Runs
use lcompat.Base.{
  ℕ, ◌-◌, ◌%◌, Bool, true, false, not, ◌&&◌, ◌||◌, Option, none, some, List, [], ◌∷◌, ◌++◌, ltb,
  leb, ◌==◌, if◌then◌else◌, length, take, drop, get_or, Ret, ok, err,
}
use lcompat.Mac.Bytes.{same_bytes, le16}
use lcompat.Mac.FrameControl.{has_tods, has_fromds, is_mgmt, is_ctl, is_data_present, data_hdr_len}
use lcompat.Mac.Runtime.{Runtime, ConnectParams, Host}
use lcompat.Mac.Station.{is_connected, handle_mgmt_rx, connect, disconnect}
use lcompat.Mac.Data.{addr1, addr2, addr3, data_to_ethernet, netdev_send, netdev_recv}
use lcompat.Mac.Scan.{ScanHost, trigger_scan, scan_completed}
use lcompat.Mac.Amsdu.{is_amsdu, enqueue_amsdu}

-- `is_multicast_ether_addr`
abbrev pub is_multicast : List ℕ → Bool
is_multicast addr = get_or addr 0 0 % 2 == 1

-- `lcompat_ieee80211_data_bssid`, NULL with both bits
unfoldable pub data_bssid : List ℕ → Option (List ℕ)
data_bssid frame =
    let fc = le16 frame 0 in
    if has_tods fc
    then (if has_fromds fc then none else some (addr1 frame))
    else (if has_fromds fc then some (addr2 frame) else some (addr3 frame))

abbrev pub is_addr : Option (List ℕ) → List ℕ → Bool
is_addr none addr = false
is_addr (some bytes) addr = same_bytes bytes addr

-- `lcompat_ieee80211_rx_data_matches_bss`
unfoldable pub rx_data_matches_bss : Runtime → List ℕ → Bool
unfolding data_bssid same_bytes
rx_data_matches_bss rt frame =
    let fc = le16 frame 0 in
    is_connected rt.conn_state
    && rt.connect_params.has_bssid
    && not (has_tods fc || not (has_fromds fc))
    && is_addr (data_bssid frame) rt.connect_params.bssid
    && (same_bytes (addr1 frame) rt.vif.addr || is_multicast (addr1 frame))

-- A frame that is no A-MSDU, or one that carried nothing: its buffer is queued, or freed.
abbrev pub queue_converted : Ret (List ℕ) → List (List ℕ) → List (List ℕ)
queue_converted (err e) queue = queue
queue_converted (ok eth) queue = queue ++ (eth ∷ [])

-- The queue of received frames after a data frame that matches.
unfoldable pub receive_data :
    (queue : List (List ℕ)) → (frame : List ℕ) → (memory : ℕ → Bool) → List (List ℕ)
unfolding is_amsdu enqueue_amsdu data_to_ethernet data_hdr_len
receive_data queue frame memory =
    let hdr_len = data_hdr_len (le16 frame 0) in
    let many = enqueue_amsdu queue frame hdr_len memory in
    if is_amsdu frame hdr_len
    then (if many.0 then many.1 else queue_converted (data_to_ethernet frame) many.1)
    else queue_converted (data_to_ethernet frame) queue

-- A frame without its checksum.
abbrev pub receive_frame : Runtime → (frame : List ℕ) → (memory : ℕ → Bool) → Host → Runtime
receive_frame rt frame memory host =
    let fc = le16 frame 0 in
    if ltb (length frame) 24
    then rt
    else if is_mgmt fc
    then (handle_mgmt_rx rt frame host).1
    else if is_ctl fc || not (is_data_present fc) || not (rx_data_matches_bss rt frame)
    then rt
    else record rt { rx_queue = receive_data rt.rx_queue frame memory }

-- `ieee80211_rx_irqsafe` on the bytes of a buffer; `is_bad` tells of bounds that are not valid, or a
-- status with a failed checksum or without contents. The buffer is freed if it is not queued.
unfoldable pub rx_irqsafe :
    Runtime → (is_bad : Bool) → (frame : List ℕ) → (memory : ℕ → Bool) → Host → Runtime
unfolding handle_mgmt_rx rx_data_matches_bss receive_data
rx_irqsafe rt is_bad frame memory host =
    if is_bad
    then rt
    else if rt.hw.includes_fcs
    then (if leb (length frame) 4
        then rt
        else receive_frame rt (take (length frame - 4) frame) memory host)
    else receive_frame rt frame memory host

-- What happens to a runtime: requests of the user, frames of the driver.
pub data Event : Type 0 where
  connecting : ConnectParams → (portid : ℕ) → Event
  disconnecting : (reason portid : ℕ) → Event
  sending : (eth : List ℕ) → Event
  reading : (len : ℕ) → Event
  scanning : (ssids : List (List ℕ)) → (portid : ℕ) → ScanHost → Event
  scanned : (aborted : Bool) → Event
  arriving : (is_bad : Bool) → (frame : List ℕ) → (memory : ℕ → Bool) → Event

unfoldable pub step : Runtime → Event × Host → Runtime
unfolding connect disconnect netdev_send netdev_recv rx_irqsafe trigger_scan scan_completed
step rt (connecting params portid, host) = (connect rt params portid host).1
step rt (disconnecting reason portid, host) = (disconnect rt reason portid host).1
step rt (sending eth, host) = (netdev_send rt eth host.skb_memory).1
step rt (reading len, host) = record rt { rx_queue = (netdev_recv rt.rx_queue len).1 }
step rt (scanning ssids portid answers, host) = (trigger_scan rt ssids portid answers).1
step rt (scanned aborted, host) = scan_completed rt aborted
step rt (arriving is_bad frame memory, host) = rx_irqsafe rt is_bad frame memory host

unfoldable pub run : Runtime → List (Event × Host) → Runtime
unfolding step
run rt [] = rt
run rt (e ∷ es) = run (step rt e) es
