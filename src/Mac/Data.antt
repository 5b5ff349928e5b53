-- ===== src/Mac/Data.antt =====
-- mac80211.c, data frames: an Ethernet frame becomes an 802.11 frame with an LLC/SNAP header, and the
-- other way round. A frame is the bytes of a buffer whose bounds are valid.
pub mod Roundtrip
use lcompat.Base.{
  ℕ, zero, suc, ◌+◌, ◌-◌, ◌*◌, ◌/◌, ◌%◌, Bool, true, false, not, ◌&&◌, ◌||◌, Option, none, some,
  List, [], ◌∷◌, ◌++◌, ltb, ◌==◌, if◌then◌else◌, length, take, drop, get_or, ◌>>=◌, Ret, ok, err,
  Errno, einval, enodev, enomem, enotconn, eoverflow, eopnotsupp, eagain, emsgsize,
}
use lcompat.Base.Words.{uint_max}
use lcompat.Mac.Bytes.{same_bytes, bit_set, le16, be16, be16_bytes}
use lcompat.Mac.FrameControl.{has_tods, has_fromds, is_protected, is_data_present, data_hdr_len}
use lcompat.Mac.Runtime.{Runtime, Sta, ConnState, connected, zero_addr}
use lcompat.Mac.Transmit.{size_add, alloc_tx_skb, next_seq_ctrl, hdr_3addr}
use lcompat.Mac.Station.{is_connected}

abbrev pub rfc1042_header : List ℕ
rfc1042_header = 170 ∷ 170 ∷ 3 ∷ 0 ∷ 0 ∷ 0 ∷ []

abbrev pub bridge_tunnel_header : List ℕ
bridge_tunnel_header = 170 ∷ 170 ∷ 3 ∷ 0 ∷ 0 ∷ 248 ∷ []

-- AARP and IPX
abbrev pub is_tunnelled : ℕ → Bool
is_tunnelled ethertype = ethertype == 33011 || ethertype == 33079

-- `lcompat_ieee80211_snap_to_ethertype`: the protocol; the bytes to skip are always 8
unfoldable pub snap_to_ethertype : List ℕ → Option ℕ
unfolding same_bytes
snap_to_ethertype payload =
    if ltb (length payload) 8
    then none
    else if same_bytes (take 6 payload) rfc1042_header && not (is_tunnelled (be16 payload 6))
    then some (be16 payload 6)
    else if same_bytes (take 6 payload) bridge_tunnel_header
    then some (be16 payload 6)
    else none

abbrev pub addr1 : List ℕ → List ℕ
addr1 frame = take 6 (drop 4 frame)

abbrev pub addr2 : List ℕ → List ℕ
addr2 frame = take 6 (drop 10 frame)

abbrev pub addr3 : List ℕ → List ℕ
addr3 frame = take 6 (drop 16 frame)

-- `struct lcompat_ethhdr` and what follows it
abbrev pub eth_frame : (dst src : List ℕ) → (proto : ℕ) → List ℕ → List ℕ
eth_frame dst src proto payload = dst ++ (src ++ (be16_bytes proto ++ payload))

abbrev pub eth_from_snap : (dst src payload : List ℕ) → Option ℕ → Ret (List ℕ)
eth_from_snap dst src payload none = err einval
eth_from_snap dst src payload (some proto) = ok (eth_frame dst src proto (drop 8 payload))

-- `lcompat_ieee80211_data_to_ethernet`: the buffer after success; it is as before on an error
unfoldable pub data_to_ethernet : List ℕ → Ret (List ℕ)
unfolding snap_to_ethertype data_hdr_len
data_to_ethernet frame =
    if ltb (length frame) 32
    then err einval
    else (let fc = le16 frame 0 in
        if is_protected fc
        then err eopnotsupp
        else if not (is_data_present fc) || (has_tods fc && has_fromds fc)
        then err einval
        else if ltb (length frame) (data_hdr_len fc + 8)
        then err einval
        else eth_from_snap (if has_tods fc then addr3 frame else addr1 frame)
            (if has_fromds fc then addr3 frame else addr2 frame) (drop (data_hdr_len fc) frame)
            (snap_to_ethertype (drop (data_hdr_len fc) frame)))

-- The frame that `lcompat_ieee80211_build_data_frame` writes: to the access point, best effort.
unfoldable pub data_frame : Runtime → List ℕ → List ℕ
data_frame rt eth =
    hdr_3addr (8 + (if rt.use_qos then 128 else 0) + 256) rt.vif.bss_conf.bssid rt.vif.addr
      (take 6 eth) (next_seq_ctrl rt.tx_seq).0
    ++ ((if rt.use_qos then 0 ∷ 0 ∷ [] else [])
        ++ (rfc1042_header ++ (take 2 (drop 12 eth) ++ drop 14 eth)))

abbrev pub data_frame_len : (use_qos : Bool) → (payload_len : ℕ) → Option ℕ
data_frame_len use_qos payload_len =
    size_add (24 + (if use_qos then 2 else 0)) 8 >>= λ with_snap. size_add with_snap payload_len

abbrev pub data_frame_sized : Runtime → List ℕ → Option ℕ → (memory : Bool) → Ret (List ℕ) × Runtime
data_frame_sized rt eth none memory = (err eoverflow, rt)
data_frame_sized rt eth (some frame_len) memory =
    if ltb uint_max frame_len || ltb uint_max (length eth - 14)
    then (err eoverflow, rt)
    else if not (alloc_tx_skb rt.hw.extra_tx_headroom frame_len memory)
    then (err enomem, rt)
    else (ok (data_frame rt eth), record rt { tx_seq = (next_seq_ctrl rt.tx_seq).1 })

-- `lcompat_ieee80211_build_data_frame`
unfoldable pub build_data_frame : Runtime → List ℕ → (memory : Bool) → Ret (List ℕ) × Runtime
unfolding size_add alloc_tx_skb data_frame same_bytes
build_data_frame rt eth memory =
    if ltb (length eth) 14
    then (err einval, rt)
    else if not rt.started || not rt.hw.has_tx
    then (err enodev, rt)
    else if not (is_connected rt.conn_state) || same_bytes rt.vif.bss_conf.bssid zero_addr
    then (err enotconn, rt)
    else data_frame_sized rt eth (data_frame_len rt.use_qos (length eth - 14)) memory

-- The driver takes the frame from a queue if it can be woken for that, else it gets it at once.
abbrev pub queue_on : Option Sta → Runtime → List ℕ → Runtime
queue_on none rt frame = record rt { txq = rt.txq ++ (frame ∷ []) }
queue_on (some s) rt frame = record rt { sta = some (record s { txq = s.txq ++ (frame ∷ []) }) }

abbrev pub hand_over : Runtime → List ℕ → Runtime
hand_over rt frame =
    if rt.hw.wakes_tx_queue
    then queue_on rt.sta rt frame
    else record rt { sent = rt.sent ++ (frame ∷ []) }

abbrev pub send_built : Ret (List ℕ) × Runtime → Option Errno × Runtime
send_built (err e, rt) = (some e, rt)
send_built (ok frame, rt) = (none, hand_over rt frame)

-- `lcompat_netdev_send`
unfoldable pub netdev_send : Runtime → List ℕ → (memory : Bool) → Option Errno × Runtime
unfolding build_data_frame
netdev_send rt eth memory = send_built (build_data_frame rt eth memory)

-- `lcompat_netdev_recv`: the bytes given to the reader, and the queue. A frame that is longer than the
-- reader's buffer is dropped.
unfoldable pub netdev_recv : List (List ℕ) → (len : ℕ) → Ret (List ℕ) × List (List ℕ)
netdev_recv [] len = (err eagain, [])
netdev_recv (frame ∷ queue) len =
    if ltb len (length frame) then (err emsgsize, queue) else (ok frame, queue)
