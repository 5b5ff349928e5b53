-- ===== src/Mac/Receive/Runs.antt =====
-- Any sequence of requests, scans and frames keeps the parts of a runtime in agreement.
use lcompat.Base.{
  ℕ, ◌-◌, ◌≡◌, refl, sym, ap, ◌∙◌, Bool, true, false, not, ◌||◌, Option, none, some, List, [], ◌∷◌,
  ◌++◌, ltb, leb, if◌then◌else◌, length, take, Ret, ok, err,
}
use mathlib.Core.Option.{none-ne-some}
use lcompat.Base.Words.{uint_max}
use lcompat.Mac.Bytes.{same_bytes, le16}
use lcompat.Mac.FrameControl.{is_mgmt, is_ctl, is_data_present}
use lcompat.Mac.Runtime.{
  Runtime, Sta, ConnState, disconnected, authenticating, associating, connected, Host, zero_addr,
}
use lcompat.Mac.Transmit.{alloc_tx_skb}
use lcompat.Mac.Station.{is_connected}
use lcompat.Mac.Station.Invariant.{
  View, view, view-if, Promises, IsStation, IsStation-same, connect-IsStation, disconnect-IsStation,
}
use lcompat.Mac.Station.Runs.{handle_mgmt-IsStation}
use lcompat.Mac.Data.{
  data_frame_len, data_frame_sized, build_data_frame, queue_on, hand_over, send_built, netdev_send,
}
use lcompat.Mac.Receive.{
  rx_data_matches_bss, receive_frame, rx_irqsafe, Event, connecting, disconnecting, sending,
  reading, arriving, scanning, scanned, step, run,
}
use lcompat.Mac.Scan.{trigger_scan, scan_completed}
use lcompat.Mac.Scan.Views.{view-trigger_scan, view-scan_completed}

view-data_frame_sized :
    (rt : Runtime) (eth : List ℕ) (total : Option ℕ) (memory : Bool)
    → view (data_frame_sized rt eth total memory).1 ≡ view rt
view-data_frame_sized rt eth none memory = refl
view-data_frame_sized rt eth (some n) memory =
    view-if (ltb uint_max n || ltb uint_max (length eth - 14)) _ _ (view rt) refl
      (view-if (not (alloc_tx_skb rt.hw.extra_tx_headroom n memory)) _ _ (view rt) refl refl)

view-build :
    (rt : Runtime) (eth : List ℕ) (memory : Bool)
    → view (build_data_frame rt eth memory).1 ≡ view rt
unfolding build_data_frame
view-build rt eth memory = view-if (ltb (length eth) 14) _ _ (view rt) refl (
    view-if (not rt.started || not rt.hw.has_tx) _ _ (view rt) refl (
      view-if (not (is_connected rt.conn_state) || same_bytes rt.vif.bss_conf.bssid zero_addr) _ _
        (view rt) refl
        (view-data_frame_sized rt eth (data_frame_len rt.use_qos (length eth - 14)) memory)))

-- A station whose queue has changed.
requeued :
    (c : ConnState) (v : View) (s s' : Sta)
    → v.sta ≡ some s
    → s'.addr ≡ s.addr
    → Promises c v
    → Promises c (record v { sta = some s' })
requeued disconnected v s s' e q p = absurd (none-ne-some s (sym p.0.no_sta ∙ e))
requeued authenticating v s s' e q p = absurd (none-ne-some s (sym p.0.no_sta ∙ e))
requeued associating v s s' e q p = absurd (none-ne-some s (sym p.0.no_sta ∙ e))
requeued connected v s s' e q (j, has) =
    let (s1, e1, a1) = j.peer in
    let same : s ≡ s1 = cc in
    (
      record {
        peer = (s', refl, q ∙ ap (λ (t : Sta). t.addr) same ∙ a1);
        assoc = j.assoc;
        bss_assoc = j.bss_assoc;
        bss = j.bss;
        same_aid = j.same_aid;
        up = j.up;
      },
      has,
    )

queue_on-IsStation :
    (o : Option Sta) (rt : Runtime) (frame : List ℕ)
    → rt.sta ≡ o
    → IsStation rt
    → IsStation (queue_on o rt frame)
queue_on-IsStation none rt frame e h = h
queue_on-IsStation (some s) rt frame e h =
    requeued rt.conn_state (view rt) s (record s { txq = s.txq ++ (frame ∷ []) }) e refl h

IsStation-either :
    (b : Bool) (p q : Runtime) → IsStation p → IsStation q → IsStation (if b then p else q)
IsStation-either true p q h k = h
IsStation-either false p q h k = k

hand_over-IsStation :
    (rt : Runtime) (frame : List ℕ) → IsStation rt → IsStation (hand_over rt frame)
hand_over-IsStation rt frame h =
    IsStation-either rt.hw.wakes_tx_queue _ _ (queue_on-IsStation rt.sta rt frame refl h) h

send_built-IsStation :
    (r : Ret (List ℕ)) (rt : Runtime) → IsStation rt → IsStation (send_built (r, rt)).1
send_built-IsStation (err e) rt h = h
send_built-IsStation (ok frame) rt h = hand_over-IsStation rt frame h

netdev_send-IsStation :
    (rt : Runtime) (eth : List ℕ) (memory : Bool)
    → IsStation rt
    → IsStation (netdev_send rt eth memory).1
unfolding netdev_send
netdev_send-IsStation rt eth memory h =
    let built = build_data_frame rt eth memory in
    send_built-IsStation built.0 built.1 (IsStation-same rt built.1 (view-build rt eth memory) h)

receive_frame-IsStation :
    (rt : Runtime) (frame : List ℕ) (memory : ℕ → Bool) (host : Host)
    → IsStation rt
    → IsStation (receive_frame rt frame memory host)
receive_frame-IsStation rt frame memory host h = IsStation-either (ltb (length frame) 24) _ _ h (
    IsStation-either (is_mgmt (le16 frame 0)) _ _ (handle_mgmt-IsStation rt frame host h) (
      IsStation-either
        (is_ctl (le16 frame 0)
          || not (is_data_present (le16 frame 0))
          || not (rx_data_matches_bss rt frame))
        _ _ h h))

rx_irqsafe-IsStation :
    (rt : Runtime) (is_bad : Bool) (frame : List ℕ) (memory : ℕ → Bool) (host : Host)
    → IsStation rt
    → IsStation (rx_irqsafe rt is_bad frame memory host)
unfolding rx_irqsafe
rx_irqsafe-IsStation rt true frame memory host h = h
rx_irqsafe-IsStation rt false frame memory host h =
    IsStation-either rt.hw.includes_fcs _ _
      (IsStation-either (leb (length frame) 4) _ _ h
        (receive_frame-IsStation rt (take (length frame - 4) frame) memory host h))
      (receive_frame-IsStation rt frame memory host h)

step-IsStation : (rt : Runtime) (e : Event × Host) → IsStation rt → IsStation (step rt e)
unfolding step
step-IsStation rt (connecting params portid, host) h = connect-IsStation rt params portid host h
step-IsStation rt (disconnecting reason portid, host) h =
    disconnect-IsStation rt reason portid host h
step-IsStation rt (sending eth, host) h = netdev_send-IsStation rt eth host.skb_memory h
step-IsStation rt (reading len, host) h = h
step-IsStation rt (scanning ssids portid answers, host) h =
    IsStation-same rt (trigger_scan rt ssids portid answers).1
      (view-trigger_scan rt ssids portid answers) h
step-IsStation rt (scanned aborted, host) h =
    IsStation-same rt (scan_completed rt aborted) (view-scan_completed rt aborted) h
step-IsStation rt (arriving is_bad frame memory, host) h =
    rx_irqsafe-IsStation rt is_bad frame memory host h

-- After any sequence of requests, scans and frames, with any answers of the host and the driver, the
-- parts of a runtime agree if they did before. A station exists, the interface is associated and the link
-- is up in the state CONNECTED only, and then station and interface have the address of the requested
-- network; in every other state there is no station, no association and no network. From authentication
-- on the request names its network, and in the state DISCONNECTED it is cleared.
pub run-IsStation : (rt : Runtime) (es : List (Event × Host)) → IsStation rt → IsStation (run rt es)
unfolding run
run-IsStation rt [] h = h
run-IsStation rt (e ∷ es) h = run-IsStation (step rt e) es (step-IsStation rt e h)
