-- ===== src/Mac/Station/Runs.antt =====
-- The frames that arrive keep the station's parts in agreement, and so does any sequence of events.
use lcompat.Base.{
  ℕ, ◌≡◌, ◌⊎◌, refl, true, not, ◌||◌, Option, none, some, List, [], arith, ltb, ◌==◌, Bool-cases,
  inl, inr, length, Ret, Errno, einval, eoverflow, enomem, ℤ, pos, negsuc, ◌%◌,
}
use lcompat.Mac.Bytes.{le16}
use lcompat.Mac.FrameControl.{
  is_beacon, is_probe_resp, is_probe_req, is_auth, is_assoc_resp, is_deauth, is_disassoc,
}
use lcompat.Mac.Runtime.{
  Runtime, ScanResult, ConnectParams, ConnState, disconnected, authenticating, associating,
  connected, Host,
}
use lcompat.Mac.Select.{select_bss}
use lcompat.Mac.Transmit.{send_assoc_req, size_add}
use lcompat.Mac.Connect.{connect_complete, add_station, alloc_sta, overflows, sta_rates}
use lcompat.Mac.Station.{
  is_disconnected, is_state, mgmt_matches, selected_or_known, failed_on_error, associate, complete,
  handle_auth_rx, handle_assoc_resp_rx, handle_disconnect_rx, handle_mgmt_rx,
}
use lcompat.Mac.Select.Keeps.{select_bss-KeepsBssid}
use lcompat.Mac.Station.Invariant.{
  IsStation-if, View, view, IsApart, Promises, IsStation, IsStation-same, IsRuntimeApart,
  apart-same, view-send_assoc_req, connect_failed-IsStation, disconnect_local-IsStation,
}

failed_on_error-IsStation :
    (o : Option Errno) (rt : Runtime)
    → IsRuntimeApart rt
    → (o ≡ none → IsStation rt)
    → IsStation (failed_on_error (o, rt))
failed_on_error-IsStation none rt a h = h refl
failed_on_error-IsStation (some e) rt a h = connect_failed-IsStation rt 1 a

associate-IsStation :
    (r : Ret ScanResult × ConnectParams) (rt : Runtime) (host : Host)
    → IsRuntimeApart rt
    → r.1.has_bssid ≡ true
    → IsStation (associate r rt host)
associate-IsStation (r, params) rt host a h =
    let rt1 = record rt { connect_params = params; conn_state = associating } in
    let bss = selected_or_known r rt1 in
    let e = view-send_assoc_req rt1 bss host.skb_memory in
    let (o, rt2) = send_assoc_req rt1 bss host.skb_memory in
    failed_on_error-IsStation o rt2 (apart-same rt1 rt2 e a) (λ z. IsStation-same rt1 rt2 e (a, h))

authenticating-IsApart :
    (c : ConnState) (v : View)
    → is_state authenticating c ≡ true
    → Promises c v
    → IsApart v.sta v.vif v.link × (v.params.has_bssid ≡ true)
authenticating-IsApart disconnected v e p = absurd (ground arith)
authenticating-IsApart authenticating v e p = p
authenticating-IsApart associating v e p = absurd (ground arith)
authenticating-IsApart connected v e p = absurd (ground arith)

associating-IsApart :
    (c : ConnState) (v : View)
    → is_state associating c ≡ true
    → Promises c v
    → IsApart v.sta v.vif v.link × (v.params.has_bssid ≡ true)
associating-IsApart disconnected v e p = absurd (ground arith)
associating-IsApart authenticating v e p = absurd (ground arith)
associating-IsApart associating v e p = p
associating-IsApart connected v e p = absurd (ground arith)

handle_auth-IsStation :
    (rt : Runtime) (frame : List ℕ) (host : Host)
    → IsStation rt
    → IsStation (handle_auth_rx rt frame host).1
unfolding handle_auth_rx
handle_auth-IsStation rt frame host h =
    IsStation-if (ltb (length frame) 30) _ _ (λ e. h)
      (λ e.
        IsStation-if (not (is_state authenticating rt.conn_state) || not (mgmt_matches rt frame)) _
          _ (λ e. h)
          (λ e.
            let (a, has) = authenticating-IsApart rt.conn_state (view rt) (ground (arith, e)) h in
            IsStation-if (not (le16 frame 28 == 0) || not (le16 frame 26 == 2)) _ _
              (λ e. connect_failed-IsStation rt (le16 frame 28) a)
              (λ e.
                associate-IsStation (select_bss host.scan rt.connect_params) rt host a
                  (select_bss-KeepsBssid host.scan rt.connect_params has).0)))

unfoldable pub allocated : Runtime → ScanResult → Runtime
allocated rt bss = record rt {
  sta =
      some (record { addr = rt.connect_params.bssid; supp_rates = sta_rates rt.hw bss; txq = [] });
}

alloc_sta-cases :
    (rt : Runtime) (bss : ScanResult) (host : Host) (m n : ℤ)
    → ((e : Errno) × (alloc_sta rt bss host m n ≡ (some e, rt)))
      ⊎ (alloc_sta rt bss host m n ≡ (none, allocated rt bss))
unfolding alloc_sta allocated
alloc_sta-cases rt bss host (negsuc m) n = inl (einval, refl)
alloc_sta-cases rt bss host (pos m) (negsuc n) = inl (einval, refl)
alloc_sta-cases rt bss host (pos m) (pos n) = elim (Bool-cases rt.connect_params.has_bssid) [
  | inr e ↦ inl (einval, rw e refl)
  | inl e ↦
      elim (Bool-cases
        (overflows (size_add host.sta_size m) || overflows (size_add host.txq_size n))) [
          | inl f ↦ inl (eoverflow, rw (e, f) refl)
          | inr f ↦ elim (Bool-cases host.sta_memory) [
            | inl g ↦ inr (rw (e, f, g) refl)
            | inr g ↦ inl (enomem, rw (e, f, g) refl)
          ]
        ]
]

added-IsStation :
    (o : Option Errno) (rt : Runtime) (bss : ScanResult) (aid : ℕ)
    → IsRuntimeApart rt
    → rt.connect_params.has_bssid ≡ true
    → IsStation (failed_on_error (add_station o (allocated rt bss) bss aid))
unfolding allocated
added-IsStation (some e) rt bss aid a h =
    connect_failed-IsStation (record rt { sta = none }) 1
      (record { no_sta = refl; assoc = a.assoc; bss = a.bss; down = a.down })
added-IsStation none rt bss aid a h = (
  record {
    peer = (_, refl, refl);
    assoc = refl;
    bss_assoc = refl;
    bss = refl;
    same_aid = refl;
    up = refl;
  },
  h,
)

complete-IsStation :
    (r : Ret ScanResult × ConnectParams) (rt : Runtime) (aid : ℕ) (host : Host)
    → IsRuntimeApart rt
    → r.1.has_bssid ≡ true
    → IsStation (complete r rt aid host)
unfolding connect_complete
complete-IsStation (r, params) rt aid host a h =
    let rt1 = record rt { connect_params = params } in
    let bss = selected_or_known r rt1 in
    let apart1 : IsApart none rt.vif rt.link_state = record {
      no_sta = refl;
      assoc = a.assoc;
      bss = a.bss;
      down = a.down;
    } in
    elim (alloc_sta-cases (record rt1 { sta = none }) bss host rt.hw.sta_data_size
      rt.hw.txq_data_size) [
        | inl (e, z) ↦ rw z (connect_failed-IsStation (record rt1 { sta = none }) 1 apart1)
        | inr z ↦ rw z (added-IsStation host.sta_add (record rt1 { sta = none }) bss aid apart1 h)
      ]

handle_assoc-IsStation :
    (rt : Runtime) (frame : List ℕ) (host : Host)
    → IsStation rt
    → IsStation (handle_assoc_resp_rx rt frame host).1
unfolding handle_assoc_resp_rx
handle_assoc-IsStation rt frame host h =
    IsStation-if (ltb (length frame) 30) _ _ (λ e. h)
      (λ e.
        IsStation-if (not (is_state associating rt.conn_state) || not (mgmt_matches rt frame)) _ _
          (λ e. h)
          (λ e.
            let (a, has) = associating-IsApart rt.conn_state (view rt) (ground (arith, e)) h in
            IsStation-if (not (le16 frame 26 == 0)) _ _
              (λ e. connect_failed-IsStation rt (le16 frame 26) a)
              (λ e.
                complete-IsStation (select_bss host.scan rt.connect_params) rt
                  (le16 frame 28 % 16384) host a
                  (select_bss-KeepsBssid host.scan rt.connect_params has).0)))

handle_disconnect-IsStation :
    (rt : Runtime) (frame : List ℕ) → IsStation rt → IsStation (handle_disconnect_rx rt frame).1
unfolding handle_disconnect_rx
handle_disconnect-IsStation rt frame h =
    IsStation-if (ltb (length frame) 26) _ _ (λ e. h)
      (λ e.
        IsStation-if (is_disconnected rt.conn_state || not (mgmt_matches rt frame)) _ _ (λ e. h)
          (λ e. disconnect_local-IsStation rt (le16 frame 24) 0 true))

pub handle_mgmt-IsStation :
    (rt : Runtime) (frame : List ℕ) (host : Host)
    → IsStation rt
    → IsStation (handle_mgmt_rx rt frame host).1
unfolding handle_mgmt_rx
handle_mgmt-IsStation rt frame host h =
    let fc = le16 frame 0 in
    IsStation-if (ltb (length frame) 24) _ _ (λ e. h)
      (λ e.
        IsStation-if (is_beacon fc || is_probe_resp fc || is_probe_req fc) _ _ (λ e. h)
          (λ e.
            IsStation-if (is_auth fc) _ _ (λ e. handle_auth-IsStation rt frame host h)
              (λ e.
                IsStation-if (is_assoc_resp fc) _ _ (λ e. handle_assoc-IsStation rt frame host h)
                  (λ e.
                    IsStation-if (is_deauth fc || is_disassoc fc) _ _
                      (λ e. handle_disconnect-IsStation rt frame h) (λ e. h)))))
