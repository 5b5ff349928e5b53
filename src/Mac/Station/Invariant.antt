-- ===== src/Mac/Station/Invariant.antt =====
-- The connection state, the station, the interface and the link agree after every step.
use lcompat.Base.{
  ℕ, ◌≡◌, refl, sym, subst, Bool, true, false, not, ◌||◌, Option, none, some, List, arith, ltb,
  ◌==◌, if◌then◌else◌, Bool-cases, inl, inr, length, Ret, ok, err, Errno, ◌-◌,
}
use lcompat.Base.Words.{uint_max}
use lcompat.Mac.Runtime.{
  Runtime, ScanResult, ConnectParams, Vif, Sta, Band, ConnState, disconnected, authenticating,
  associating, connected, Host, clear_connect_params, no_params,
}
use lcompat.Mac.Select.{select_bss}
use lcompat.Mac.Elements.{bss_has_wmm}
use lcompat.Mac.Rates.{current_band, build_supported_rates_ie}
use lcompat.Mac.Transmit.{
  alloc_tx_skb, send_mgmt, send_auth, send_assoc_req, send_assoc_on, send_assoc_sized,
  send_assoc_frame, assoc_len, assoc_ies, until_zero,
}
use lcompat.Mac.Connect.{set_channel, no_bss, disconnect_local, connect_failed}
use lcompat.Mac.Station.{
  is_disconnected, is_connected, or_failed, authenticate, settle, connect_selected, connect,
  send_deauth, disconnect,
}

-- The part of a runtime that says whether the station is connected, and to whom.
pub record View : Type 0 where
  pub state : ConnState
  pub sta : Option Sta
  pub vif : Vif
  pub params : ConnectParams
  pub link : Bool

abbrev pub view : Runtime → View
view rt = record {
  state = rt.conn_state;
  sta = rt.sta;
  vif = rt.vif;
  params = rt.connect_params;
  link = rt.link_state;
}

-- No station, no association, no network, no link.
pub record IsApart (sta : Option Sta) (vif : Vif) (link : Bool) : Type 0 where
  pub no_sta : sta ≡ none
  pub assoc : vif.assoc ≡ false
  pub bss : vif.bss_conf ≡ no_bss
  pub down : link ≡ false

-- The station is there, and it and the interface have the address of the network of the request.
pub record IsJoined (sta : Option Sta) (vif : Vif) (params : ConnectParams) (link : Bool)
    : Type 0 where
  pub peer : (s : Sta) × (sta ≡ some s) × (s.addr ≡ params.bssid)
  pub assoc : vif.assoc ≡ true
  pub bss_assoc : vif.bss_conf.assoc ≡ true
  pub bss : vif.bss_conf.bssid ≡ params.bssid
  pub same_aid : vif.bss_conf.aid ≡ vif.aid
  pub up : link ≡ true

-- What each state promises. A request has a network from authentication on.
abbrev pub Promises : ConnState → View → Type 0
Promises disconnected v = IsApart v.sta v.vif v.link × (v.params ≡ no_params)
Promises authenticating v = IsApart v.sta v.vif v.link × (v.params.has_bssid ≡ true)
Promises associating v = IsApart v.sta v.vif v.link × (v.params.has_bssid ≡ true)
Promises connected v = IsJoined v.sta v.vif v.params v.link × (v.params.has_bssid ≡ true)

abbrev pub ViewOk : View → Type 0
ViewOk v = Promises v.state v

abbrev pub IsStation : Runtime → Type 0
IsStation rt = ViewOk (view rt)

pub IsStation-same : (rt rt' : Runtime) → view rt' ≡ view rt → IsStation rt → IsStation rt'
IsStation-same rt rt' e h = subst ViewOk (sym e) h

abbrev pub IsRuntimeApart : Runtime → Type 0
IsRuntimeApart rt = IsApart rt.sta rt.vif rt.link_state

pub apart-same : (rt rt' : Runtime) → view rt' ≡ view rt → IsRuntimeApart rt → IsRuntimeApart rt'
apart-same rt rt' e h = subst (λ (v : View). IsApart v.sta v.vif v.link) (sym e) h

pub view-if :
    {X : Type 0}
    → (b : Bool) (p q : X × Runtime) (v : View) → view p.1 ≡ v
    → view q.1 ≡ v
    → view (if b then p else q).1 ≡ v
view-if true p q v e f = e
view-if false p q v e f = f

-- Sending changes only the sequence number and what was sent.
pub view-send_mgmt : (rt : Runtime) (frame : List ℕ) → view (send_mgmt rt frame).1 ≡ view rt
unfolding send_mgmt
view-send_mgmt rt frame = view-if rt.hw.has_tx _ _ (view rt) refl refl

pub view-send_auth : (rt : Runtime) (memory : Bool) → view (send_auth rt memory).1 ≡ view rt
unfolding send_auth
view-send_auth rt memory = view-if (not rt.connect_params.has_bssid) _ _ (view rt) refl (
    view-if (not (alloc_tx_skb rt.hw.extra_tx_headroom 30 memory)) _ _ (view rt) refl
      (view-send_mgmt _ _))

view-assoc_frame :
    (rt : Runtime) (total_len : ℕ) (ies : List ℕ) (memory : Bool)
    → view (send_assoc_frame rt total_len ies memory).1 ≡ view rt
view-assoc_frame rt total_len ies memory =
    view-if (not (alloc_tx_skb rt.hw.extra_tx_headroom total_len memory)) _ _ (view rt) refl
      (view-if (length ies == total_len - 28) _ _ (view rt) (view-send_mgmt _ _) refl)

view-assoc_sized :
    (rt : Runtime) (total : Option ℕ) (ies : List ℕ) (memory : Bool)
    → view (send_assoc_sized rt total ies memory).1 ≡ view rt
view-assoc_sized rt none ies memory = refl
view-assoc_sized rt (some n) ies memory =
    view-if (ltb uint_max n) _ _ (view rt) refl (view-assoc_frame rt n ies memory)

view-assoc_on :
    (b : Option Band) (rt : Runtime) (bss : ScanResult) (memory : Bool)
    → view (send_assoc_on b rt bss memory).1 ≡ view rt
view-assoc_on none rt bss memory = refl
view-assoc_on (some b) rt bss memory =
    let (supp_rates, ext_rates) = build_supported_rates_ie rt.hw bss 8 16 in
    let supp = until_zero supp_rates in
    let ext = until_zero ext_rates in
    let wmm = bss_has_wmm bss.ies in
    view-assoc_sized rt (assoc_len rt.connect_params.ssid supp ext wmm)
      (assoc_ies rt.connect_params.ssid supp ext wmm) memory

pub view-send_assoc_req :
    (rt : Runtime) (bss : ScanResult) (memory : Bool)
    → view (send_assoc_req rt bss memory).1 ≡ view rt
unfolding send_assoc_req
view-send_assoc_req rt bss memory =
    view-if (not rt.connect_params.has_bssid) _ _ (view rt) refl
      (view-assoc_on (current_band rt.hw) rt bss memory)

pub connect_failed-IsStation :
    (rt : Runtime) (status : ℕ) → IsRuntimeApart rt → IsStation (connect_failed rt status)
unfolding connect_failed clear_connect_params
connect_failed-IsStation rt status a =
    (record { no_sta = a.no_sta; assoc = a.assoc; bss = a.bss; down = refl }, refl)

pub disconnect_local-IsStation :
    (rt : Runtime) (reason portid : ℕ) (by_ap : Bool)
    → IsStation (disconnect_local rt reason portid by_ap)
unfolding disconnect_local clear_connect_params
disconnect_local-IsStation rt reason portid by_ap = elim (Bool-cases rt.connect_params.has_bssid) [
  | inl e ↦ rw e (record { no_sta = refl; assoc = refl; bss = refl; down = refl }, refl)
  | inr e ↦ rw e (record { no_sta = refl; assoc = refl; bss = refl; down = refl }, refl)
]

-- The attempt ends in an error, or goes on.
or_failed-IsStation :
    (o : Option Errno) (rt : Runtime)
    → IsRuntimeApart rt
    → IsStation rt
    → IsStation (or_failed (o, rt)).1
or_failed-IsStation none rt a h = h
or_failed-IsStation (some e) rt a h = connect_failed-IsStation rt 1 a

authenticate-IsStation :
    (o : Option Errno) (rt : Runtime) (memory : Bool)
    → IsRuntimeApart rt
    → rt.connect_params.has_bssid ≡ true
    → IsStation (authenticate o rt memory).1
authenticate-IsStation (some e) rt memory a h = connect_failed-IsStation rt 1 a
authenticate-IsStation none rt memory a h =
    let trying = record rt { conn_state = authenticating } in
    let e : view (send_auth trying memory).1 ≡ view trying = view-send_auth trying memory in
    or_failed-IsStation (send_auth trying memory).0 (send_auth trying memory).1
      (apart-same trying (send_auth trying memory).1 e a)
      (IsStation-same trying (send_auth trying memory).1 e (a, h))

connect_selected-IsStation :
    (r : Ret ScanResult × ConnectParams) (rt : Runtime) (host : Host)
    → IsRuntimeApart rt
    → IsStation (connect_selected r rt host).1
connect_selected-IsStation (err e, params) rt host a = connect_failed-IsStation _ 1 a
connect_selected-IsStation (ok b, params) rt host a =
    authenticate-IsStation (set_channel rt.hw (settle params b).frequency host.config).0 _
      host.skb_memory a refl

Promises-IsApart :
    (c : ConnState) (v : View)
    → is_disconnected c ≡ true
    → Promises c v
    → IsApart v.sta v.vif v.link
Promises-IsApart disconnected v d h = h.0
Promises-IsApart authenticating v d h = absurd (ground arith)
Promises-IsApart associating v d h = absurd (ground arith)
Promises-IsApart connected v d h = absurd (ground arith)

pub apart-disconnected :
    (rt : Runtime) → is_disconnected rt.conn_state ≡ true → IsStation rt → IsRuntimeApart rt
apart-disconnected rt d h = Promises-IsApart rt.conn_state (view rt) d h

pub IsStation-if :
    {X : Type 0}
    → (b : Bool) (p q : X × Runtime) → (b ≡ true → IsStation p.1)
    → (b ≡ false → IsStation q.1)
    → IsStation (if b then p else q).1
IsStation-if true p q h k = h refl
IsStation-if false p q h k = k refl

pub connect-IsStation :
    (rt : Runtime) (params : ConnectParams) (portid : ℕ) (host : Host)
    → IsStation rt
    → IsStation (connect rt params portid host).1
unfolding connect
connect-IsStation rt params portid host h =
    IsStation-if (not rt.started) _ _ (λ e. h)
      (λ e.
        IsStation-if (params.privacy || not (params.auth_type == 8 || params.auth_type == 0)) _ _
          (λ e. h)
          (λ e.
            IsStation-if (not (is_disconnected rt.conn_state)) _ _ (λ e. h)
              (λ e.
                connect_selected-IsStation (select_bss host.scan params) _ host
                  (apart-disconnected rt (ground (arith, e)) h))))

pub disconnect-IsStation :
    (rt : Runtime) (reason portid : ℕ) (host : Host)
    → IsStation rt
    → IsStation (disconnect rt reason portid host).1
unfolding disconnect
disconnect-IsStation rt reason portid host h =
    IsStation-if (not rt.started) _ _ (λ e. h)
      (λ e.
        IsStation-if (not (is_connected rt.conn_state)) _ _ (λ e. h)
          (λ e.
            disconnect_local-IsStation (send_deauth rt reason host.skb_memory)
              (if reason == 0 then 3 else reason) portid false))
