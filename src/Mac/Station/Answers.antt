-- ===== src/Mac/Station/Answers.antt =====
-- What the answers of an access point lead to.
use lcompat.Base.{
  ℕ, ◌%◌, ◌≤◌, ◌≡◌, ◌≢◌, ◌∙◌, sym, refl, Ret, Errno, Bool, true, false, not, ◌||◌, Option, none,
  some, List, [], ◌∷◌, ◌++◌, arith, ltb, ◌==◌, if◌then◌else◌, length, ℤ, pos, le→ltb,
}
use lcompat.Mac.Bytes.{le16}
use lcompat.Mac.Runtime.{
  Runtime, Sta, ScanResult, ConnectParams, disconnected, authenticating, associating, connected,
  Host, connect_result, clear_connect_params,
}
use lcompat.Mac.Transmit.{size_add}
use lcompat.Mac.Connect.{overflows, add_station, alloc_sta, connect_failed, connect_complete}
use lcompat.Mac.Select.{select_bss}
use mathlib.Core.Option.{none-ne-some}
use lcompat.Mac.Select.Keeps.{select_bss-KeepsBssid}
use lcompat.Mac.Station.Runs.{allocated}
use lcompat.Mac.Station.{
  is_state, selected_or_known, failed_on_error, complete, mgmt_matches, handle_auth_rx,
  handle_assoc_resp_rx,
}

-- An access point that answers an authentication with the status 0 and another transaction than the
-- second ends the attempt, and the user is told the result 0, which is success.
pub handle_auth_reports_success :
    (rt : Runtime) (frame : List ℕ) (host : Host)
    → rt.conn_state ≡ authenticating
    → mgmt_matches rt frame ≡ true
    → 30 ≤ length frame
    → le16 frame 28 ≡ 0
    → le16 frame 26 ≢ 2
    → ((handle_auth_rx rt frame host).1.conn_state ≡ disconnected)
      × ((handle_auth_rx rt frame host).1.notices
          ≡ rt.notices ++ (connect_result rt.connect_request_portid 0 ∷ []))
unfolding handle_auth_rx connect_failed clear_connect_params
handle_auth_reports_success rt frame host c m l s t =
    let t2 : (le16 frame 26 == 2) ≡ false = ground arith in
    (rw (le→ltb _ _ l, c, m, s, t2) refl, rw (le→ltb _ _ l, c, m, s, t2) refl)

-- A runtime after an association, and before.
pub record IsWelcome (rt rt' : Runtime) (aid : ℕ) : Type 0 where
  pub state : rt'.conn_state ≡ connected
  pub number : rt'.vif.aid ≡ aid
  pub peer : (s : Sta) × (rt'.sta ≡ some s) × (s.addr ≡ rt.connect_params.bssid)
  pub network : rt'.vif.bss_conf.bssid ≡ rt.connect_params.bssid
  pub told : rt'.notices ≡ rt.notices ++ (connect_result rt.connect_request_portid 0 ∷ [])
  pub done : rt'.connect_request_portid ≡ 0
  pub up : rt'.link_state ≡ true

-- The host and the driver let a station be made.
pub record IsWilling (rt : Runtime) (host : Host) (m n : ℕ) : Type 0 where
  pub sta_data : rt.hw.sta_data_size ≡ pos m
  pub txq_data : rt.hw.txq_data_size ≡ pos n
  pub sta_fits : size_add host.sta_size m ≢ none
  pub txq_fits : size_add host.txq_size n ≢ none
  pub memory : host.sta_memory ≡ true
  pub added : host.sta_add ≡ none

not-overflows : (o : Option ℕ) → o ≢ none → overflows o ≡ false
not-overflows none h = absurd (h refl)
not-overflows (some n) h = refl

alloc-willing :
    (rt : Runtime) (bss : ScanResult) (host : Host) (m n : ℕ) (a b : ℤ)
    → a ≡ pos m
    → b ≡ pos n
    → size_add host.sta_size m ≢ none
    → size_add host.txq_size n ≢ none
    → host.sta_memory ≡ true
    → rt.connect_params.has_bssid ≡ true
    → alloc_sta rt bss host a b ≡ (none, allocated rt bss)
unfolding alloc_sta allocated
alloc-willing rt bss host m n a b ea eb fm fn mem has =
    rw
      (
        ea,
        eb,
        has,
        not-overflows (size_add host.sta_size m) fm,
        not-overflows (size_add host.txq_size n) fn,
        mem,
      )
      refl

add_station-IsWelcome :
    (o : Option Errno) (rt : Runtime) (bss : ScanResult) (aid : ℕ)
    → o ≡ none
    → IsWelcome rt (failed_on_error (add_station o (allocated rt bss) bss aid)) aid
unfolding allocated
add_station-IsWelcome (some e) rt bss aid z = absurd (none-ne-some e (sym z))
add_station-IsWelcome none rt bss aid z = record {
  state = refl;
  number = refl;
  peer = (_, refl, refl);
  network = refl;
  told = refl;
  done = refl;
  up = refl;
}

complete-IsWelcome :
    (r : Ret ScanResult × ConnectParams) (rt : Runtime) (aid : ℕ) (host : Host) (m n : ℕ)
    → IsWilling rt host m n
    → (r.1.has_bssid ≡ true) × (r.1.bssid ≡ rt.connect_params.bssid)
    → IsWelcome rt (complete r rt aid host) aid
unfolding connect_complete
complete-IsWelcome (r, params) rt aid host m n w (has, same) =
    let rt1 = record rt { connect_params = params } in
    let bss = selected_or_known r rt1 in
    let e =
      alloc-willing (record rt1 { sta = none }) bss host m n rt.hw.sta_data_size rt.hw.txq_data_size
        w.sta_data w.txq_data w.sta_fits w.txq_fits w.memory has in
    let i = add_station-IsWelcome host.sta_add (record rt1 { sta = none }) bss aid w.added in
    rw e (record {
      state = i.state;
      number = i.number;
      peer = (i.peer.0, i.peer.1, i.peer.2 ∙ same);
      network = i.network ∙ same;
      told = i.told;
      done = i.done;
      up = i.up;
    })

IsWelcome-else :
    (b : Bool) (p q : Bool × Runtime) (rt : Runtime) (aid : ℕ)
    → b ≡ false
    → IsWelcome rt q.1 aid
    → IsWelcome rt (if b then p else q).1 aid
IsWelcome-else true p q rt aid e i = absurd (ground arith)
IsWelcome-else false p q rt aid e i = i

-- An association response with the status 0 from the requested network, while the station associates,
-- connects it: the state is CONNECTED, the link is up, the interface has the number that the response
-- gives without its two highest bits, the station and the interface have the address of the requested
-- network, and the user is told the result 0, once. The driver accepts the station, and memory for it is
-- given.
pub handle_assoc_resp-IsWelcome :
    (rt : Runtime) (frame : List ℕ) (host : Host) (m n : ℕ)
    → rt.conn_state ≡ associating
    → rt.connect_params.has_bssid ≡ true
    → mgmt_matches rt frame ≡ true
    → 30 ≤ length frame
    → le16 frame 26 ≡ 0
    → IsWilling rt host m n
    → IsWelcome rt (handle_assoc_resp_rx rt frame host).1 (le16 frame 28 % 16384)
unfolding handle_assoc_resp_rx
handle_assoc_resp-IsWelcome rt frame host m n c has match l s w =
    let i =
      complete-IsWelcome (select_bss host.scan rt.connect_params) rt (le16 frame 28 % 16384) host m
        n w (select_bss-KeepsBssid host.scan rt.connect_params has) in
    IsWelcome-else (ltb (length frame) 30) _ _ rt _ (le→ltb _ _ l) (
      IsWelcome-else (not (is_state associating rt.conn_state) || not (mgmt_matches rt frame)) _ _
        rt _ (rw (c, match) refl)
        (IsWelcome-else (not (le16 frame 26 == 0)) _ _ rt _ (rw s refl) i))
