-- ===== src/Tests/Stations.antt =====
-- A station joins its network: runs, answers and choices.
use lcompat.Base.{
  pos, enodev, ℕ, none, ◌≡◌, ◌⊎◌, refl, true, false, some, List, [], ◌∷◌, ◌++◌, arith, ok, err,
  enoent, sym,
}
use mathlib.Core.Option.{none-ne-some}
use lcompat.Mac.Bytes.{same_bytes}
use lcompat.Mac.Elements.{find_ie, find_ie_loop, bss_has_wmm, has_wmm_loop}
use lcompat.Mac.Rates.{current_band, build_supported_rates_ie}
use lcompat.Mac.Runtime.{ScanResult, ConnectParams, connected}
use lcompat.Mac.Select.{
  is_empty, bss_privacy_matches, ssid_matches, fits_request, fill_scan_ssid, select_bss,
}
use lcompat.Mac.Select.Chosen.{NoneFits, NoneFitsName, Chosen, select_bss-Chosen}
use lcompat.Mac.Station.{mgmt_matches, handle_assoc_resp_rx}
use lcompat.Mac.Station.Invariant.{IsStation}
use lcompat.Mac.Station.Answers.{IsWelcome, IsWilling, handle_assoc_resp-IsWelcome}
use lcompat.Mac.Transmit.{size_add, hdr_3addr}
use lcompat.Mac.Receive.{run}
use lcompat.Mac.Receive.Runs.{run-IsStation}
use lcompat.Mac.Scan.{ScanHost, software, alloc_scan_req, trigger_scan}
use lcompat.Mac.Scan.Trigger.{IsQuiet, IsRunning, Failed, trigger_scan-ends}
use lcompat.Mac.Register.{Answers, register_hw}
use lcompat.Mac.Register.Unwinds.{IsUnwound, register_hw-IsUnwound}
use lcompat.Samples.Stations.{
  device, own_addr, ap_addr, peer_addr, network, request, host, idle, assoc_resp, joining,
  waiting_auth, waiting_assoc,
}

idle-IsStation : IsStation idle
idle-IsStation = (record { no_sta = refl; assoc = refl; bss = refl; down = refl }, refl)

-- The three steps connect the station.
joining_connects : (run idle joining).conn_state ≡ connected
unfolding run fits_request ssid_matches find_ie find_ie_loop bss_privacy_matches fill_scan_ssid
    current_band build_supported_rates_ie bss_has_wmm has_wmm_loop
joining_connects = refl

run-IsStation_example : IsStation (run idle joining)
run-IsStation_example = run-IsStation idle joining idle-IsStation

-- The fourth transaction with the status 0.
abbrev odd_auth : List ℕ
odd_auth = hdr_3addr 176 own_addr ap_addr ap_addr 0 ++ (0 ∷ 0 ∷ 4 ∷ 0 ∷ 0 ∷ 0 ∷ [])

odd_auth_matches : mgmt_matches waiting_auth odd_auth ≡ true
unfolding mgmt_matches same_bytes
odd_auth_matches = refl

assoc_resp_matches : mgmt_matches waiting_assoc assoc_resp ≡ true
unfolding mgmt_matches same_bytes
assoc_resp_matches = refl

host-IsWilling : IsWilling waiting_assoc host 64 8
unfolding size_add
host-IsWilling = record {
  sta_data = refl;
  txq_data = refl;
  sta_fits = λ e. none-ne-some 364 (sym e);
  txq_fits = λ e. none-ne-some 58 (sym e);
  memory = refl;
  added = refl;
}

handle_assoc_resp-IsWelcome_example :
    IsWelcome waiting_assoc (handle_assoc_resp_rx waiting_assoc assoc_resp host).1 5
handle_assoc_resp-IsWelcome_example =
    handle_assoc_resp-IsWelcome waiting_assoc assoc_resp host 64 8 refl refl assoc_resp_matches
      (omega arith) refl host-IsWilling

select_bss-Chosen_example :
    ((r : ScanResult) × ((select_bss (some (network ∷ [])) request).0 ≡ ok r)
      × Chosen (network ∷ []) request r)
    ⊎ ((select_bss (some (network ∷ [])) request ≡ (err enoent, request))
        × NoneFits (network ∷ []) request
        × NoneFitsName (network ∷ []) request)
select_bss-Chosen_example = select_bss-Chosen (network ∷ []) request

abbrev elsewhere : ConnectParams
elsewhere = record request { has_bssid = true; bssid = peer_addr }

network_named : ssid_matches network (97 ∷ 98 ∷ []) ≡ true
unfolding ssid_matches find_ie find_ie_loop same_bytes
network_named = refl

network_open : bss_privacy_matches network elsewhere ≡ true
unfolding bss_privacy_matches
network_open = refl

other_address : same_bytes ap_addr peer_addr ≡ false
unfolding same_bytes
other_address = refl

some_name : is_empty (97 ∷ 98 ∷ []) ≡ false
unfolding is_empty
some_name = refl

-- A driver that leaves the scan to software, and refuses the only frame for want of memory.
abbrev poor_host : ScanHost
poor_host = record {
  memory = true;
  max_ssids = 4;
  begin = none;
  has_hw_scan = true;
  hw_scan = software;
  has_sw_scan = true;
  config = λ ch. none;
  skb_memory = λ ch s. false;
}

idle-IsQuiet : IsQuiet idle.hw idle
idle-IsQuiet = record { same = refl; no_request = refl; no_filter = refl }

trigger_scan-ends_example :
    (IsQuiet idle.hw (trigger_scan idle [] 6 poor_host).1
      × (Failed true
            (alloc_scan_req idle [] poor_host.max_ssids true).0
            poor_host
            (trigger_scan idle [] 6 poor_host).0
          ⊎ (poor_host.hw_scan ≡ software)))
    ⊎ IsRunning idle.hw poor_host (trigger_scan idle [] 6 poor_host)
trigger_scan-ends_example = trigger_scan-ends idle [] 6 poor_host idle-IsQuiet

-- The driver does not start.
abbrev no_start : Answers
no_start = record {
  rt_memory = true;
  vif_size = 400;
  txq_size = 50;
  vif_memory = true;
  netdev = true;
  set_wireless_info = none;
  set_trigger_scan = none;
  set_trigger_connect = none;
  set_trigger_disconnect = none;
  add_interface = none;
  start = some enodev;
}

register_hw-IsUnwound_example : IsUnwound (register_hw device (pos 32) no_start)
register_hw-IsUnwound_example = register_hw-IsUnwound device (pos 32) no_start
