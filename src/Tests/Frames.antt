-- ===== src/Tests/Frames.antt =====
-- Frames: elements, data frames in both directions, A-MSDUs, rates and association requests.
use lcompat.Base.{
  ℕ, ◌≡◌, ◌≤◌, refl, true, false, none, some, List, [], ◌∷◌, ◌++◌, arith, length, ok, replicate,
}
use lcompat.Mac.FrameControl.{data_hdr_len}
use lcompat.Mac.Elements.{find_ie, bss_has_wmm}
use lcompat.Mac.Elements.Parsed.{encode, Element, Parsed, first_body, some_wmm, find_ie-Parsed}
use lcompat.Mac.Rates.{current_band}
use lcompat.Mac.Transmit.{assoc_ies, send_assoc_req}
use lcompat.Mac.Transmit.Lengths.{Announces, assoc_ies-Announces}
use lcompat.Mac.Transmit.Requests.{assoc_frame, after_frame, send_assoc_req-after_frame}
use lcompat.Mac.Data.{rfc1042_header, data_frame, data_to_ethernet}
use lcompat.Mac.Data.Roundtrip.{data_to_ethernet-data_frame}
use lcompat.Mac.Amsdu.Subframes.{Msdu}
use lcompat.Mac.Receive.{rx_irqsafe}
use lcompat.Mac.Receive.Delivery.{downlink, rx_irqsafe-downlink}
use lcompat.Mac.Beacon.{store_scan_result}
use lcompat.Mac.Beacon.Stored.{beacon, stored, store_scan_result-beacon}
use lcompat.Samples.Stations.{
  own_addr, ap_addr, peer_addr, network, device, band, host, waiting_assoc, on_air, fcs,
}

find_ie-Parsed_example :
    (es : List Element) × (tail : List ℕ) × Parsed network.ies es tail
    × ((eid : ℕ) → find_ie network.ies eid ≡ first_body eid es)
    × (bss_has_wmm network.ies ≡ some_wmm es)
find_ie-Parsed_example = find_ie-Parsed network.ies

-- IPv4, three bytes of payload.
data_to_ethernet-data_frame_example :
    data_to_ethernet (data_frame on_air (peer_addr ++ (own_addr ++ (8 ∷ 0 ∷ 1 ∷ 2 ∷ 3 ∷ []))))
    ≡ ok (peer_addr ++ (own_addr ++ (8 ∷ 0 ∷ 1 ∷ 2 ∷ 3 ∷ [])))
data_to_ethernet-data_frame_example =
    data_to_ethernet-data_frame on_air peer_addr own_addr 8 0 (1 ∷ 2 ∷ 3 ∷ []) (omega arith)
      (omega arith) refl refl refl refl

rx_irqsafe-downlink_example :
    rx_irqsafe on_air false
      (downlink true 32 8 0 (1 ∷ 2 ∷ 3 ∷ []) own_addr ap_addr peer_addr ++ fcs)
      (λ n. true)
      host
    ≡ record on_air { rx_queue = (own_addr ++ (peer_addr ++ (8 ∷ 0 ∷ 1 ∷ 2 ∷ 3 ∷ []))) ∷ [] }
rx_irqsafe-downlink_example =
    rx_irqsafe-downlink on_air true 32 8 0 (1 ∷ 2 ∷ 3 ∷ []) peer_addr fcs (λ n. true) host refl refl
      (omega arith) (omega arith) refl refl refl refl

abbrev first_msdu : Msdu
first_msdu = record {
  dst = own_addr;
  src = peer_addr;
  payload = rfc1042_header ++ (8 ∷ 0 ∷ 1 ∷ 2 ∷ 3 ∷ []);
}

abbrev second_msdu : Msdu
second_msdu = record first_msdu { payload = rfc1042_header ++ (134 ∷ 221 ∷ 9 ∷ []) }

-- QoS data with an HT control field, from the access point.
abbrev htc_frame : List ℕ
htc_frame = 136 ∷ 130 ∷ replicate 38 0

htc_fits : data_hdr_len 33416 ≤ length htc_frame
unfolding data_hdr_len
htc_fits = omega arith

assoc_ies-Announces_example :
    Announces
      (assoc_ies (97 ∷ 98 ∷ []) (130 ∷ 4 ∷ []) [] true)
      (97 ∷ 98 ∷ [])
      (130 ∷ 4 ∷ [])
      []
      true
assoc_ies-Announces_example = assoc_ies-Announces (97 ∷ 98 ∷ []) (130 ∷ 4 ∷ []) [] true

device_band : current_band device ≡ some band
unfolding current_band
device_band = refl

send_assoc_req-after_frame_example :
    (supp : List ℕ) × (ext : List ℕ) × (length supp ≤ 8)
    × (length ext ≤ 16)
    × (send_assoc_req waiting_assoc network true
        ≡ (none, after_frame waiting_assoc (assoc_frame waiting_assoc network supp ext)))
send_assoc_req-after_frame_example =
    send_assoc_req-after_frame waiting_assoc network band 16 refl device_band refl refl
      (omega arith) (omega arith)

-- The name "ab" and the channel 1.
abbrev elements : List Element
elements = record { id = 0; body = 97 ∷ 98 ∷ [] } ∷ record { id = 3; body = 1 ∷ [] } ∷ []

elements_fit : (4 ≤ length (encode elements ++ [])) × (length (encode elements ++ []) ≤ 512)
unfolding encode
elements_fit = (omega arith, omega arith)

store_scan_result-beacon_example :
    (store_scan_result 2412 0 512
        (beacon own_addr ap_addr ap_addr 16 (replicate 8 0) 100 1 (encode elements ++ []))
      ≡ some (stored ap_addr 2412 100 1 (encode elements ++ [])))
    × ((eid : ℕ) → find_ie (encode elements ++ []) eid ≡ first_body eid elements)
store_scan_result-beacon_example =
    store_scan_result-beacon 2412 0 512 16 100 1 elements [] own_addr ap_addr ap_addr
      (replicate 8 0) (omega arith) (omega arith) tt elements_fit.0 elements_fit.1 refl refl refl
      refl
