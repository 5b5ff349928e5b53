-- ===== src/Mac/Data/Roundtrip.antt =====
-- What `lcompat_ieee80211_data_to_ethernet` makes of the frames of `lcompat_ieee80211_build_data_frame`.
use lcompat.Base.{
  ℕ, ◌+◌, ◌*◌, ◌<◌, ◌≡◌, Bool, true, false, List, [], ◌∷◌, ◌++◌, arith, if◌then◌else◌, length, take,
  drop, Ret, ok, err, einval,
}
use lcompat.Mac.Bytes.{same_bytes, six-elim}
use lcompat.Mac.FrameControl.{data_hdr_len}
use lcompat.Mac.Runtime.{Runtime}
use lcompat.Mac.Transmit.{next_seq_ctrl, hdr_3addr}
use lcompat.Mac.Data.{rfc1042_header, is_tunnelled, snap_to_ethertype, data_to_ethernet, data_frame}

-- What the decoder makes of a payload behind the SNAP header.
abbrev pub decoded : (dst src : List ℕ) → (p0 p1 : ℕ) → (payload : List ℕ) → Ret (List ℕ)
decoded dst src p0 p1 payload =
    if is_tunnelled (256 * p0 + p1) then err einval else ok (dst ++ (src ++ (p0 ∷ p1 ∷ payload)))

-- The frame, by its parts.
abbrev pub frame_of : (use_qos : Bool) → (seq_ctrl : ℕ) → (bssid addr eth : List ℕ) → List ℕ
frame_of use_qos seq_ctrl bssid addr eth =
    hdr_3addr (8 + (if use_qos then 128 else 0) + 256) bssid addr (take 6 eth) seq_ctrl
    ++ ((if use_qos then 0 ∷ 0 ∷ [] else [])
        ++ (rfc1042_header ++ (take 2 (drop 12 eth) ++ drop 14 eth)))

abbrev pub Decodes :
    (use_qos : Bool) → (seq_ctrl p0 p1 : ℕ) → (payload bssid addr dest src : List ℕ) → Type 0
Decodes use_qos seq_ctrl p0 p1 payload bssid addr dest src =
    data_to_ethernet (frame_of use_qos seq_ctrl bssid addr (dest ++ (src ++ (p0 ∷ p1 ∷ payload))))
    ≡ decoded dest addr p0 p1 payload

bytes-Decodes :
    (use_qos : Bool) (s p0 p1 : ℕ) (payload : List ℕ)
    → p0 < 256
    → p1 < 256
    → (a0 a1 a2 a3 a4 a5 b0 b1 b2 b3 b4 b5 c0 c1 c2 c3 c4 c5 d0 d1 d2 d3 d4 d5 : ℕ)
    → Decodes use_qos s p0 p1 payload
        (a0 ∷ a1 ∷ a2 ∷ a3 ∷ a4 ∷ a5 ∷ [])
        (b0 ∷ b1 ∷ b2 ∷ b3 ∷ b4 ∷ b5 ∷ [])
        (c0 ∷ c1 ∷ c2 ∷ c3 ∷ c4 ∷ c5 ∷ [])
        (d0 ∷ d1 ∷ d2 ∷ d3 ∷ d4 ∷ d5 ∷ [])
unfolding data_to_ethernet snap_to_ethertype data_hdr_len same_bytes
bytes-Decodes true s p0 p1 payload h0 h1 a0 a1 a2 a3 a4 a5 b0 b1 b2 b3 b4 b5 c0 c1 c2 c3 c4 c5 d0 d1
      d2 d3 d4 d5 =
    ground arith
bytes-Decodes false s p0 p1 payload h0 h1 a0 a1 a2 a3 a4 a5 b0 b1 b2 b3 b4 b5 c0 c1 c2 c3 c4 c5 d0
      d1 d2 d3 d4 d5 =
    ground arith

lists-Decodes :
    (use_qos : Bool) (s p0 p1 : ℕ) (payload bssid addr dest src : List ℕ)
    → p0 < 256
    → p1 < 256
    → length bssid ≡ 6
    → length addr ≡ 6
    → length dest ≡ 6
    → length src ≡ 6
    → Decodes use_qos s p0 p1 payload bssid addr dest src
lists-Decodes q s p0 p1 payload bssid addr dest src h0 h1 lb la ld ls =
    six-elim (λ (xs : List ℕ). Decodes q s p0 p1 payload xs addr dest src)
      (λ a0 a1 a2 a3 a4 a5.
        six-elim
          (λ (bs : List ℕ).
            Decodes q s p0 p1 payload (a0 ∷ a1 ∷ a2 ∷ a3 ∷ a4 ∷ a5 ∷ []) bs dest src)
          (λ b0 b1 b2 b3 b4 b5.
            six-elim
              (λ (cs : List ℕ).
                Decodes q s p0 p1 payload (a0 ∷ a1 ∷ a2 ∷ a3 ∷ a4 ∷ a5 ∷ [])
                  (b0 ∷ b1 ∷ b2 ∷ b3 ∷ b4 ∷ b5 ∷ []) cs src)
              (λ c0 c1 c2 c3 c4 c5.
                six-elim
                  (λ (ds : List ℕ).
                    Decodes q s p0 p1 payload (a0 ∷ a1 ∷ a2 ∷ a3 ∷ a4 ∷ a5 ∷ [])
                      (b0 ∷ b1 ∷ b2 ∷ b3 ∷ b4 ∷ b5 ∷ []) (c0 ∷ c1 ∷ c2 ∷ c3 ∷ c4 ∷ c5 ∷ []) ds)
                  (bytes-Decodes q s p0 p1 payload h0 h1 a0 a1 a2 a3 a4 a5 b0 b1 b2 b3 b4 b5 c0 c1
                    c2 c3 c4 c5)
                  src ls)
              dest ld)
          addr la)
      bssid lb

-- An Ethernet frame that was sent and is decoded again has its destination, protocol and payload, and
-- the address of the sending interface as its source. But a frame of AARP or IPX is refused: it is sent
-- behind the RFC 1042 header, and decoded behind the bridge tunnel header only. Addresses have 6 bytes.
pub data_to_ethernet-data_frame :
    (rt : Runtime) (dest src : List ℕ) (p0 p1 : ℕ) (payload : List ℕ)
    → p0 < 256
    → p1 < 256
    → length rt.vif.bss_conf.bssid ≡ 6
    → length rt.vif.addr ≡ 6
    → length dest ≡ 6
    → length src ≡ 6
    → data_to_ethernet (data_frame rt (dest ++ (src ++ (p0 ∷ p1 ∷ payload)))) ≡ (
        if is_tunnelled (256 * p0 + p1)
        then err einval
        else ok (dest ++ (rt.vif.addr ++ (p0 ∷ p1 ∷ payload))))
unfolding data_frame
data_to_ethernet-data_frame rt dest src p0 p1 payload h0 h1 lb la ld ls =
    lists-Decodes rt.use_qos (next_seq_ctrl rt.tx_seq).0 p0 p1 payload rt.vif.bss_conf.bssid
      rt.vif.addr dest src h0 h1 lb la ld ls
