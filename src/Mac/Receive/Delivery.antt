-- ===== src/Mac/Receive/Delivery.antt =====
-- A data frame of the network reaches the reader of the network device.
use lcompat.Base.{
  ℕ, ◌+◌, ◌-◌, ◌*◌, ◌<◌, ◌≤◌, ◌≡◌, ◌∙◌, refl, sym, ap, Bool, true, false, List, [], ◌∷◌, ◌++◌,
  arith, leb, if◌then◌else◌, length, take, Ret, ok, err, einval, length-append, take-append, le→ltb,
}
use mathlib.Core.List.{append-nil}
use lcompat.Mac.Bytes.{same_bytes, same_bytes_refl, le16, six-elim}
use lcompat.Mac.FrameControl.{data_hdr_len}
use lcompat.Mac.Runtime.{Runtime, connected, Host}
use lcompat.Mac.Transmit.{hdr_3addr}
use lcompat.Mac.Data.{
  rfc1042_header, is_tunnelled, snap_to_ethertype, addr1, addr2, data_to_ethernet,
}
use lcompat.Mac.Data.Roundtrip.{decoded}
use lcompat.Mac.Amsdu.{is_amsdu}
use lcompat.Mac.Receive.{
  data_bssid, rx_data_matches_bss, receive_data, receive_frame, rx_irqsafe, queue_converted,
}

-- A data frame from an access point, with the sequence word `s`: no protection, no A-MSDU.
abbrev pub downlink : (qos : Bool) → (s p0 p1 : ℕ) → (payload addr bssid src : List ℕ) → List ℕ
downlink qos s p0 p1 payload addr bssid src =
    hdr_3addr (8 + (if qos then 128 else 0) + 512) addr bssid src s
    ++ ((if qos then 0 ∷ 0 ∷ [] else []) ++ (rfc1042_header ++ (p0 ∷ p1 ∷ payload)))

-- What the handlers read in such a frame.
record Reads (frame addr bssid : List ℕ) (eth : Ret (List ℕ)) : Type 0 where
  pub receiver : addr1 frame ≡ addr
  pub sender : addr2 frame ≡ bssid
  pub converts : data_to_ethernet frame ≡ eth
  pub single : is_amsdu frame (data_hdr_len (le16 frame 0)) ≡ false
  pub whole : 24 ≤ length frame

ReadsAs : (qos : Bool) → (s p0 p1 : ℕ) → (payload addr bssid src : List ℕ) → Type 0
ReadsAs qos s p0 p1 payload addr bssid src =
    Reads (downlink qos s p0 p1 payload addr bssid src) addr bssid (decoded addr src p0 p1 payload)

bytes-ReadsAs :
    (qos : Bool) (s p0 p1 : ℕ) (payload : List ℕ)
    → p0 < 256
    → p1 < 256
    → (a0 a1 a2 a3 a4 a5 b0 b1 b2 b3 b4 b5 c0 c1 c2 c3 c4 c5 : ℕ)
    → ReadsAs qos s p0 p1 payload
        (a0 ∷ a1 ∷ a2 ∷ a3 ∷ a4 ∷ a5 ∷ [])
        (b0 ∷ b1 ∷ b2 ∷ b3 ∷ b4 ∷ b5 ∷ [])
        (c0 ∷ c1 ∷ c2 ∷ c3 ∷ c4 ∷ c5 ∷ [])
unfolding ReadsAs data_to_ethernet snap_to_ethertype data_hdr_len same_bytes is_amsdu
bytes-ReadsAs true s p0 p1 payload h0 h1 a0 a1 a2 a3 a4 a5 b0 b1 b2 b3 b4 b5 c0 c1 c2 c3 c4 c5 =
    record {
      receiver = refl;
      sender = refl;
      converts = ground arith;
      single = ground arith;
      whole = omega arith;
    }
bytes-ReadsAs false s p0 p1 payload h0 h1 a0 a1 a2 a3 a4 a5 b0 b1 b2 b3 b4 b5 c0 c1 c2 c3 c4 c5 =
    record {
      receiver = refl;
      sender = refl;
      converts = ground arith;
      single = ground arith;
      whole = omega arith;
    }

lists-ReadsAs :
    (qos : Bool) (s p0 p1 : ℕ) (payload addr bssid src : List ℕ)
    → p0 < 256
    → p1 < 256
    → length addr ≡ 6
    → length bssid ≡ 6
    → length src ≡ 6
    → ReadsAs qos s p0 p1 payload addr bssid src
lists-ReadsAs q s p0 p1 payload addr bssid src h0 h1 la lb ls =
    six-elim (λ (xs : List ℕ). ReadsAs q s p0 p1 payload xs bssid src)
      (λ a0 a1 a2 a3 a4 a5.
        six-elim
          (λ (xs : List ℕ). ReadsAs q s p0 p1 payload (a0 ∷ a1 ∷ a2 ∷ a3 ∷ a4 ∷ a5 ∷ []) xs src)
          (λ b0 b1 b2 b3 b4 b5.
            six-elim
              (λ (xs : List ℕ).
                ReadsAs q s p0 p1 payload (a0 ∷ a1 ∷ a2 ∷ a3 ∷ a4 ∷ a5 ∷ [])
                  (b0 ∷ b1 ∷ b2 ∷ b3 ∷ b4 ∷ b5 ∷ []) xs)
              (bytes-ReadsAs q s p0 p1 payload h0 h1 a0 a1 a2 a3 a4 a5 b0 b1 b2 b3 b4 b5) src ls)
          bssid lb)
      addr la

-- The frame passes the tests and is queued as Ethernet.
matches-downlink :
    (rt : Runtime) (qos : Bool) (s p0 p1 : ℕ) (payload addr bssid src : List ℕ)
    → rt.conn_state ≡ connected
    → rt.connect_params.has_bssid ≡ true
    → rt.vif.addr ≡ addr
    → rt.connect_params.bssid ≡ bssid
    → ReadsAs qos s p0 p1 payload addr bssid src
    → rx_data_matches_bss rt (downlink qos s p0 p1 payload addr bssid src) ≡ true
unfolding ReadsAs rx_data_matches_bss data_bssid
matches-downlink rt true s p0 p1 payload addr bssid src c has ea eb r =
    rw (c, has, r.receiver, r.sender, ea, eb, same_bytes_refl addr, same_bytes_refl bssid) refl
matches-downlink rt false s p0 p1 payload addr bssid src c has ea eb r =
    rw (c, has, r.receiver, r.sender, ea, eb, same_bytes_refl addr, same_bytes_refl bssid) refl

receive-downlink :
    (rt : Runtime) (qos : Bool) (s p0 p1 : ℕ) (payload addr bssid src : List ℕ) (memory : ℕ → Bool)
    (host : Host)
    → rx_data_matches_bss rt (downlink qos s p0 p1 payload addr bssid src) ≡ true
    → ReadsAs qos s p0 p1 payload addr bssid src
    → receive_frame rt (downlink qos s p0 p1 payload addr bssid src) memory host
      ≡ record rt { rx_queue = queue_converted (decoded addr src p0 p1 payload) rt.rx_queue }
unfolding ReadsAs receive_data
receive-downlink rt true s p0 p1 payload addr bssid src memory host m r =
    rw (le→ltb _ _ r.whole, m, r.single, r.converts) refl
receive-downlink rt false s p0 p1 payload addr bssid src memory host m r =
    rw (le→ltb _ _ r.whole, m, r.converts) refl

take-append_all : (xs ys : List ℕ) → take (length (xs ++ ys) - length ys) (xs ++ ys) ≡ xs
take-append_all xs ys =
    let e : length (xs ++ ys) - length ys ≡ length xs = omega (arith, length-append xs ys) in
    rw e (take-append xs ys)

without_bytes : (xs : List ℕ) → length xs ≡ 0 → xs ≡ []
without_bytes [] h = refl
without_bytes (x ∷ xs) h = absurd (omega arith)

-- A driver hands over a frame with the 4 bytes of its checksum, where it says so.
checked :
    (includes_fcs : Bool) (rt : Runtime) (frame fcs : List ℕ) (memory : ℕ → Bool) (host : Host)
    → length fcs ≡ (if includes_fcs then 4 else 0)
    → 24 ≤ length frame
    → (if includes_fcs
        then (if leb (length (frame ++ fcs)) 4
            then rt
            else receive_frame rt (take (length (frame ++ fcs) - 4) (frame ++ fcs)) memory host)
        else receive_frame rt (frame ++ fcs) memory host)
      ≡ receive_frame rt frame memory host
checked true rt frame fcs memory host f w =
    let t : leb (length (frame ++ fcs)) 4 ≡ false = ground (arith, length-append frame fcs) in
    rw (t, sym f, take-append_all frame fcs) refl
checked false rt frame fcs memory host f w = rw (without_bytes fcs f, append-nil frame) refl

-- What the queue becomes.
queue-decoded :
    (b : Bool) (eth : List ℕ) (queue : List (List ℕ))
    → queue_converted (if b then err einval else ok eth) queue
      ≡ (if b then queue else queue ++ (eth ∷ []))
queue-decoded true eth queue = refl
queue-decoded false eth queue = refl

-- A connected station that receives a data frame of its network puts the Ethernet frame behind those
-- that wait to be read: its own address as the destination, the sender's address, protocol and payload;
-- nothing else of the runtime changes. A frame of AARP or IPX behind the RFC 1042 header is dropped. The
-- frame is addressed to the station, it is not protected and no A-MSDU, it may have a QoS field, and the
-- checksum is there if the driver says so. Addresses have 6 bytes.
pub rx_irqsafe-downlink :
    (rt : Runtime) (qos : Bool) (s p0 p1 : ℕ) (payload src fcs : List ℕ) (memory : ℕ → Bool)
    (host : Host)
    → rt.conn_state ≡ connected
    → rt.connect_params.has_bssid ≡ true
    → p0 < 256
    → p1 < 256
    → length rt.vif.addr ≡ 6
    → length rt.connect_params.bssid ≡ 6
    → length src ≡ 6
    → length fcs ≡ (if rt.hw.includes_fcs then 4 else 0)
    → rx_irqsafe rt false
        (downlink qos s p0 p1 payload rt.vif.addr rt.connect_params.bssid src ++ fcs)
        memory
        host
      ≡ record rt {
        rx_queue =
            if is_tunnelled (256 * p0 + p1)
            then rt.rx_queue
            else rt.rx_queue ++ ((rt.vif.addr ++ (src ++ (p0 ∷ p1 ∷ payload))) ∷ []);
      }
rx_irqsafe-downlink rt qos s p0 p1 payload src fcs memory host c has h0 h1 la lb ls f =
    let r =
      lists-ReadsAs qos s p0 p1 payload rt.vif.addr rt.connect_params.bssid src h0 h1 la lb ls in
    unfold rx_irqsafe in
    checked rt.hw.includes_fcs rt
      (downlink qos s p0 p1 payload rt.vif.addr rt.connect_params.bssid src) fcs memory host f
      (unfold ReadsAs in r.whole)
    ∙ receive-downlink rt qos s p0 p1 payload rt.vif.addr rt.connect_params.bssid src memory host
        (matches-downlink rt qos s p0 p1 payload rt.vif.addr rt.connect_params.bssid src c has refl
          refl r)
        r
    ∙ ap (λ (q : List (List ℕ)). record rt { rx_queue = q })
        (queue-decoded (is_tunnelled (256 * p0 + p1)) (rt.vif.addr ++ (src ++ (p0 ∷ p1 ∷ payload)))
          rt.rx_queue)
