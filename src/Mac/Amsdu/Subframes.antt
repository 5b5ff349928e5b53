-- ===== src/Mac/Amsdu/Subframes.antt =====
-- The frames that `lcompat_ieee80211_enqueue_amsdu` queues are those that an A-MSDU carries.
use lcompat.Base.{
  ℕ, suc, ◌+◌, ◌-◌, ◌/◌, ◌%◌, ◌<◌, ◌≡◌, true, List, [], ◌∷◌, ◌++◌, length, get_or, replicate,
}
use lcompat.Mac.Amsdu.Ethernet.{ethernet}
use lcompat.Mac.Amsdu.{build_eth_skb, queued, padded, amsdu_loop}

-- One frame of an A-MSDU: what stands before its length (two addresses), and what its length counts.
pub record Msdu : Type 0 where
  pub dst : List ℕ
  pub src : List ℕ
  pub payload : List ℕ

-- Addresses have 6 bytes, the length is that of some bytes and fits its field, and the two bytes of a type
-- are bytes.
pub record IsMsdu (m : Msdu) : Type 0 where
  pub dst_len : length m.dst ≡ 6
  pub src_len : length m.src ≡ 6
  pub some_payload : 0 < length m.payload
  pub fits : length m.payload < 65536
  pub high : get_or m.payload 6 0 < 256
  pub low : get_or m.payload 7 0 < 256

abbrev pub AreMsdus : List Msdu → Type 0
AreMsdus [] = Unit {0}
AreMsdus (m ∷ ms) = IsMsdu m × AreMsdus ms

-- The bytes that follow a payload up to a multiple of four.
abbrev pub padding : Msdu → List ℕ
padding m = replicate (padded (14 + length m.payload) - (14 + length m.payload)) 0

-- The header of a frame and its payload, then what follows.
abbrev pub subframe : Msdu → List ℕ → List ℕ
subframe m behind =
    m.dst ++ (m.src ++ (length m.payload / 256 ∷ length m.payload % 256 ∷ (m.payload ++ behind)))

-- All frames, each but the last padded.
unfoldable pub amsdu : List Msdu → List ℕ
amsdu [] = []
amsdu (m ∷ []) = subframe m []
amsdu (m ∷ n ∷ ms) = subframe m (padding m ++ amsdu (n ∷ ms))

-- The Ethernet frames, without those that have no known LLC/SNAP header.
unfoldable pub carried : List Msdu → List (List ℕ)
carried [] = []
carried (m ∷ ms) = queued (ethernet m.dst m.src m.payload) (carried ms)

-- One round of the loop takes one frame off.
Takes :
    (fuel : ℕ) → (payload behind : List ℕ) → (later : List (List ℕ)) → (dst src : List ℕ) → Type 0
Takes fuel payload behind later dst src =
    amsdu_loop (suc fuel) (λ n. true)
      (subframe (record { dst = dst; src = src; payload = payload }) behind)
    ≡ queued (build_eth_skb dst src payload true) later
