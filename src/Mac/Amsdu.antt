-- ===== src/Mac/Amsdu.antt =====
-- mac80211.c, A-MSDUs: one data frame that carries several Ethernet frames, each behind a header of 14
-- bytes and padded to a multiple of four.
pub mod Ethernet
pub mod Qos
pub mod Subframes
use lcompat.Base.{
  ℕ, zero, suc, ◌+◌, ◌-◌, ◌*◌, ◌/◌, Bool, true, false, not, ◌&&◌, ◌||◌, Option, none, some, List,
  [], ◌∷◌, ◌++◌, ltb, ◌==◌, if◌then◌else◌, length, take, drop, get_or, Ret, ok, err, einval,
}
use lcompat.Base.Words.{uint_max}
use lcompat.Mac.Bytes.{bit_set, be16}
use lcompat.Mac.Data.{snap_to_ethertype, eth_frame}

-- `lcompat_ieee80211_is_amsdu`
unfoldable pub is_amsdu : List ℕ → (hdr_len : ℕ) → Bool
is_amsdu frame hdr_len =
    if ltb (length frame) hdr_len || ltb hdr_len 26
    then false
    else bit_set 7 (get_or frame (hdr_len - 2) 0)

abbrev pub eth_skb_from : (dst src payload : List ℕ) → Option ℕ → (memory : Bool) → Option (List ℕ)
eth_skb_from dst src payload none memory = none
eth_skb_from dst src payload (some proto) memory =
    if ltb (uint_max - 14) (length payload - 8)
    then none
    else if memory
    then some (eth_frame dst src proto (drop 8 payload))
    else none

-- `lcompat_ieee80211_build_eth_skb`
unfoldable pub build_eth_skb : (dst src payload : List ℕ) → (memory : Bool) → Option (List ℕ)
unfolding snap_to_ethertype
build_eth_skb dst src payload memory =
    eth_skb_from dst src payload (snap_to_ethertype payload) memory

abbrev pub queued : Option (List ℕ) → List (List ℕ) → List (List ℕ)
queued none frames = frames
queued (some frame) frames = frame ∷ frames

-- `(subframe_len + 3U) & ~3U`
abbrev pub padded : ℕ → ℕ
padded subframe_len = (subframe_len + 3) / 4 * 4

-- What one round queues, from the bytes left before and after the header, the length in it, the buffer
-- that was built and what the later rounds queue.
unfoldable pub amsdu_round :
    (left rest msdu_len : ℕ) → Option (List ℕ) → (later : List (List ℕ)) → List (List ℕ)
amsdu_round left rest msdu_len eth later =
    let pad = padded (14 + msdu_len) in
    if ltb left 14 || msdu_len == 0 || ltb rest msdu_len
    then []
    else queued eth (if ltb pad (14 + msdu_len) || ltb rest (pad - 14) then [] else later)

-- The loop of `lcompat_ieee80211_enqueue_amsdu` over the bytes that are left: the frames that it queues.
-- Whether memory is given is a function of the number of bytes that are left.
unfoldable pub amsdu_loop : (fuel : ℕ) → (memory : ℕ → Bool) → List ℕ → List (List ℕ)
unfolding build_eth_skb amsdu_round
amsdu_loop zero memory pos = []
amsdu_loop (suc fuel) memory pos =
    let msdu_len = be16 pos 12 in
    let rest = drop 14 pos in
    amsdu_round (length pos) (length rest) msdu_len
      (build_eth_skb (take 6 pos) (take 6 (drop 6 pos)) (take msdu_len rest) (memory (length pos)))
      (amsdu_loop fuel memory (drop (padded (14 + msdu_len) - 14) rest))

abbrev pub is_none : List (List ℕ) → Bool
is_none [] = true
is_none (f ∷ fs) = false

-- `lcompat_ieee80211_enqueue_amsdu`: whether it returns 0, and the queue of received frames
unfoldable pub enqueue_amsdu :
    (queue : List (List ℕ))
    → (frame : List ℕ) → (hdr_len : ℕ) → (memory : ℕ → Bool) → Bool × List (List ℕ)
unfolding amsdu_loop
enqueue_amsdu queue frame hdr_len memory =
    let pos = drop hdr_len frame in
    let frames = amsdu_loop (suc (length pos)) memory pos in
    if ltb (length frame) hdr_len then (false, queue) else (not (is_none frames), queue ++ frames)
