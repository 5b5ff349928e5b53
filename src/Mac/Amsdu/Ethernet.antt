-- ===== src/Mac/Amsdu/Ethernet.antt =====
-- The Ethernet frame that is carried by one frame of an A-MSDU, told from the bytes.
use lcompat.Base.{
  ℕ, ◌+◌, ◌*◌, ◌<◌, ◌≡◌, refl, Bool, true, not, ◌&&◌, ◌||◌, Option, none, some, List, [], ◌∷◌, ◌++◌,
  arith, leb, ◌==◌, if◌then◌else◌, length, drop, get_or,
}
use lcompat.Mac.Bytes.{same_bytes}
use lcompat.Mac.Data.{snap_to_ethertype}
use lcompat.Mac.Amsdu.{build_eth_skb}

-- The six bytes of an LLC/SNAP header that ends in `last`.
abbrev pub has_snap : (last : ℕ) → List ℕ → Bool
has_snap last p =
    get_or p 0 0 == 170
    && get_or p 1 0 == 170
    && get_or p 2 0 == 3
    && get_or p 3 0 == 0
    && get_or p 4 0 == 0
    && get_or p 5 0 == last

-- The RFC 1042 header (not before AARP and IPX), or the bridge tunnel header; then two bytes of the type.
abbrev pub is_known : List ℕ → Bool
is_known p =
    leb 8 (length p)
    && (has_snap 0 p
          && not (
              256 * get_or p 6 0 + get_or p 7 0 == 33011
              || 256 * get_or p 6 0 + get_or p 7 0 == 33079)
        || has_snap 248 p)

-- The addresses, and the payload from its type on.
abbrev pub ethernet : (dst src payload : List ℕ) → Option (List ℕ)
ethernet dst src payload = if is_known payload then some (dst ++ (src ++ drop 6 payload)) else none

pub build_eth_skb-ethernet :
    (dst src payload : List ℕ)
    → length payload < 65536
    → get_or payload 6 0 < 256
    → get_or payload 7 0 < 256
    → build_eth_skb dst src payload true ≡ ethernet dst src payload
unfolding build_eth_skb snap_to_ethertype same_bytes
build_eth_skb-ethernet dst src [] h l0 l1 = refl
build_eth_skb-ethernet dst src (b0 ∷ []) h l0 l1 = refl
build_eth_skb-ethernet dst src (b0 ∷ b1 ∷ []) h l0 l1 = refl
build_eth_skb-ethernet dst src (b0 ∷ b1 ∷ b2 ∷ []) h l0 l1 = refl
build_eth_skb-ethernet dst src (b0 ∷ b1 ∷ b2 ∷ b3 ∷ []) h l0 l1 = refl
build_eth_skb-ethernet dst src (b0 ∷ b1 ∷ b2 ∷ b3 ∷ b4 ∷ []) h l0 l1 = refl
build_eth_skb-ethernet dst src (b0 ∷ b1 ∷ b2 ∷ b3 ∷ b4 ∷ b5 ∷ []) h l0 l1 = refl
build_eth_skb-ethernet dst src (b0 ∷ b1 ∷ b2 ∷ b3 ∷ b4 ∷ b5 ∷ p0 ∷ []) h l0 l1 = refl
build_eth_skb-ethernet dst src (b0 ∷ b1 ∷ b2 ∷ b3 ∷ b4 ∷ b5 ∷ p0 ∷ p1 ∷ body) h l0 l1 = ground arith
