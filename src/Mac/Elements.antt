-- ===== src/Mac/Elements.antt =====
-- mac80211.c, the information elements of a frame: an identifier, a length and as many bytes.
pub mod Parsed
use lcompat.Base.{
  ℕ, zero, suc, ◌≡◌, Bool, true, false, ◌&&◌, ◌||◌, Option, none, some, List, [], ◌∷◌, ltb, leb,
  ◌==◌, if◌then◌else◌, length, take, drop,
}
use lcompat.Mac.Bytes.{same_bytes}

-- The loop of `lcompat_ieee80211_find_ie` over the bytes that are left. NULL is `none`; else the body
-- of the element, whose length is `*out_len`.
unfoldable pub find_ie_loop : (fuel : ℕ) → List ℕ → (eid : ℕ) → Option (List ℕ)
find_ie_loop zero ies eid = none
find_ie_loop (suc fuel) [] eid = none
find_ie_loop (suc fuel) (id ∷ []) eid = none
find_ie_loop (suc fuel) (id ∷ ie_len ∷ rest) eid =
    let later = find_ie_loop fuel (drop ie_len rest) eid in
    if ltb (length rest) ie_len then none else if id == eid then some (take ie_len rest) else later

-- `lcompat_ieee80211_find_ie` on the first `len` bytes; every round takes two bytes at least.
unfoldable pub find_ie : List ℕ → ℕ → Option (List ℕ)
find_ie ies eid = find_ie_loop (suc (length ies)) ies eid

-- The body of a WMM information or parameter element, version 1.
unfoldable pub is_wmm : (id : ℕ) → List ℕ → Bool
is_wmm id (b0 ∷ b1 ∷ b2 ∷ b3 ∷ b4 ∷ b5 ∷ more) =
    id == 221 && b0 == 0 && b1 == 80 && b2 == 242 && b3 == 2 && (b4 == 0 || b4 == 1) && b5 == 1
is_wmm id few = false

-- The loop of `lcompat_ieee80211_bss_has_wmm`.
unfoldable pub has_wmm_loop : (fuel : ℕ) → List ℕ → Bool
unfolding is_wmm
has_wmm_loop zero ies = false
has_wmm_loop (suc fuel) [] = false
has_wmm_loop (suc fuel) (id ∷ []) = false
has_wmm_loop (suc fuel) (id ∷ ie_len ∷ rest) =
    let later = has_wmm_loop fuel (drop ie_len rest) in
    if ltb (length rest) ie_len then false else if is_wmm id (take ie_len rest) then true else later

unfoldable pub bss_has_wmm : List ℕ → Bool
bss_has_wmm ies = has_wmm_loop (suc (length ies)) ies
