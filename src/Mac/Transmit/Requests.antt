-- ===== src/Mac/Transmit/Requests.antt =====
-- `lcompat_ieee80211_send_assoc_req` succeeds where it is given memory.
use lcompat.Base.{
  ℕ, zero, suc, ◌+◌, ◌-◌, ◌≤◌, ◌≡◌, ◌∙◌, refl, ap, true, false, not, ◌||◌, Option, none, some, List,
  [], ◌∷◌, ◌++◌, arith, ltb, ◌==◌, length, ℤ, pos, take, le→ltb, if_true, if_false,
}
use lcompat.Base.Words.{ulong_max, uint_max}
use lcompat.Mac.Bytes.{le16_bytes}
use lcompat.Mac.Elements.{bss_has_wmm}
use lcompat.Mac.Runtime.{Runtime, ScanResult, Band}
use lcompat.Mac.Rates.{current_band, build_supported_rates_ie}
use lcompat.Mac.Transmit.{
  alloc_tx_skb, next_seq_ctrl, hdr_3addr, send_mgmt, until_zero, assoc_len, assoc_ies,
  assoc_capability, send_assoc_sized, send_assoc_on, send_assoc_req,
}
use lcompat.Mac.Transmit.Lengths.{assoc_len-assoc_ies, length-assoc_ies_le}

length-until_zero_le : (bs : List ℕ) → length (until_zero bs) ≤ length bs
unfolding until_zero
length-until_zero_le [] = omega arith
length-until_zero_le (zero ∷ bs) = omega arith
length-until_zero_le (suc b ∷ bs) = omega (arith, length-until_zero_le bs)

length-take_le : (n : ℕ) (xs : List ℕ) → length (take n xs) ≤ n
length-take_le zero xs = omega arith
length-take_le (suc n) [] = omega arith
length-take_le (suc n) (x ∷ xs) = omega (arith, length-take_le n xs)

alloc-fits :
    (headroom : ℤ) (h n : ℕ)
    → headroom ≡ pos h
    → h + n ≤ uint_max
    → alloc_tx_skb headroom n true ≡ true
unfolding alloc_tx_skb
alloc-fits headroom h n e f =
    let t : (ltb uint_max h || ltb (ulong_max - n) h || ltb uint_max (h + n)) ≡ false =
      ground arith in
    rw (e, t) refl

-- The frame of an association request with given rates.
abbrev pub assoc_frame : Runtime → ScanResult → (supp ext : List ℕ) → List ℕ
assoc_frame rt bss supp ext =
    hdr_3addr 0 rt.connect_params.bssid rt.vif.addr rt.connect_params.bssid
      (next_seq_ctrl rt.tx_seq).0
    ++ (le16_bytes (assoc_capability rt.connect_params.privacy rt.capability)
        ++ (le16_bytes 10 ++ assoc_ies rt.connect_params.ssid supp ext (bss_has_wmm bss.ies)))

abbrev pub after_frame : Runtime → List ℕ → Runtime
after_frame rt frame = record rt {
  tx_seq = (next_seq_ctrl rt.tx_seq).1;
  sent = rt.sent ++ (frame ∷ []);
}

send_sized :
    (rt : Runtime) (bss : ScanResult) (supp ext : List ℕ) (h : ℕ)
    → rt.hw.has_tx ≡ true
    → rt.hw.extra_tx_headroom ≡ pos h
    → h ≤ 65535
    → length rt.connect_params.ssid ≤ 32
    → length supp ≤ 8
    → length ext ≤ 16
    → send_assoc_sized rt
        (assoc_len rt.connect_params.ssid supp ext (bss_has_wmm bss.ies))
        (assoc_ies rt.connect_params.ssid supp ext (bss_has_wmm bss.ies))
        true
      ≡ (none, after_frame rt (assoc_frame rt bss supp ext))
unfolding send_mgmt
send_sized rt bss supp ext h tx e eh a b c =
    let ies = assoc_ies rt.connect_params.ssid supp ext (bss_has_wmm bss.ies) in
    let n : ℕ = 28 + length ies in
    let short = length-assoc_ies_le rt.connect_params.ssid supp ext (bss_has_wmm bss.ies) in
    let fits : ltb uint_max n ≡ false = le→ltb _ _ (omega (arith, short)) in
    let given : alloc_tx_skb rt.hw.extra_tx_headroom n true ≡ true =
      alloc-fits rt.hw.extra_tx_headroom h n e (omega (arith, short)) in
    let exact : (length ies == n - 28) ≡ true = ground arith in
    ap (λ (o : Option ℕ). send_assoc_sized rt o ies true)
      (assoc_len-assoc_ies rt.connect_params.ssid supp ext (bss_has_wmm bss.ies) (omega arith)
        (omega arith) (omega arith))
    ∙ if_false (ltb uint_max n) _ _ fits
    ∙ if_false (not (alloc_tx_skb rt.hw.extra_tx_headroom n true)) _ _ (ap not given)
    ∙ if_true (length ies == n - 28) _ _ exact
    ∙ if_true rt.hw.has_tx _ _ tx

send_on :
    (band : Option Band) (b : Band) (rt : Runtime) (bss : ScanResult)
    → band ≡ some b
    → send_assoc_on band rt bss true ≡ send_assoc_on (some b) rt bss true
send_on band b rt bss e = ap (λ (o : Option Band). send_assoc_on o rt bss true) e

-- A request that has a network, a name of at most 32 bytes and a band is sent: the driver gets one frame,
-- with the fixed part and the elements for its name, for at most 8 rates and at most 16 further ones,
-- and the sequence number goes on. Neither the length check nor an overflow check fails. There is memory
-- for it, and the driver takes frames and asks for a headroom below 64 KiB.
pub send_assoc_req-after_frame :
    (rt : Runtime) (bss : ScanResult) (b : Band) (h : ℕ)
    → rt.connect_params.has_bssid ≡ true
    → current_band rt.hw ≡ some b
    → rt.hw.has_tx ≡ true
    → rt.hw.extra_tx_headroom ≡ pos h
    → h ≤ 65535
    → length rt.connect_params.ssid ≤ 32
    → (supp : List ℕ) × (ext : List ℕ) × (length supp ≤ 8)
      × (length ext ≤ 16)
      × (send_assoc_req rt bss true ≡ (none, after_frame rt (assoc_frame rt bss supp ext)))
unfolding send_assoc_req build_supported_rates_ie
send_assoc_req-after_frame rt bss b h has band tx e eh a =
    let (supp_rates, ext_rates) = build_supported_rates_ie rt.hw bss 8 16 in
    let supp = until_zero supp_rates in
    let ext = until_zero ext_rates in
    let ls : length supp ≤ 8 = omega (arith, length-until_zero_le supp_rates, length-take_le 8 _) in
    let le : length ext ≤ 16 = omega (arith, length-until_zero_le ext_rates, length-take_le 16 _) in
    (
      supp,
      ext,
      ls,
      le,
      if_false (not rt.connect_params.has_bssid) _ _ (ap not has)
          ∙ send_on (current_band rt.hw) b rt bss band
          ∙ send_sized rt bss supp ext h tx e eh a ls le,
    )
