-- ===== src/Mac/Beacon/Stored.antt =====
-- A beacon is stored with what it says.
use lcompat.Base.{
  ℕ, zero, suc, ◌+◌, ◌*◌, ◌/◌, ◌%◌, ◌<◌, ◌≤◌, ◌≡◌, refl, ap, some, List, [], ◌∷◌, ◌++◌, true, arith,
  ◌==◌, if◌then◌else◌, length, take, le→ltb,
}
use lcompat.Mac.Bytes.{le16_bytes, six-elim}
use lcompat.Mac.Elements.{find_ie}
use lcompat.Mac.Elements.Parsed.{Element, encode, first_body, IsCut, find_ie-encode}
use lcompat.Mac.Runtime.{ScanResult}
use lcompat.Mac.Transmit.{hdr_3addr}
use lcompat.Mac.Beacon.{store_scan_result}

take_all : (n : ℕ) (xs : List ℕ) → length xs ≤ n → take n xs ≡ xs
take_all zero [] h = refl
take_all zero (x ∷ xs) h = absurd (omega arith)
take_all (suc n) [] h = refl
take_all (suc n) (x ∷ xs) h = ap (λ (ys : List ℕ). x ∷ ys) (take_all n xs (omega arith))

eight-elim :
    (P : List ℕ → Type 0)
    → ((t u a b c d e f : ℕ) → P (t ∷ u ∷ a ∷ b ∷ c ∷ d ∷ e ∷ f ∷ []))
    → (xs : List ℕ) → length xs ≡ 8
    → P xs
eight-elim P h [] l = absurd (omega arith)
eight-elim P h (t ∷ []) l = absurd (omega arith)
eight-elim P h (t ∷ u ∷ xs) l = six-elim (λ (ys : List ℕ). P (t ∷ u ∷ ys)) (h t u) xs (omega arith)

-- A beacon: time stamp, interval, capabilities and elements.
abbrev pub beacon :
    (da sa bssid : List ℕ)
    → (seq_ctrl : ℕ) → (stamp : List ℕ) → (interval capability : ℕ) → List ℕ
    → List ℕ
beacon da sa bssid seq_ctrl stamp interval capability ies =
    hdr_3addr 128 da sa bssid seq_ctrl
    ++ (stamp ++ (le16_bytes interval ++ (le16_bytes capability ++ ies)))

abbrev pub stored : (bssid : List ℕ) → (frequency interval capability : ℕ) → List ℕ → ScanResult
stored bssid frequency interval capability ies = record {
  valid = true;
  bssid = bssid;
  frequency = frequency;
  beacon_interval = interval;
  capability = capability;
  ies = ies;
}

-- Such a beacon is stored.
IsStored :
    (center_freq1 frequency max_ie_len seq_ctrl interval capability : ℕ)
    → (ies da sa bssid stamp : List ℕ) → Type 0
IsStored center_freq1 frequency max_ie_len seq_ctrl interval capability ies da sa bssid stamp =
    store_scan_result center_freq1 frequency max_ie_len
      (beacon da sa bssid seq_ctrl stamp interval capability ies)
    ≡ some
        (stored bssid (if frequency == 0 then center_freq1 else frequency) interval capability ies)

bytes-IsStored :
    (cf fr mx s iv cp : ℕ) (ies : List ℕ)
    → iv < 65536
    → cp < 65536
    → 4 ≤ length ies
    → length ies ≤ mx
    → (a0 a1 a2 a3 a4 a5 b0 b1 b2 b3 b4 b5 c0 c1 c2 c3 c4 c5 t0 t1 t2 t3 t4 t5 t6 t7 : ℕ)
    → IsStored cf fr mx s iv cp ies
        (a0 ∷ a1 ∷ a2 ∷ a3 ∷ a4 ∷ a5 ∷ [])
        (b0 ∷ b1 ∷ b2 ∷ b3 ∷ b4 ∷ b5 ∷ [])
        (c0 ∷ c1 ∷ c2 ∷ c3 ∷ c4 ∷ c5 ∷ [])
        (t0 ∷ t1 ∷ t2 ∷ t3 ∷ t4 ∷ t5 ∷ t6 ∷ t7 ∷ [])
unfolding IsStored store_scan_result
bytes-IsStored cf fr mx s iv cp ies hi hc lo hm a0 a1 a2 a3 a4 a5 b0 b1 b2 b3 b4 b5 c0 c1 c2 c3 c4
      c5 t0 t1 t2 t3 t4 t5 t6 t7 =
    let i : iv % 256 + 256 * (iv / 256 % 256) ≡ iv = omega arith in
    let c : cp % 256 + 256 * (cp / 256 % 256) ≡ cp = omega arith in
    let whole : 40
        ≤ length (
            beacon (a0 ∷ a1 ∷ a2 ∷ a3 ∷ a4 ∷ a5 ∷ []) (b0 ∷ b1 ∷ b2 ∷ b3 ∷ b4 ∷ b5 ∷ [])
              (c0 ∷ c1 ∷ c2 ∷ c3 ∷ c4 ∷ c5 ∷ []) s (t0 ∷ t1 ∷ t2 ∷ t3 ∷ t4 ∷ t5 ∷ t6 ∷ t7 ∷ []) iv
              cp ies) =
      omega arith in
    rw (le→ltb _ _ whole, i, c, take_all mx ies hm) refl

lists-IsStored :
    (cf fr mx s iv cp : ℕ) (ies da sa bssid stamp : List ℕ)
    → iv < 65536
    → cp < 65536
    → 4 ≤ length ies
    → length ies ≤ mx
    → length da ≡ 6
    → length sa ≡ 6
    → length bssid ≡ 6
    → length stamp ≡ 8
    → IsStored cf fr mx s iv cp ies da sa bssid stamp
lists-IsStored cf fr mx s iv cp ies da sa bssid stamp hi hc lo hm ld ls lb lt =
    six-elim (λ (xs : List ℕ). IsStored cf fr mx s iv cp ies xs sa bssid stamp)
      (λ a0 a1 a2 a3 a4 a5.
        six-elim
          (λ (xs : List ℕ).
            IsStored cf fr mx s iv cp ies (a0 ∷ a1 ∷ a2 ∷ a3 ∷ a4 ∷ a5 ∷ []) xs bssid stamp)
          (λ b0 b1 b2 b3 b4 b5.
            six-elim
              (λ (xs : List ℕ).
                IsStored cf fr mx s iv cp ies (a0 ∷ a1 ∷ a2 ∷ a3 ∷ a4 ∷ a5 ∷ [])
                  (b0 ∷ b1 ∷ b2 ∷ b3 ∷ b4 ∷ b5 ∷ []) xs stamp)
              (λ c0 c1 c2 c3 c4 c5.
                eight-elim
                  (λ (xs : List ℕ).
                    IsStored cf fr mx s iv cp ies (a0 ∷ a1 ∷ a2 ∷ a3 ∷ a4 ∷ a5 ∷ [])
                      (b0 ∷ b1 ∷ b2 ∷ b3 ∷ b4 ∷ b5 ∷ []) (c0 ∷ c1 ∷ c2 ∷ c3 ∷ c4 ∷ c5 ∷ []) xs)
                  (bytes-IsStored cf fr mx s iv cp ies hi hc lo hm a0 a1 a2 a3 a4 a5 b0 b1 b2 b3 b4
                    b5 c0 c1 c2 c3 c4 c5)
                  stamp lt)
              bssid lb)
          sa ls)
      da ld

-- A beacon becomes a scan result with its network's address, its interval and its capabilities, the
-- frequency that the driver reports or else that of the device, and all its elements: a search in the
-- result finds the first element of the beacon with an identifier. Addresses have 6 bytes, the time stamp
-- has 8, and the elements are at least 4 bytes and not more than the host keeps.
pub store_scan_result-beacon :
    (center_freq1 frequency max_ie_len seq_ctrl interval capability : ℕ) (es : List Element)
    (tail da sa bssid stamp : List ℕ)
    → interval < 65536
    → capability < 65536
    → IsCut tail
    → 4 ≤ length (encode es ++ tail)
    → length (encode es ++ tail) ≤ max_ie_len
    → length da ≡ 6
    → length sa ≡ 6
    → length bssid ≡ 6
    → length stamp ≡ 8
    → (store_scan_result center_freq1 frequency max_ie_len
          (beacon da sa bssid seq_ctrl stamp interval capability (encode es ++ tail))
        ≡ some (
            stored bssid
              (if frequency == 0 then center_freq1 else frequency)
              interval
              capability
              (encode es ++ tail)))
      × ((eid : ℕ) → find_ie (encode es ++ tail) eid ≡ first_body eid es)
unfolding IsStored
store_scan_result-beacon cf fr mx s iv cp es tail da sa bssid stamp hi hc cut lo hm ld ls lb lt = (
  lists-IsStored cf fr mx s iv cp (encode es ++ tail) da sa bssid stamp hi hc lo hm ld ls lb lt,
  (λ eid. (find_ie-encode es tail eid cut).0),
)
