-- ===== src/Mac/Transmit/Lengths.antt =====
-- The elements of an association request: they fill the length that was computed, and they are found.
use lcompat.Base.{
  ℕ, ◌+◌, ◌-◌, ◌≤◌, ◌≡◌, ◌≢◌, ◌∙◌, refl, ap, Bool, true, false, none, some, List, [], ◌∷◌, ◌++◌,
  arith, ltb, ◌==◌, if◌then◌else◌, length, length-append, le→ltb,
}
use lcompat.Base.Words.{ulong_max}
use mathlib.Core.List.{append-nil}
use lcompat.Mac.Elements.{find_ie, is_wmm, bss_has_wmm}
use lcompat.Mac.Elements.Parsed.{Element, encode, first_body, some_wmm, find_ie-encode}
use lcompat.Mac.Transmit.{
  size_add, size_add_ie, size_add_unless_empty, ie_unless_empty, wmm_info_ie, assoc_len, assoc_ies,
}

size_add-fits : (a b : ℕ) → a + b ≤ ulong_max → size_add a b ≡ some (a + b)
unfolding size_add
size_add-fits a b h = let t : ltb (ulong_max - b) a ≡ false = le→ltb _ _ (omega arith) in rw t refl

size_add_ie-fits :
    (total len : ℕ)
    → len ≤ 255
    → total + (2 + len) ≤ ulong_max
    → size_add_ie total len ≡ some (total + (2 + len))
unfolding size_add_ie
size_add_ie-fits total len h k =
    rw (le→ltb 255 len h, size_add-fits 2 len (omega arith), size_add-fits total (2 + len) k) refl

size_unless-fits :
    (total id : ℕ) (body : List ℕ)
    → length body ≤ 255
    → total + (2 + length body) ≤ ulong_max
    → size_add_unless_empty total (length body) ≡ some (total + length (ie_unless_empty id body))
size_unless-fits total id [] h k = ground arith
size_unless-fits total id (b ∷ bs) h k =
    let z : (length (b ∷ bs) == 0) ≡ false = ground arith in
    rw (z, size_add_ie-fits total (length (b ∷ bs)) h k) (ap some (omega arith))

length-unless_le : (id : ℕ) (body : List ℕ) → length (ie_unless_empty id body) ≤ 2 + length body
length-unless_le id [] = ground arith
length-unless_le id (b ∷ bs) = ground arith

length-wmm : (wmm : Bool) → length (if wmm then wmm_info_ie else []) ≡ (if wmm then 9 else 0)
length-wmm true = refl
length-wmm false = refl

add_wmm-fits :
    (total : ℕ) (wmm : Bool)
    → total + 9 ≤ ulong_max
    → (if wmm then size_add total 9 else some total) ≡ some (total + (if wmm then 9 else 0))
add_wmm-fits total true h = size_add-fits total 9 h
add_wmm-fits total false h = ap some (omega arith)

-- The length that `lcompat_ieee80211_send_assoc_req` computes is that of its fixed part and of the
-- elements that it writes, if its name and its rates are at most 255 bytes each: no sum overflows.
pub assoc_len-assoc_ies :
    (ssid supp ext : List ℕ) (wmm : Bool)
    → length ssid ≤ 255
    → length supp ≤ 255
    → length ext ≤ 255
    → assoc_len ssid supp ext wmm ≡ some (28 + length (assoc_ies ssid supp ext wmm))
unfolding assoc_len assoc_ies
assoc_len-assoc_ies ssid supp ext wmm a b c =
    let with_ssid = 28 + (2 + length ssid) in
    let with_supp = with_ssid + length (ie_unless_empty 1 supp) in
    let with_ext = with_supp + length (ie_unless_empty 50 ext) in
    let l1 = length-unless_le 1 supp in
    let l2 = length-unless_le 50 ext in
    rw
      (
        size_add_ie-fits 28 (length ssid) a (omega arith),
        size_unless-fits with_ssid 1 supp b (omega arith),
        size_unless-fits with_supp 50 ext c (omega arith),
        add_wmm-fits with_ext wmm (omega arith),
      )
      (ap some (
        omega (
          arith,
          length-wmm wmm,
          length-append ssid (
              ie_unless_empty 1 supp
              ++ (ie_unless_empty 50 ext ++ (if wmm then wmm_info_ie else []))),
          length-append (ie_unless_empty 1 supp)
              (ie_unless_empty 50 ext ++ (if wmm then wmm_info_ie else [])),
          length-append (ie_unless_empty 50 ext) (if wmm then wmm_info_ie else []),
        )))

pub length-assoc_ies_le :
    (ssid supp ext : List ℕ) (wmm : Bool)
    → length (assoc_ies ssid supp ext wmm) ≤ 15 + length ssid + length supp + length ext
unfolding assoc_ies
length-assoc_ies_le ssid supp ext wmm = ground (
  arith,
  length-wmm wmm,
  length-unless_le 1 supp,
  length-unless_le 50 ext,
  length-append ssid
      (ie_unless_empty 1 supp ++ (ie_unless_empty 50 ext ++ (if wmm then wmm_info_ie else []))),
  length-append (ie_unless_empty 1 supp)
      (ie_unless_empty 50 ext ++ (if wmm then wmm_info_ie else [])),
  length-append (ie_unless_empty 50 ext) (if wmm then wmm_info_ie else []),
)

-- The element, if its body is not empty.
opt : ℕ → List ℕ → List Element
opt id [] = []
opt id (b ∷ bs) = record { id = id; body = b ∷ bs } ∷ []

wmm_element : Bool → List Element
wmm_element true = record { id = 221; body = 0 ∷ 80 ∷ 242 ∷ 2 ∷ 0 ∷ 1 ∷ 0 ∷ [] } ∷ []
wmm_element false = []

encode-opt :
    (id : ℕ) (body : List ℕ) (es : List Element)
    → encode (opt id body ++ es) ≡ ie_unless_empty id body ++ encode es
unfolding opt encode
encode-opt id [] es = refl
encode-opt id (b ∷ bs) es = let z : (length (b ∷ bs) == 0) ≡ false = ground arith in rw z refl

encode-wmm : (wmm : Bool) → encode (wmm_element wmm) ≡ (if wmm then wmm_info_ie else [])
unfolding wmm_element encode
encode-wmm true = refl
encode-wmm false = refl

assoc_elements : (ssid supp ext : List ℕ) → (wmm : Bool) → List Element
assoc_elements ssid supp ext wmm =
    record { id = 0; body = ssid } ∷ (opt 1 supp ++ (opt 50 ext ++ wmm_element wmm))

encode-assoc_elements :
    (ssid supp ext : List ℕ) (wmm : Bool)
    → assoc_ies ssid supp ext wmm ≡ encode (assoc_elements ssid supp ext wmm) ++ []
unfolding assoc_ies assoc_elements encode
encode-assoc_elements ssid supp ext wmm =
    rw
      (
        append-nil (ssid ++ encode (opt 1 supp ++ (opt 50 ext ++ wmm_element wmm))),
        encode-opt 1 supp (opt 50 ext ++ wmm_element wmm),
        encode-opt 50 ext (wmm_element wmm),
        encode-wmm wmm,
      )
      refl

-- What is found in the elements of an association request.
pub record Announces (ies ssid supp ext : List ℕ) (wmm : Bool) : Type 0 where
  pub name : find_ie ies 0 ≡ some ssid
  pub rates : find_ie ies 1 ≡ (if length supp == 0 then none else some supp)
  pub more_rates : find_ie ies 50 ≡ (if length ext == 0 then none else some ext)
  pub quality : bss_has_wmm ies ≡ wmm

found_one :
    (supp ext : List ℕ) (wmm : Bool)
    → first_body 1 (opt 1 supp ++ (opt 50 ext ++ wmm_element wmm))
      ≡ (if length supp == 0 then none else some supp)
unfolding opt first_body wmm_element
found_one (b ∷ bs) ext wmm = ground arith
found_one [] [] true = refl
found_one [] [] false = refl
found_one [] (c ∷ cs) true = refl
found_one [] (c ∷ cs) false = refl

found_fifty :
    (supp ext : List ℕ) (wmm : Bool)
    → first_body 50 (opt 1 supp ++ (opt 50 ext ++ wmm_element wmm))
      ≡ (if length ext == 0 then none else some ext)
unfolding opt first_body wmm_element
found_fifty [] [] true = refl
found_fifty [] [] false = refl
found_fifty [] (c ∷ cs) wmm = ground arith
found_fifty (b ∷ bs) [] true = refl
found_fifty (b ∷ bs) [] false = refl
found_fifty (b ∷ bs) (c ∷ cs) wmm = ground arith

not-wmm : (id : ℕ) (body : List ℕ) → id ≢ 221 → is_wmm id body ≡ false
unfolding is_wmm
not-wmm id [] h = refl
not-wmm id (b0 ∷ []) h = refl
not-wmm id (b0 ∷ b1 ∷ []) h = refl
not-wmm id (b0 ∷ b1 ∷ b2 ∷ []) h = refl
not-wmm id (b0 ∷ b1 ∷ b2 ∷ b3 ∷ []) h = refl
not-wmm id (b0 ∷ b1 ∷ b2 ∷ b3 ∷ b4 ∷ []) h = refl
not-wmm id (b0 ∷ b1 ∷ b2 ∷ b3 ∷ b4 ∷ b5 ∷ more) h = ground arith

skip-opt :
    (id : ℕ) (body : List ℕ) (es : List Element)
    → id ≢ 221
    → some_wmm (opt id body ++ es) ≡ some_wmm es
unfolding opt some_wmm
skip-opt id [] es h = refl
skip-opt id (b ∷ bs) es h = rw (not-wmm id (b ∷ bs) h) refl

last-wmm : (wmm : Bool) → some_wmm (wmm_element wmm) ≡ wmm
unfolding some_wmm wmm_element is_wmm
last-wmm true = refl
last-wmm false = refl

found_wmm :
    (ssid supp ext : List ℕ) (wmm : Bool) → some_wmm (assoc_elements ssid supp ext wmm) ≡ wmm
unfolding assoc_elements some_wmm
found_wmm ssid supp ext wmm =
    rw
      (
        not-wmm 0 ssid (omega arith),
        skip-opt 1 supp (opt 50 ext ++ wmm_element wmm) (omega arith),
        skip-opt 50 ext (wmm_element wmm) (omega arith),
      )
      (last-wmm wmm)

-- A reader of the elements finds the name of the request, the rates where there are any, and a WMM
-- element exactly if the network has one.
pub assoc_ies-Announces :
    (ssid supp ext : List ℕ) (wmm : Bool)
    → Announces (assoc_ies ssid supp ext wmm) ssid supp ext wmm
assoc_ies-Announces ssid supp ext wmm =
    let es = assoc_elements ssid supp ext wmm in
    let e = encode-assoc_elements ssid supp ext wmm in
    let found =
      λ (eid : ℕ). ap (λ (bs : List ℕ). find_ie bs eid) e ∙ (find_ie-encode es [] eid tt).0 in
    record {
      name = found 0 ∙ (unfold first_body assoc_elements in refl);
      rates = found 1 ∙ (unfold first_body assoc_elements in found_one supp ext wmm);
      more_rates = found 50 ∙ (unfold first_body assoc_elements in found_fifty supp ext wmm);
      quality = ap bss_has_wmm e ∙ (find_ie-encode es [] 0 tt).1 ∙ found_wmm ssid supp ext wmm;
    }
