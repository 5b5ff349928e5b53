-- ===== src/Mac/Select/Chosen.antt =====
-- What `lcompat_ieee80211_select_bss` chooses.
use lcompat.Base.{
  ℕ, zero, suc, ◌/◌, ◌%◌, not, if◌then◌else◌, ◌≡◌, ◌≢◌, ◌⊎◌, ◌∙◌, refl, sym, ap, Bool, true, false,
  ◌||◌, Option, none, some, List, [], ◌∷◌, arith, Bool-cases, inl, inr, ok, err, enoent, get_elem?,
  if_true,
}
use mathlib.Core.Option.{none-ne-some}
use lcompat.Mac.Bytes.{same_bytes, same_bytes_refl, same_bytes→≡}
use lcompat.Mac.Elements.{find_ie}
use lcompat.Mac.Runtime.{ScanResult, ConnectParams}
use lcompat.Mac.Select.{
  is_empty, bss_privacy_matches, ssid_is, ssid_matches, fits_request, fits_ssid, first_fit,
  select_bss,
}

-- A result of a scan.
abbrev pub IsListed : List ScanResult → ScanResult → Type 0
IsListed results r = (i : ℕ) × (get_elem? results i ≡ some r)

-- The network is protected exactly if the request is: by bit 4 of its capabilities.
abbrev pub HasPrivacy : ScanResult → ConnectParams → Type 0
HasPrivacy r params = r.capability / 16 % 2 ≡ (if params.privacy then 1 else 0)

-- A result that fits the whole request: its address and its name, where they are given, and its protection.
pub record Fits (r : ScanResult) (params : ConnectParams) : Type 0 where
  pub valid : r.valid ≡ true
  pub address : params.has_bssid ≡ true → r.bssid ≡ params.bssid
  pub name : (params.ssid ≡ []) ⊎ (find_ie r.ies 0 ≡ some params.ssid)
  pub privacy : HasPrivacy r params

-- A result that fits a request that has a name, but for the address.
pub record FitsName (r : ScanResult) (params : ConnectParams) : Type 0 where
  pub valid : r.valid ≡ true
  pub named : params.ssid ≢ []
  pub name : find_ie r.ies 0 ≡ some params.ssid
  pub privacy : HasPrivacy r params

-- No result of the scan fits the whole request.
abbrev pub NoneFits : List ScanResult → ConnectParams → Type 0
NoneFits results params = (s : ScanResult) → IsListed results s → ¬ Fits s params

abbrev pub NoneFitsName : List ScanResult → ConnectParams → Type 0
NoneFitsName results params = (s : ScanResult) → IsListed results s → ¬ FitsName s params

-- A result that is chosen fits the request; or no result does, and it fits but for the address.
abbrev pub Chosen : List ScanResult → ConnectParams → ScanResult → Type 0
Chosen results params r =
    IsListed results r × (Fits r params ⊎ (FitsName r params × NoneFits results params))

no-listed :
    (fits : ScanResult → Bool) (r : ScanResult) (rs : List ScanResult)
    → fits r ≡ false
    → ((s : ScanResult) → IsListed rs s → fits s ≡ false)
    → (s : ScanResult) (i : ℕ) → get_elem? (r ∷ rs) i ≡ some s
    → fits s ≡ false
no-listed fits r rs e all s zero l = let same : r ≡ s = cc in ap fits (sym same) ∙ e
no-listed fits r rs e all s (suc i) l = all s (i, l)

first_fit-cases :
    (fits : ScanResult → Bool) (rs : List ScanResult)
    → ((r : ScanResult) × (first_fit fits rs ≡ some r) × IsListed rs r × (fits r ≡ true))
      ⊎ ((first_fit fits rs ≡ none) × ((s : ScanResult) → IsListed rs s → fits s ≡ false))
unfolding first_fit
first_fit-cases fits [] = inr (refl, λ s l. absurd (none-ne-some s l.1))
first_fit-cases fits (r ∷ rs) = elim (Bool-cases (fits r)) [
  | inl e ↦ inl (r, rw e refl, (0, refl), e)
  | inr e ↦ elim (first_fit-cases fits rs) [
    | inl (r', e', l, f) ↦ inl (r', rw (e, e') refl, (suc l.0, l.1), f)
    | inr (e', all) ↦ inr (rw (e, e') refl, λ s l. no-listed fits r rs e all s l.0 l.1)
  ]
]

is_empty→≡ : (bs : List ℕ) → is_empty bs ≡ true → bs ≡ []
unfolding is_empty
is_empty→≡ [] h = refl
is_empty→≡ (b ∷ bs) h = absurd (ground arith)

ssid_is→≡ : (o : Option (List ℕ)) (ssid : List ℕ) → ssid_is o ssid ≡ true → o ≡ some ssid
ssid_is→≡ none ssid h = absurd (ground arith)
ssid_is→≡ (some ie) ssid h = ap some (same_bytes→≡ ie ssid h)

name_of :
    (r : ScanResult) (params : ConnectParams)
    → (is_empty params.ssid || ssid_matches r params.ssid) ≡ true
    → (params.ssid ≡ []) ⊎ (find_ie r.ies 0 ≡ some params.ssid)
unfolding ssid_matches
name_of r params h = elim (Bool-cases (is_empty params.ssid)) [
  | inl e ↦ inl (is_empty→≡ params.ssid e)
  | inr e ↦ inr (ssid_is→≡ (find_ie r.ies 0) params.ssid (ground (arith, h, e)))
]

bss_privacy_matches-HasPrivacy :
    (r : ScanResult) (params : ConnectParams)
    → bss_privacy_matches r params ≡ true
    → HasPrivacy r params
unfolding bss_privacy_matches
bss_privacy_matches-HasPrivacy r params h = ground (arith, h)

HasPrivacy-bss_privacy_matches :
    (r : ScanResult) (params : ConnectParams)
    → HasPrivacy r params
    → bss_privacy_matches r params ≡ true
unfolding bss_privacy_matches
HasPrivacy-bss_privacy_matches r params h = ground (arith, h)

fits_request-Fits :
    (r : ScanResult) (params : ConnectParams) → fits_request r params ≡ true → Fits r params
unfolding fits_request
fits_request-Fits r params f = record {
  valid = ground (arith, f);
  address = λ has. same_bytes→≡ r.bssid params.bssid (ground (arith, f, has));
  name = name_of r params (ground (arith, f));
  privacy = bss_privacy_matches-HasPrivacy r params (ground (arith, f));
}

fits_ssid-FitsName :
    (r : ScanResult) (params : ConnectParams) → fits_ssid r params ≡ true → FitsName r params
unfolding fits_ssid ssid_matches
fits_ssid-FitsName r params f = record {
  valid = ground (arith, f);
  named = λ e. let k = ap is_empty e in absurd (ground (arith, f, k, empty_is));
  name = ssid_is→≡ (find_ie r.ies 0) params.ssid (ground (arith, f));
  privacy = bss_privacy_matches-HasPrivacy r params (ground (arith, f));
}
  where
    empty_is : is_empty [] ≡ true
    empty_is = unfold is_empty in refl

ssid_matches-named :
    (r : ScanResult) (ssid : List ℕ) → find_ie r.ies 0 ≡ some ssid → ssid_matches r ssid ≡ true
unfolding ssid_matches
ssid_matches-named r ssid e = rw e (same_bytes_refl ssid)

name-matches :
    (r : ScanResult) (params : ConnectParams)
    → (params.ssid ≡ []) ⊎ (find_ie r.ies 0 ≡ some params.ssid)
    → (is_empty params.ssid || ssid_matches r params.ssid) ≡ true
name-matches r params (inl e) =
    let k : is_empty params.ssid ≡ true = rw e (unfold is_empty in refl) in ground (arith, k)
name-matches r params (inr e) = let k = ssid_matches-named r params.ssid e in ground (arith, k)

address-matches :
    (r : ScanResult) (params : ConnectParams)
    → (params.has_bssid ≡ true → r.bssid ≡ params.bssid)
    → (not params.has_bssid || same_bytes r.bssid params.bssid) ≡ true
address-matches r params h = elim (Bool-cases params.has_bssid) [
  | inr e ↦ ground (arith, e)
  | inl e ↦
      let k : same_bytes r.bssid params.bssid ≡ true = rw (h e) (same_bytes_refl params.bssid) in
      ground (arith, k)
]

Fits-fits_request :
    (r : ScanResult) (params : ConnectParams) → Fits r params → fits_request r params ≡ true
unfolding fits_request
Fits-fits_request r params f =
    let a = address-matches r params f.address in
    let n = name-matches r params f.name in
    let p = HasPrivacy-bss_privacy_matches r params f.privacy in ground (arith, a, n, p, f.valid)

is_empty-≢ : (bs : List ℕ) → bs ≢ [] → is_empty bs ≡ false
unfolding is_empty
is_empty-≢ [] h = absurd (h refl)
is_empty-≢ (b ∷ bs) h = refl

FitsName-fits_ssid :
    (r : ScanResult) (params : ConnectParams) → FitsName r params → fits_ssid r params ≡ true
unfolding fits_ssid
FitsName-fits_ssid r params f =
    let e = is_empty-≢ params.ssid f.named in
    let n = ssid_matches-named r params.ssid f.name in
    let p = HasPrivacy-bss_privacy_matches r params f.privacy in ground (arith, e, n, p, f.valid)

none-NoneFits :
    (results : List ScanResult) (params : ConnectParams)
    → ((s : ScanResult) → IsListed results s → fits_request s params ≡ false)
    → NoneFits results params
none-NoneFits results params all s l f =
    let k = all s l in let k' = Fits-fits_request s params f in ground (arith, k, k')

none-NoneFitsName :
    (results : List ScanResult) (params : ConnectParams)
    → ((s : ScanResult) → IsListed results s → fits_ssid s params ≡ false)
    → NoneFitsName results params
none-NoneFitsName results params all s l f =
    let k = all s l in let k' = FitsName-fits_ssid s params f in ground (arith, k, k')

-- With the results of a scan, `lcompat_ieee80211_select_bss` chooses one of them, or returns -ENOENT and
-- leaves the request as it is. A result that is chosen is valid, is protected exactly if the request wants
-- it, and has the address and the name of the request, where they are given. If no result does, it is one
-- for a request with a name that fits it but for the address. Without a choice there is none of either kind.
pub select_bss-Chosen :
    (results : List ScanResult) (params : ConnectParams)
    → ((r : ScanResult) × ((select_bss (some results) params).0 ≡ ok r) × Chosen results params r)
      ⊎ ((select_bss (some results) params ≡ (err enoent, params))
          × NoneFits results params
          × NoneFitsName results params)
unfolding select_bss
select_bss-Chosen results params =
    elim (first_fit-cases (λ (r : ScanResult). fits_request r params) results) [
      | inl (r, e, l, f) ↦ inl (r, rw e refl, (l, inl (fits_request-Fits r params f)))
      | inr (e, all) ↦ elim (first_fit-cases (λ (r : ScanResult). fits_ssid r params) results) [
        | inl (r, e', l, f) ↦ inl (
          r,
          rw (e, e') refl,
          (l, inr (fits_ssid-FitsName r params f, none-NoneFits results params all)),
        )
        | inr (e', all') ↦ inr (
          rw (e, e') refl,
          none-NoneFits results params all,
          none-NoneFitsName results params all',
        )
      ]
    ]

-- A request that names the address of a network is answered by another network of the same name, where
-- that is the only result: the request keeps its address, so that the station goes on with the address of
-- one network and the channel and capabilities of another.
pub select_bss_other_network :
    (r : ScanResult) (params : ConnectParams)
    → r.valid ≡ true
    → params.has_bssid ≡ true
    → same_bytes r.bssid params.bssid ≡ false
    → is_empty params.ssid ≡ false
    → ssid_matches r params.ssid ≡ true
    → bss_privacy_matches r params ≡ true
    → select_bss (some (r ∷ [])) params ≡ (ok r, params)
unfolding select_bss first_fit fits_request fits_ssid
select_bss_other_network r params v h d n m p =
    let f : fits_request r params ≡ false = ground (arith, v, h, d) in
    let g : fits_ssid r params ≡ true = ground (arith, v, n, m, p) in
    rw (f, g)
      (ap (λ (q : ConnectParams). (ok r, q))
        (if_true params.has_bssid params (record params { bssid = r.bssid; has_bssid = true }) h))
