-- ===== src/Mac/Rates.antt =====
-- mac80211.c, the rates that a network and the hardware share. A byte of a rates element is a rate in
-- steps of 500 kbit/s, with bit 7 for a basic rate. `bitrate` is in steps of 100 kbit/s.
pub mod Masks
use lcompat.Base.{
  ℕ, zero, suc, ◌+◌, ◌/◌, ◌%◌, Bool, true, false, not, ◌&&◌, ◌||◌, Option, none, some, List, [],
  ◌∷◌, ◌++◌, ltb, leb, ◌==◌, if◌then◌else◌, length, take, drop, replicate, get_or, map,
}
use lcompat.Mac.Bytes.{bit_set}
use lcompat.Mac.Elements.{find_ie}
use lcompat.Mac.Runtime.{ScanResult, Hw, Band, Channel}

-- `hw->wiphy->bands[chan->band]`, none where there is no channel or no such band.
unfoldable pub current_band : Hw → Option Band
current_band hw = elim hw.chan [ none ↦ none | some chan ↦ get_or hw.bands chan.band none ]

abbrev pub bitrates_of : Option Band → Option (List ℕ)
bitrates_of none = none
bitrates_of (some band) = band.bitrates

-- `(u8)(bitrate / 5)`
abbrev pub rate_of : ℕ → ℕ
rate_of bitrate = bitrate / 5 % 256

abbrev pub rates_in : Option (List ℕ) → List ℕ
rates_in none = []
rates_in (some body) = body

-- The bytes of both rates elements, `scan_rates` and `scan_ext_rates`, in their order.
abbrev pub scan_rates : List ℕ → List ℕ
scan_rates ies = rates_in (find_ie ies 1) ++ rates_in (find_ie ies 50)

-- Some byte names the rate.
unfoldable pub names_rate : List ℕ → ℕ → Bool
names_rate [] rate = false
names_rate (b ∷ bs) rate = b % 128 == rate || names_rate bs rate

-- Some byte names the rate as a basic rate.
unfoldable pub names_basic : List ℕ → ℕ → Bool
names_basic [] rate = false
names_basic (b ∷ bs) rate = (b % 128 == rate && bit_set 7 b) || names_basic bs rate

-- Bit `i` of a mask is the test of the `i`th of at most 32 bitrates.
abbrev pub mask_of : (ℕ → Bool) → List ℕ → List Bool
mask_of test bitrates = map (λ (b : ℕ). test (rate_of b)) (take 32 bitrates)

abbrev pub mask_if : (ℕ → Bool) → Option (List ℕ) → List Bool
mask_if test none = []
mask_if test (some bitrates) = mask_of test bitrates

-- `n_bitrates >= 32 ? U32_MAX : BIT(n_bitrates) - 1`
abbrev pub all_rates : List ℕ → List Bool
all_rates bitrates = replicate (if leb 32 (length bitrates) then 32 else length bitrates) true

abbrev pub all_rates_if : Option (List ℕ) → List Bool
all_rates_if none = []
all_rates_if (some bitrates) = all_rates bitrates

-- `lcompat_ieee80211_basic_rates_mask`
unfoldable pub basic_rates_mask : Hw → ScanResult → List Bool
unfolding names_basic
basic_rates_mask hw bss = mask_if (names_basic (scan_rates bss.ies)) (bitrates_of (current_band hw))

-- `lcompat_ieee80211_supported_rates_mask`, for a `bss` that is not NULL
unfoldable pub supported_rates_mask : Hw → ScanResult → List Bool
unfolding names_rate
supported_rates_mask hw bss =
    if length bss.ies == 0
    then all_rates_if (bitrates_of (current_band hw))
    else mask_if (names_rate (scan_rates bss.ies)) (bitrates_of (current_band hw))

-- The first byte of the rates elements that names the rate tells whether it is basic.
unfoldable pub first_basic : List ℕ → ℕ → Bool
first_basic [] rate = false
first_basic (b ∷ bs) rate = if b % 128 == rate then bit_set 7 b else first_basic bs rate

-- `scan_rates || scan_ext_rates`
abbrev pub is_there : Option (List ℕ) → Bool
is_there none = false
is_there (some body) = true

-- The rates that the loop of `lcompat_ieee80211_build_supported_rates_ie` allows, as bytes. A network
-- that names no rates allows all.
unfoldable pub allowed_rates : (any : Bool) → (scan bitrates : List ℕ) → List ℕ
unfolding names_rate first_basic
allowed_rates any scan [] = []
allowed_rates any scan (b ∷ bs) =
    let rest = allowed_rates any scan bs in
    if not any
    then rate_of b ∷ rest
    else if names_rate scan (rate_of b)
    then (rate_of b % 128 + (if first_basic scan (rate_of b) then 128 else 0)) ∷ rest
    else rest

abbrev pub allowed_if : List ℕ → Option (List ℕ) → List ℕ
allowed_if ies none = []
allowed_if ies (some bitrates) =
    allowed_rates (is_there (find_ie ies 1) || is_there (find_ie ies 50)) (scan_rates ies) bitrates

-- `lcompat_ieee80211_build_supported_rates_ie`: the first rates go to `supp_rates`, the next ones to
-- `ext_rates`, and what fits neither is left out.
unfoldable pub build_supported_rates_ie :
    Hw → ScanResult → (supp_size ext_size : ℕ) → List ℕ × List ℕ
unfolding allowed_rates
build_supported_rates_ie hw bss supp_size ext_size =
    let rates = allowed_if bss.ies (bitrates_of (current_band hw)) in
    (take supp_size rates, take ext_size (drop supp_size rates))
