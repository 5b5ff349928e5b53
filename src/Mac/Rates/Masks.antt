-- ===== src/Mac/Rates/Masks.antt =====
-- The rates of a network, of the hardware and of the station.
use lcompat.Base.{
  ℕ, zero, suc, ◌%◌, ◌≡◌, refl, sym, Bool, true, false, Option, none, some, List, [], ◌∷◌, arith,
  leb, ◌==◌, if◌then◌else◌, Bool-cases, inl, inr, length, take, map, replicate,
}
use lcompat.Mac.Runtime.{ScanResult, Hw}
use lcompat.Mac.Rates.{
  current_band, bitrates_of, rate_of, scan_rates, names_rate, names_basic, mask_if, all_rates_if,
  basic_rates_mask, supported_rates_mask,
}

-- Every bit of the first mask is a bit of the second, and both have the same bits.
abbrev pub IsWithin : List Bool → List Bool → Type 0
IsWithin [] [] = Unit {0}
IsWithin [] (c ∷ cs) = Unit {0}
IsWithin (b ∷ bs) [] = ⊥
IsWithin (b ∷ bs) (c ∷ cs) = (b ≡ true → c ≡ true) × IsWithin bs cs

basic-names :
    (scan : List ℕ) (rate : ℕ) → names_basic scan rate ≡ true → names_rate scan rate ≡ true
unfolding names_basic names_rate
basic-names [] rate h = absurd (ground arith)
basic-names (b ∷ bs) rate h = elim (Bool-cases (b % 128 == rate)) [
  | inl e ↦ rw e refl
  | inr e ↦ rw e (basic-names bs rate (ground (arith, h, e)))
]

map-IsWithin :
    (f g : ℕ → Bool) (xs : List ℕ)
    → ((x : ℕ) → f x ≡ true → g x ≡ true)
    → IsWithin (map f xs) (map g xs)
map-IsWithin f g [] h = tt
map-IsWithin f g (x ∷ xs) h = (h x, map-IsWithin f g xs h)

all-IsWithin : (f : ℕ → Bool) (xs : List ℕ) → IsWithin (map f xs) (replicate (length xs) true)
all-IsWithin f [] = tt
all-IsWithin f (x ∷ xs) = (λ h. refl, all-IsWithin f xs)

length-take_least :
    (n : ℕ) (xs : List ℕ) → length (take n xs) ≡ (if leb n (length xs) then n else length xs)
length-take_least zero xs = ground arith
length-take_least (suc n) [] = ground arith
length-take_least (suc n) (x ∷ xs) = ground (arith, length-take_least n xs)

masks-IsWithin :
    (none_named : Bool) (scan : List ℕ) (bitrates : Option (List ℕ))
    → IsWithin
        (mask_if (names_basic scan) bitrates)
        (if none_named then all_rates_if bitrates else mask_if (names_rate scan) bitrates)
masks-IsWithin true scan none = tt
masks-IsWithin false scan none = tt
masks-IsWithin true scan (some bitrates) =
    rw (sym (length-take_least 32 bitrates))
      (all-IsWithin (λ (b : ℕ). names_basic scan (rate_of b)) (take 32 bitrates))
masks-IsWithin false scan (some bitrates) =
    map-IsWithin (λ (b : ℕ). names_basic scan (rate_of b)) (λ (b : ℕ). names_rate scan (rate_of b))
      (take 32 bitrates) (λ b. basic-names scan (rate_of b))

-- Every rate that the mask of the basic rates has is in the mask of the supported rates, for any network
-- and hardware.
pub basic_rates_mask-IsWithin :
    (hw : Hw) (bss : ScanResult) → IsWithin (basic_rates_mask hw bss) (supported_rates_mask hw bss)
unfolding basic_rates_mask supported_rates_mask
basic_rates_mask-IsWithin hw bss =
    masks-IsWithin (length bss.ies == 0) (scan_rates bss.ies) (bitrates_of (current_band hw))
