-- ===== src/Usb/Drivers/Freed.antt =====
-- The pipes that `lcompat_usb_native_remove` frees are those of the wrappers of the device.
use lcompat.Base.{
  ℕ, zero, suc, ◌<◌, ◌≡◌, ◌≢◌, ◌⊎◌, refl, sym, true, false, not, ◌||◌, some, List, [], ◌∷◌, ◌++◌,
  arith, length, take, get_or, get_elem?, ◌==◌, Bool-cases, inl, inr,
}
use lcompat.Chain.Rep.{has}
use lcompat.Usb.Wrappers.{UsbWrapper}
use lcompat.Usb.Drivers.{Binding, live_pipes, native_remove}

has-append_left : (p : ℕ) (xs ys : List ℕ) → has p xs ≡ true → has p (xs ++ ys) ≡ true
unfolding has
has-append_left p [] ys h = absurd (ground arith)
has-append_left p (x ∷ xs) ys h = ground (arith, has-append_left p xs ys)

has-append_right : (p : ℕ) (xs ys : List ℕ) → has p ys ≡ true → has p (xs ++ ys) ≡ true
unfolding has
has-append_right p [] ys h = h
has-append_right p (x ∷ xs) ys h = ground (arith, has-append_right p xs ys h)

live_pipes-has :
    (p ep n : ℕ) (ps : List ℕ)
    → p ≢ 0
    → ep < n
    → get_or ps ep 0 ≡ p
    → has p (live_pipes (take n ps)) ≡ true
unfolding live_pipes has
live_pipes-has p ep zero ps nz l e = absurd (omega arith)
live_pipes-has p ep (suc n) [] nz l e = absurd (nz (sym e))
live_pipes-has p zero (suc n) (q ∷ ps) nz l e = ground arith
live_pipes-has p (suc ep) (suc n) (q ∷ ps) nz l e =
    ground (arith, live_pipes-has p ep n ps nz (omega arith) e)

pub removed-freed :
    (bs : List Binding) (ws : List UsbWrapper) (dev k ep p : ℕ) (w : UsbWrapper)
    → get_elem? ws k ≡ some w
    → w.used ≡ true
    → w.native_dev.ptr ≡ dev
    → ep < length w.endpoints
    → get_or w.native_pipes ep 0 ≡ p
    → p ≢ 0
    → has p (native_remove bs ws dev).freed ≡ true
unfolding native_remove
removed-freed bs [] dev k ep p w at u d l e nz = absurd (ground arith)
removed-freed bs (v ∷ ws) dev zero ep p w at u d l e nz =
    let same : w ≡ v = cc in
    let t : (not w.used || not (w.native_dev.ptr == dev)) ≡ false = ground (arith, u, d) in
    rw (← same) (
      rw t (
        has-append_left p (live_pipes (take (length w.endpoints) w.native_pipes))
          (native_remove bs ws dev).freed
          (live_pipes-has p ep (length w.endpoints) w.native_pipes nz l e)))
removed-freed bs (v ∷ ws) dev (suc k) ep p w at u d l e nz =
    let ih = removed-freed bs ws dev k ep p w at u d l e nz in
    elim (Bool-cases (not v.used || not (v.native_dev.ptr == dev))) [
      | inl t ↦ rw t ih
      | inr t ↦ rw t (
          has-append_right p (live_pipes (take (length v.endpoints) v.native_pipes))
            (native_remove bs ws dev).freed ih)
    ]

has-++ : (p : ℕ) (xs ys : List ℕ) → has p (xs ++ ys) ≡ true → (has p xs ≡ true) ⊎ (has p ys ≡ true)
unfolding has
has-++ p [] ys h = inr h
has-++ p (x ∷ xs) ys h = elim (Bool-cases (x == p)) [
  | inl e ↦ inl (ground (arith, e))
  | inr e ↦ elim (has-++ p xs ys (ground (arith, h, e))) [
    | inl g ↦ inl (ground (arith, g))
    | inr g ↦ inr g
  ]
]

live_pipes-only :
    (p n : ℕ) (ps : List ℕ)
    → has p (live_pipes (take n ps)) ≡ true
    → (ep : ℕ) × (ep < n) × (get_or ps ep 0 ≡ p) × (p ≢ 0)
unfolding live_pipes has
live_pipes-only p zero ps h = absurd (ground arith)
live_pipes-only p (suc n) [] h = absurd (ground arith)
live_pipes-only p (suc n) (q ∷ ps) h = elim (Bool-cases (q == 0)) [
  | inl z ↦
      let (ep, l, g, nz) = live_pipes-only p n ps (rw z at h) in (suc ep, omega (arith, l), g, nz)
  | inr z ↦
      let k = rw z at h in
      elim (Bool-cases (q == p)) [
        | inl e ↦ (0, omega arith, ground arith, ground arith)
        | inr e ↦
            let (ep, l, g, nz) = live_pipes-only p n ps (rw e at k) in
            (suc ep, omega (arith, l), g, nz)
      ]
]

-- A pipe of an endpoint of a wrapper of the device.
abbrev pub IsPipe : List UsbWrapper → (dev p : ℕ) → Type 0
IsPipe ws dev p =
    (k : ℕ) × (w : UsbWrapper) × (ep : ℕ) × (get_elem? ws k ≡ some w)
    × (w.used ≡ true)
    × (w.native_dev.ptr ≡ dev)
    × (ep < length w.endpoints)
    × (get_or w.native_pipes ep 0 ≡ p)
    × (p ≢ 0)

pub freed-IsPipe :
    (bs : List Binding) (ws : List UsbWrapper) (dev p : ℕ)
    → has p (native_remove bs ws dev).freed ≡ true
    → IsPipe ws dev p
unfolding native_remove has
freed-IsPipe bs [] dev p h = absurd (ground arith)
freed-IsPipe bs (w ∷ ws) dev p h = elim (Bool-cases (not w.used || not (w.native_dev.ptr == dev))) [
  | inl t ↦
      let (k, v, ep, g0, g1, g2, g3, g4, g5) = freed-IsPipe bs ws dev p (rw t at h) in
      (suc k, v, ep, g0, g1, g2, g3, g4, g5)
  | inr t ↦
      elim (has-++ p (live_pipes (take (length w.endpoints) w.native_pipes))
        (native_remove bs ws dev).freed (rw t at h)) [
          | inl g ↦
              let (ep, l, e, nz) = live_pipes-only p (length w.endpoints) w.native_pipes g in
              (0, w, ep, refl, ground (arith, t), ground (arith, t), l, e, nz)
          | inr g ↦
              let (k, v, ep, g0, g1, g2, g3, g4, g5) = freed-IsPipe bs ws dev p g in
              (suc k, v, ep, g0, g1, g2, g3, g4, g5)
        ]
]
