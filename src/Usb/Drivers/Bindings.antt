-- ===== src/Usb/Drivers/Bindings.antt =====
-- What a driver's registration takes, its end gives back.
use lcompat.Base.{
  ℕ, ◌+◌, ◌≡◌, refl, sym, ap, ◌∙◌, Bool, true, false, not, ◌&&◌, Option, none, some, List, [], ◌∷◌,
  arith, ◌==◌, if_false, Bool-cases, Option-cases, inl, inr,
}
use mathlib.Core.Option.{none-ne-some}
use lcompat.Chain.Rep.{erase}
use lcompat.Usb.Drivers.{
  UsbDriver, Binding, Registry, bind_free, bound, usb_register_driver, unbind, usb_deregister,
}

-- The driver has no binding.
abbrev pub IsAbsent : ℕ → List Binding → Type 0
IsAbsent ptr [] = Unit {0}
IsAbsent ptr (b ∷ bs) = ((b.used && b.driver.ptr == ptr) ≡ false) × IsAbsent ptr bs

abbrev pub flags : List Binding → List Bool
flags [] = []
flags (b ∷ bs) = b.used ∷ flags bs

-- The end of a registration that was made at the place `i`.
record Undone (i0 i : ℕ) (bs bs' : List Binding) (ptr : ℕ) : Type 0 where
  pub after : List Binding
  pub eq : unbind i0 bs' ptr ≡ some (i, after)
  pub same : flags after ≡ flags bs

Undone-here :
    (i0 i : ℕ) (b : Binding) (bs bs' : List Binding) (d : UsbDriver)
    → b.used ≡ false
    → i0 ≡ i
    → (record { used = true; driver = d } ∷ bs) ≡ bs'
    → Undone i0 i (b ∷ bs) bs' d.ptr
unfolding unbind
Undone-here i0 i b bs bs' d u ei eb =
    let t : (d.ptr == d.ptr) ≡ true = ground arith in
    rw (← ei, ← eb)
      (record {
        after = record { used = false; driver = d } ∷ bs;
        eq = rw t refl;
        same = ap (λ (f : Bool). f ∷ flags bs) (sym u);
      })

Undone-later :
    (i0 i : ℕ) (b : Binding) (bs bs' : List Binding) (ptr : ℕ)
    → (b.used && b.driver.ptr == ptr) ≡ false
    → Undone (i0 + 1) i bs bs' ptr
    → Undone i0 i (b ∷ bs) (b ∷ bs') ptr
unfolding unbind
Undone-later i0 i b bs bs' ptr miss o = record {
  after = b ∷ o.after;
  eq = rw (miss, o.eq) refl;
  same = ap (λ (l : List Bool). b.used ∷ l) o.same;
}

bind_free-Undone :
    (i0 i : ℕ) (bs bs' : List Binding) (d : UsbDriver)
    → IsAbsent d.ptr bs
    → bind_free i0 bs d true ≡ some (i, bs')
    → Undone i0 i bs bs' d.ptr
unfolding bind_free
bind_free-Undone i0 i [] bs' d a e = absurd (none-ne-some (i, bs') e)
bind_free-Undone i0 i (b ∷ bs) bs' d a e = elim (Bool-cases b.used) [
  | inr u ↦
      let k = rw u at e in
      let ei : i0 ≡ i = cc in
      let eb : record { used = true; driver = d } ∷ bs ≡ bs' = cc in
      Undone-here i0 i b bs bs' d u ei eb
  | inl u ↦ elim (Option-cases (bind_free (i0 + 1) bs d true)) [
    | inl n ↦ absurd (none-ne-some (i, bs') (rw (u, n) at e))
    | inr ((j, bs1), n) ↦
        let k = rw (u, n) at e in
        let ei : j ≡ i = cc in
        let eb : b ∷ bs1 ≡ bs' = cc in
        let ih = bind_free-Undone (i0 + 1) j bs bs1 d a.1 n in
        rw (← ei, ← eb) (Undone-later i0 j b bs bs1 d.ptr a.0 ih)
  ]
]

bound-undone :
    (r : Registry) (d : UsbDriver) (r' : Registry) (o : Option (ℕ × List Binding))
    → bind_free 0 r.bindings d true ≡ o
    → IsAbsent d.ptr r.bindings
    → bound r true o ≡ (none, r')
    → ((usb_deregister r' d.ptr).registered ≡ r.registered)
      × (flags (usb_deregister r' d.ptr).bindings ≡ flags r.bindings)
unfolding bound usb_deregister erase
bound-undone r d r' none e a k = absurd (ground arith)
bound-undone r d r' (some (i, bs)) e a k =
    let u = bind_free-Undone 0 i r.bindings bs d a e in
    let same : record { bindings = bs; registered = i ∷ r.registered } ≡ r' = cc in
    let t : (i == i) ≡ true = ground arith in
    rw (← same) (rw (usb_deregister, u.eq, t) (refl, u.same))

-- When a driver without a binding is registered with success, the end of its registration leaves the
-- host's registry as it was before, and the same bindings free.
pub usb_deregister-usb_register_driver :
    (r r' : Registry) (d : UsbDriver)
    → IsAbsent d.ptr r.bindings
    → usb_register_driver r d true ≡ (none, r')
    → ((usb_deregister r' d.ptr).registered ≡ r.registered)
      × (flags (usb_deregister r' d.ptr).bindings ≡ flags r.bindings)
unfolding usb_register_driver
usb_deregister-usb_register_driver r r' d a e = elim (Bool-cases d.has_probe) [
  | inl p ↦
      bound-undone r d r' (bind_free 0 r.bindings d true) refl a
        (sym (if_false (not d.has_probe) _ _ (ground (arith, p))) ∙ e)
  | inr p ↦ let k = rw p at e in absurd (ground arith)
]
