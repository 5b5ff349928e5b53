-- ===== src/Pci/Drivers/Unregistered.antt =====
-- What is left of a driver of pci.c that was registered and unregistered again.
use lcompat.Base.{
  ℕ, suc, ◌==◌, ◌≡◌, ◌≢◌, refl, sym, ap, ◌∙◌, Bool, true, false, ◌&&◌, Option, none, some, List, [],
  ◌∷◌, Errno, einval, enospc, arith, not, Bool-cases, Option-cases, inl, inr, if◌then◌else◌,
}
use mathlib.Core.Option.{none-ne-some}
use lcompat.Pci.{Native, Wrapper, match_one, wrap}
use lcompat.Pci.Drivers.{
  PciDriver, PciBinding, claim_binding, offer, done, Registration, unchanged, register_claimed,
  register_in, pci_register_driver, holds_driver, pci_unregister_driver, probe_driver, driver_at,
  pci_native_probe, called_or, first_bound, calls_with, pci_native_remove, pci_native_shutdown,
}

-- No used binding has the driver.
abbrev pub IsUnbound : ℕ → List PciBinding → Type 0
IsUnbound ptr [] = Unit {0}
IsUnbound ptr (b ∷ bs) = ((b.used && holds_driver b ptr) ≡ false) × IsUnbound ptr bs

-- The bindings after a driver was put at `i` and unregistered: it stands there, and is found by none.
record LeftBehind (d : PciDriver) (i : ℕ) (bs bs' : List PciBinding) : Type 0 where
  pub held : driver_at (pci_unregister_driver bs' d.ptr) i ≡ some d
  pub unseen :
      (has : PciDriver → Bool) (n : Native)
      → first_bound has (pci_unregister_driver bs' d.ptr) n ≡ first_bound has bs n

LeftBehind-here :
    (d : PciDriver) (b : PciBinding) (bs : List PciBinding)
    → b.used ≡ false
    → LeftBehind d 0 (b ∷ bs) (record { used = true; linux_driver = some d } ∷ bs)
unfolding pci_unregister_driver holds_driver driver_at first_bound
LeftBehind-here d b bs u =
    let t : (d.ptr == d.ptr) ≡ true = ground arith in
    record { held = rw t refl; unseen = λ has n. rw (t, u) refl }

first_bound-later :
    (has : PciDriver → Bool) (b : PciBinding) (bs bs' : List PciBinding) (n : Native)
    → first_bound has bs' n ≡ first_bound has bs n
    → first_bound has (b ∷ bs') n ≡ first_bound has (b ∷ bs) n
unfolding first_bound
first_bound-later has b bs bs' n = ap (λ (rest : Option (Option ℕ)).
    if b.used
    then (elim b.linux_driver [
      | none ↦ rest
      | some d ↦ if has d then called_or d.ptr (match_one d.id_table (some n)) rest else rest
    ])
    else rest)

LeftBehind-later :
    (d : PciDriver) (i : ℕ) (b : PciBinding) (bs bs' : List PciBinding)
    → (b.used && holds_driver b d.ptr) ≡ false
    → LeftBehind d i bs bs'
    → LeftBehind d (suc i) (b ∷ bs) (b ∷ bs')
unfolding pci_unregister_driver driver_at
LeftBehind-later d i b bs bs' miss l = record {
  held = rw miss l.held;
  unseen = λ has n.
      rw miss (first_bound-later has b bs (pci_unregister_driver bs' d.ptr) n (l.unseen has n));
}

claim_binding-LeftBehind :
    (d : PciDriver) (i : ℕ) (bs bs' : List PciBinding)
    → IsUnbound d.ptr bs
    → claim_binding bs d ≡ some (i, bs')
    → LeftBehind d i bs bs'
unfolding claim_binding
claim_binding-LeftBehind d i [] bs' a e = absurd (none-ne-some (i, bs') e)
claim_binding-LeftBehind d i (b ∷ bs) bs' a e = elim (Bool-cases b.used) [
  | inr u ↦
      let k = rw u at e in
      let ei : 0 ≡ i = cc in
      let eb : record { used = true; linux_driver = some d } ∷ bs ≡ bs' = cc in
      rw (← ei, ← eb) (LeftBehind-here d b bs u)
  | inl u ↦ elim (Option-cases (claim_binding bs d)) [
    | inl n ↦ absurd (none-ne-some (i, bs') (rw (u, n) at e))
    | inr ((j, bs1), n) ↦
        let k = rw (u, n) at e in
        let ei : suc j ≡ i = cc in
        let eb : b ∷ bs1 ≡ bs' = cc in
        let ih = claim_binding-LeftBehind d j bs bs1 a.1 n in
        rw (← ei, ← eb) (LeftBehind-later d j b bs bs1 a.0 ih)
  ]
]

register_claimed-bindings :
    (d : PciDriver) (host : ℕ) (ret : ℕ → ℕ) (ns : List Native) (bs : List PciBinding)
    (ws : List Wrapper) (r : Registration)
    → register_claimed d host ret ns bs ws ≡ some r
    → r.bindings ≡ bs
unfolding register_claimed
register_claimed-bindings d host ret ns bs ws r e = elim (Bool-cases (host == 0)) [
  | inr h ↦ let k = rw h at e in cc
  | inl h ↦ elim (Option-cases (offer d ret ns ws)) [
    | inl o ↦ absurd (none-ne-some r (rw (h, o) at e))
    | inr (o', o) ↦ let k = rw (h, o) at e in cc
  ]
]

unchanged-failed :
    (e : Errno) (bs : List PciBinding) (ws : List Wrapper) (r : Registration)
    → some (unchanged e bs ws) ≡ some r
    → r.answer ≢ done
unfolding unchanged
unchanged-failed e bs ws r k a = ground arith

calls_with-same :
    (has : PciDriver → Bool) (bs bs' : List PciBinding) (ws : List Wrapper) (n : Native)
    → first_bound has bs' n ≡ first_bound has bs n
    → calls_with has bs' ws n ≡ calls_with has bs ws n
unfolding calls_with
calls_with-same has bs bs' ws n = ap (λ (r : Option (Option ℕ)).
    elim (wrap ws (some n)) as (λ _. Option (Option ℕ × List Wrapper)) [
      | none ↦ some (none, ws)
      | some w ↦ elim r [ none ↦ none | some c ↦ some (c, w.1) ]
    ])

-- A registration that returns 0 has put the driver into a free binding.
register_in-claimed :
    (d : PciDriver) (host : ℕ) (ret : ℕ → ℕ) (ns : List Native) (bs : List PciBinding)
    (ws : List Wrapper) (r : Registration) (c : Option (ℕ × List PciBinding))
    → register_in d host ret ns bs ws c ≡ some r
    → r.answer ≡ done
    → (i : ℕ) × (c ≡ some (i, r.bindings))
unfolding register_in
register_in-claimed d host ret ns bs ws r none e a = absurd (unchanged-failed enospc bs ws r e a)
register_in-claimed d host ret ns bs ws r (some (i, bs')) e a =
    (i, rw (register_claimed-bindings d host ret ns bs' ws r e) refl)

registered-claimed :
    (d : PciDriver) (host : ℕ) (ret : ℕ → ℕ) (ns : List Native) (bs : List PciBinding)
    (ws : List Wrapper) (r : Registration)
    → pci_register_driver (some d) host ret ns bs ws ≡ some r
    → r.answer ≡ done
    → (i : ℕ) × (claim_binding bs d ≡ some (i, r.bindings))
unfolding pci_register_driver
registered-claimed d host ret ns bs ws r e a =
    let at = λ (p : Bool).
      if not p
      then some (unchanged einval bs ws)
      else register_in d host ret ns bs ws (claim_binding bs d) in
    elim (Bool-cases d.has_probe) [
      | inr h ↦ absurd (unchanged-failed einval bs ws r (sym (ap at h) ∙ e) a)
      | inl h ↦ register_in-claimed d host ret ns bs ws r (claim_binding bs d) (sym (ap at h) ∙ e) a
    ]

-- When a driver that had no binding has registered with the answer 0 and unregisters, the host's removal
-- and shutdown call the drivers that they called before its registration. But the binding keeps the
-- driver: a probe of the host by this binding goes on as if the driver were registered.
pub pci_unregister_driver-pci_register_driver :
    (d : PciDriver) (host : ℕ) (ret : ℕ → ℕ) (ns : List Native) (bs : List PciBinding)
    (ws : List Wrapper) (r : Registration) (table : List Wrapper) (n : Native)
    → IsUnbound d.ptr bs
    → pci_register_driver (some d) host ret ns bs ws ≡ some r
    → r.answer ≡ done
    → (i : ℕ) × (claim_binding bs d ≡ some (i, r.bindings))
      × (pci_native_probe (pci_unregister_driver r.bindings d.ptr) (some i) table n
          ≡ probe_driver (some d) table n)
      × (pci_native_remove (pci_unregister_driver r.bindings d.ptr) table n
          ≡ pci_native_remove bs table n)
      × (pci_native_shutdown (pci_unregister_driver r.bindings d.ptr) table n
          ≡ pci_native_shutdown bs table n)
unfolding pci_native_probe pci_native_remove pci_native_shutdown
pci_unregister_driver-pci_register_driver d host ret ns bs ws r table n a e answer =
    let (i, c) = registered-claimed d host ret ns bs ws r e answer in
    let l = claim_binding-LeftBehind d i bs r.bindings a c in
    (
      i,
      c,
      rw l.held refl,
      calls_with-same (λ x. x.has_remove) bs (pci_unregister_driver r.bindings d.ptr) table n
          (l.unseen (λ x. x.has_remove) n),
      calls_with-same (λ x. x.has_shutdown) bs (pci_unregister_driver r.bindings d.ptr) table n
          (l.unseen (λ x. x.has_shutdown) n),
    )
