-- ===== src/Usb/Drivers.antt =====
-- The drivers of usb.c: `usb_register_driver`, `usb_deregister`, `lcompat_usb_native_probe` and
-- `lcompat_usb_native_remove`. The host's registry is the list of the bindings that it was given.
pub mod Bindings
pub mod Freed
pub mod Removes
use lcompat.Base.{
  ℕ, zero, suc, ◌+◌, Bool, true, false, not, ◌&&◌, ◌||◌, Option, none, some, List, [], ◌∷◌, ◌++◌,
  Errno, einval, enomem, enodev, enospc, get_elem?, replicate, take, drop, length, ◌==◌,
  if◌then◌else◌,
}
use lcompat.Chain.Rep.{erase}
use lcompat.Usb.Descriptors.{Layout}
use lcompat.Usb.Wrappers.{UsbDeviceId, NativeDev, NativeIface, usb_match_one, UsbWrapper, usb_wrap}

-- `struct usb_driver`: its address, its table, and which of its functions it has.
pub record UsbDriver : Type 0 where
  pub ptr : ℕ
  pub id_table : List UsbDeviceId
  pub has_probe : Bool
  pub has_disconnect : Bool

-- `lcompat_usb_binding_t`
pub record Binding : Type 0 where
  pub used : Bool
  pub driver : UsbDriver

pub record Registry : Type 0 where
  pub bindings : List Binding
  pub registered : List ℕ

-- The loop of `usb_register_driver`: the first free binding is filled, and freed again without memory.
unfoldable pub bind_free :
    (i : ℕ) → List Binding → UsbDriver → (memory : Bool) → Option (ℕ × List Binding)
bind_free i [] d memory = none
bind_free i (b ∷ bs) d memory =
    let rest = bind_free (i + 1) bs d memory in
    if not b.used
    then some (i, record { used = memory; driver = d } ∷ bs)
    else (elim rest [ none ↦ none | some r ↦ some (r.0, b ∷ r.1) ])

-- The host is given the new binding.
unfoldable pub bound :
    Registry → (memory : Bool) → Option (ℕ × List Binding) → Option Errno × Registry
bound r memory none = (some enospc, r)
bound r memory (some (i, bs)) =
    if memory
    then (none, record { bindings = bs; registered = i ∷ r.registered })
    else (some enomem, record r { bindings = bs })

-- `usb_register_driver`; `memory` says whether `kzalloc` succeeds.
unfoldable pub usb_register_driver :
    Registry → UsbDriver → (memory : Bool) → Option Errno × Registry
unfolding bind_free bound
usb_register_driver r d memory =
    if not d.has_probe then (some einval, r) else bound r memory (bind_free 0 r.bindings d memory)

-- The loop of `usb_deregister`: the first used binding of the driver.
unfoldable pub unbind : (i : ℕ) → List Binding → (driver : ℕ) → Option (ℕ × List Binding)
unbind i [] driver = none
unbind i (b ∷ bs) driver =
    let rest = unbind (i + 1) bs driver in
    if b.used && b.driver.ptr == driver
    then some (i, record b { used = false } ∷ bs)
    else (elim rest [ none ↦ none | some r ↦ some (r.0, b ∷ r.1) ])

unfoldable pub usb_deregister : Registry → (driver : ℕ) → Registry
unfolding unbind
usb_deregister r driver = elim (unbind 0 r.bindings driver) [
  | none ↦ r
  | some u ↦ record { bindings = u.1; registered = erase u.0 r.registered }
]

-- What a probe comes to: an error, or the call of the driver's `probe` for a wrapper with an identifier.
pub data Probe : Type 0 where
  refused : Errno → Probe
  probing : (driver wrapper : ℕ) → UsbDeviceId → Probe

-- The part of `lcompat_usb_native_probe` behind the search for the binding.
unfoldable pub probe_with :
    Layout → UsbDriver → List UsbWrapper → NativeDev → NativeIface → Probe × List UsbWrapper
probe_with h d ws dev n = elim (usb_wrap h ws dev n) [
  | none ↦ (refused enomem, ws)
  | some w ↦ elim (usb_match_one d.id_table dev n) [
    | none ↦ (refused enodev, w.1)
    | some id ↦ (probing d.ptr w.0 id, w.1)
  ]
]

-- `lcompat_usb_native_probe`; `current` is the place of the binding whose driver the host probes, if
-- it is one of these.
unfoldable pub native_probe :
    Layout
    → List Binding
    → (current : Option ℕ) → List UsbWrapper
    → NativeDev
    → NativeIface
    → Probe × List UsbWrapper
unfolding probe_with
native_probe h bs none ws dev n = (refused einval, ws)
native_probe h bs (some i) ws dev n = elim (get_elem? bs i) [
  | none ↦ (refused einval, ws)
  | some b ↦
      if b.used && b.driver.has_probe then probe_with h b.driver ws dev n else (refused einval, ws)
]

-- The inner loop of `lcompat_usb_native_remove`: the drivers whose `disconnect` is called, at most one.
unfoldable pub disconnecting : List Binding → UsbWrapper → List ℕ
disconnecting [] w = []
disconnecting (b ∷ bs) w =
    let rest = disconnecting bs w in
    if not b.used || not b.driver.has_disconnect
    then rest
    else (elim (usb_match_one b.driver.id_table w.native_dev w.native_intf) [
      | none ↦ rest
      | some id ↦ b.driver.ptr ∷ []
    ])

-- The pipes that are not NULL.
unfoldable pub live_pipes : List ℕ → List ℕ
live_pipes [] = []
live_pipes (p ∷ ps) = if p == 0 then live_pipes ps else p ∷ live_pipes ps

-- The wrapper behind the loop over the pipes of its endpoints.
unfoldable pub released : UsbWrapper → UsbWrapper
released w = record w {
  used = false;
  attached = false;
  native_pipes = replicate (length w.endpoints) 0 ++ drop (length w.endpoints) w.native_pipes;
}

-- The table, the pipes that are freed, and the drivers that are disconnected.
pub record Removed : Type 0 where
  pub table : List UsbWrapper
  pub freed : List ℕ
  pub disconnected : List ℕ

-- `lcompat_usb_native_remove`
unfoldable pub native_remove : List Binding → List UsbWrapper → (dev : ℕ) → Removed
unfolding live_pipes released disconnecting
native_remove bs [] dev = record { table = []; freed = []; disconnected = [] }
native_remove bs (w ∷ ws) dev =
    let rest = native_remove bs ws dev in
    if not w.used || not (w.native_dev.ptr == dev)
    then record rest { table = w ∷ rest.table }
    else record {
      table = released w ∷ rest.table;
      freed = live_pipes (take (length w.endpoints) w.native_pipes) ++ rest.freed;
      disconnected = disconnecting bs w ++ rest.disconnected;
    }
