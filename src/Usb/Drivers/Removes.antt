-- ===== src/Usb/Drivers/Removes.antt =====
-- The end of a device.
use lcompat.Base.{
  ℕ, zero, suc, ◌+◌, ◌<◌, ◌≡◌, ◌≢◌, ◌⊎◌, ◌↔◌, refl, true, false, not, ◌&&◌, ◌||◌, none, some, List,
  [], ◌∷◌, ◌++◌, arith, length, get_or, get_elem?, replicate, ◌==◌, Bool-cases, inl, inr,
}
use lcompat.Chain.Rep.{has}
use lcompat.Usb.{pipe_type, pipe_ctrl}
use lcompat.Usb.Descriptors.{Layout}
use lcompat.Usb.Wrappers.{NativeDev, NativeIface, UsbWrapper, find_wrapped, Target, get_native_pipe}
use lcompat.Usb.Drivers.Freed.{IsPipe, removed-freed, freed-IsPipe}
use lcompat.Usb.Drivers.{Binding, released, native_remove}

module _ (bs : List Binding) (dev : ℕ) where
  remove-gone :
      (ws : List UsbWrapper) (i intf : ℕ)
      → find_wrapped i (native_remove bs ws dev).table dev intf ≡ none
  unfolding native_remove find_wrapped
  remove-gone [] i intf = refl
  remove-gone (w ∷ ws) i intf = elim (Bool-cases (not w.used || not (w.native_dev.ptr == dev))) [
    | inl e ↦
        let miss : (w.used && w.native_dev.ptr == dev && w.native_intf.ptr == intf) ≡ false =
          ground (arith, e) in
        rw (e, miss) (remove-gone ws (i + 1) intf)
    | inr e ↦ rw e (remove-gone ws (i + 1) intf)
  ]

  remove-once :
      (ws : List UsbWrapper) → (native_remove bs (native_remove bs ws dev).table dev).freed ≡ []
  unfolding native_remove
  remove-once [] = refl
  remove-once (w ∷ ws) = elim (Bool-cases (not w.used || not (w.native_dev.ptr == dev))) [
    | inl e ↦ rw (e, native_remove, e) (remove-once ws)
    | inr e ↦ rw e (remove-once ws)
  ]

zeros : (n ep : ℕ) (ps : List ℕ) → ep < n → get_or (replicate n 0 ++ ps) ep 0 ≡ 0
zeros zero ep ps l = absurd (omega arith)
zeros (suc n) zero ps l = refl
zeros (suc n) (suc ep) ps l = zeros n ep ps (omega arith)

-- A wrapper that is given back: it is free, and has no pipe for an endpoint.
pub record IsFree (w w' : UsbWrapper) : Type 0 where
  pub used : w'.used ≡ false
  pub attached : w'.attached ≡ false
  pub pipes : (ep : ℕ) → ep < length w.endpoints → get_or w'.native_pipes ep 0 ≡ 0

module _ (bs : List Binding) (dev : ℕ) where
  remove-kept :
      (ws : List UsbWrapper) (k : ℕ) (w : UsbWrapper)
      → get_elem? ws k ≡ some w
      → (w.used ≡ false) ⊎ (w.native_dev.ptr ≢ dev)
      → get_elem? (native_remove bs ws dev).table k ≡ some w
  unfolding native_remove
  remove-kept [] k w e o = e
  remove-kept (v ∷ ws) zero w e o =
      let same : w ≡ v = cc in
      let t : (not w.used || not (w.native_dev.ptr == dev)) ≡ true = ground (arith, o) in
      let t' : (not v.used || not (v.native_dev.ptr == dev)) ≡ true = rw same at t in rw t' e
  remove-kept (v ∷ ws) (suc k) w e o =
      elim (Bool-cases (not v.used || not (v.native_dev.ptr == dev))) [
        | inl t ↦ rw t (remove-kept ws k w e o)
        | inr t ↦ rw t (remove-kept ws k w e o)
      ]

  remove-IsFree :
      (ws : List UsbWrapper) (k : ℕ) (w : UsbWrapper)
      → get_elem? ws k ≡ some w
      → w.used ≡ true
      → w.native_dev.ptr ≡ dev
      → (w' : UsbWrapper) × (get_elem? (native_remove bs ws dev).table k ≡ some w') × IsFree w w'
  unfolding native_remove released
  remove-IsFree [] k w e u d = absurd (ground arith)
  remove-IsFree (v ∷ ws) zero w e u d =
      let same : w ≡ v = cc in
      let t : (not w.used || not (w.native_dev.ptr == dev)) ≡ false = ground (arith, u, d) in
      let t' : (not v.used || not (v.native_dev.ptr == dev)) ≡ false = rw same at t in
      let w' = released w in
      rw t' (
        released v,
        refl,
        rw same (record {
          used = refl;
          attached = refl;
          pipes = λ ep l. zeros (length v.endpoints) ep _ l;
        }),
      )
  remove-IsFree (v ∷ ws) (suc k) w e u d =
      elim (Bool-cases (not v.used || not (v.native_dev.ptr == dev))) [
        | inl t ↦ rw t (remove-IsFree ws k w e u d)
        | inr t ↦ rw t (remove-IsFree ws k w e u d)
      ]

-- What is left when a device is gone. Its wrappers are free, all others are as they were; what is freed are
-- the pipes of its wrappers.
pub record Cleared (bs : List Binding) (ws : List UsbWrapper) (dev : ℕ) : Type 0 where
  pub gone : (intf : ℕ) → find_wrapped 0 (native_remove bs ws dev).table dev intf ≡ none
  pub free :
      (k : ℕ) (w : UsbWrapper)
      → get_elem? ws k ≡ some w
      → w.used ≡ true
      → w.native_dev.ptr ≡ dev
      → (w' : UsbWrapper) × (get_elem? (native_remove bs ws dev).table k ≡ some w') × IsFree w w'
  pub kept :
      (k : ℕ) (w : UsbWrapper)
      → get_elem? ws k ≡ some w
      → (w.used ≡ false) ⊎ (w.native_dev.ptr ≢ dev)
      → get_elem? (native_remove bs ws dev).table k ≡ some w
  pub freed : (p : ℕ) → (has p (native_remove bs ws dev).freed ≡ true) ↔ IsPipe ws dev p
  pub once : (native_remove bs (native_remove bs ws dev).table dev).freed ≡ []

-- `lcompat_usb_native_remove` frees exactly the pipes that the used wrappers of the device have for their
-- endpoints. These wrappers are free then and have no pipe, so that no interface of the device has a wrapper,
-- every other wrapper is as it was, and a second call frees no pipe again.
pub native_remove-Cleared : (bs : List Binding) (ws : List UsbWrapper) (dev : ℕ) → Cleared bs ws dev
native_remove-Cleared bs ws dev = record {
  gone = remove-gone bs dev ws 0;
  free = remove-IsFree bs dev ws;
  kept = remove-kept bs dev ws;
  freed = λ p. (
    freed-IsPipe bs ws dev p,
    λ (k, w, ep, at, u, d, l, e, nz). removed-freed bs ws dev k ep p w at u d l e nz,
  );
  once = remove-once bs dev ws;
}

-- A URB keeps the pipe that it was given for an endpoint when the device is removed: the pipe is freed, and
-- the next submission of the URB, for whatever device and pipe but a control pipe, is given this pipe.
pub removed_pipe_is_used :
    (h : Layout) (bs : List Binding) (ws : List UsbWrapper) (dev k ep p : ℕ) (w : UsbWrapper)
    (d : NativeDev) (ifaces : List NativeIface) (pipe alloc : ℕ) (st : Target)
    → get_elem? ws k ≡ some w
    → w.used ≡ true
    → w.native_dev.ptr ≡ dev
    → ep < length w.endpoints
    → get_or w.native_pipes ep 0 ≡ p
    → p ≢ 0
    → st.native_pipe ≡ p
    → (pipe_type pipe == pipe_ctrl) ≡ false
    → (has p (native_remove bs ws dev).freed ≡ true)
      × ((get_native_pipe h (native_remove bs ws dev).table d ifaces pipe (some st) alloc).pipe ≡ p)
unfolding get_native_pipe
removed_pipe_is_used h bs ws dev k ep p w d ifaces pipe alloc st at u wd l e nz s c =
    let t : (not (st.native_pipe == 0)) ≡ true = ground (arith, s) in
    (removed-freed bs ws dev k ep p w at u wd l e nz, rw (get_native_pipe, c, t) s)
