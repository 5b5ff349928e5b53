-- ===== src/Usb/Messages/Results.antt =====
-- What the caller of a bulk message is told.
use lcompat.Base.{
  ℕ, ◌≡◌, ◌≢◌, refl, Bool, true, false, not, ◌&&◌, none, some, List, [], ◌∷◌, arith, pos, negsuc,
  enoent, ltb, ◌==◌, if◌then◌else◌, Bool-cases, inl, inr,
}
use lcompat.Usb.{Status, fine, error, is_fine, int_eq, Codes, pipe_type, pipe_ctrl}
use lcompat.Usb.Descriptors.{Layout}
use lcompat.Usb.Wrappers.{NativeDev, NativeIface, UsbWrapper, Looked, get_native_pipe}
use lcompat.Usb.Messages.{sync_retlen, XferHost, xfer_on, sync_xfer, bulk_result, usb_bulk_msg}

-- A negative result of the host is an error, whatever the event codes are.
sync_retlen-bad :
    (c : Codes) (n size : ℕ)
    → (is_fine (bulk_result (sync_retlen c (negsuc n) size)).0 ≡ false)
      × ((bulk_result (sync_retlen c (negsuc n) size)).1 ≡ 0)
unfolding sync_retlen bulk_result
sync_retlen-bad c n size = elim (Bool-cases (int_eq (negsuc n) c.babble)) [
  | inl e ↦ rw e (refl, refl)
  | inr e ↦ elim (Bool-cases (int_eq (negsuc n) c.timeout)) [
    | inl f ↦ rw (e, f) (refl, refl)
    | inr f ↦ elim (Bool-cases (int_eq (negsuc n) c.event_error)) [
      | inl g ↦ rw (e, f, g) (refl, refl)
      | inr g ↦ elim (Bool-cases (ltb n 4)) [
        | inl l ↦ rw (e, f, g, l) (refl, refl)
        | inr l ↦ rw (e, f, g, l) (refl, refl)
      ]
    ]
  ]
]

free_none : (b : Bool) (ps : List ℕ) → [] ≡ (if b && not true then ps else [])
free_none true ps = refl
free_none false ps = refl

free_some : (b : Bool) (ps : List ℕ) → (if b then ps else []) ≡ (if b && not false then ps else [])
free_some true ps = refl
free_some false ps = refl

-- What a bulk message on the pipe `l` tells: its status with `actual_length`, and the pipes it frees.
pub record Told (l : Looked) (host : XferHost) (told : Status × ℕ) (freed : List ℕ) : Type 0 where
  pub missing : l.pipe ≡ 0 → told ≡ (error enoent, 0)
  pub done : (n : ℕ) → l.pipe ≢ 0 → host.answer ≡ pos n → told ≡ (fine, host.actual)
  pub failed : (n : ℕ) → host.answer ≡ negsuc n → (is_fine told.0 ≡ false) × (told.1 ≡ 0)
  pub freed_owned : freed ≡ (if l.owned && not (l.pipe == 0) then l.pipe ∷ [] else [])

xfer_on-Told :
    (c : Codes) (l : Looked) (size : ℕ) (host : XferHost)
    → Told l host (bulk_result (xfer_on c l size host).result) (xfer_on c l size host).freed
unfolding xfer_on bulk_result
xfer_on-Told c l size host = elim (Bool-cases (l.pipe == 0)) [
  | inl e ↦
      let z : l.pipe ≡ 0 = ground arith in
      record {
        missing = λ h. rw (xfer_on, e) refl;
        done = λ n nz h. absurd (nz z);
        failed = λ n h. rw (xfer_on, e) (refl, refl);
        freed_owned = rw (xfer_on, e) (free_none l.owned (l.pipe ∷ []));
      }
  | inr e ↦
      let nz : l.pipe ≢ 0 = ground arith in
      record {
        missing = λ h. absurd (nz h);
        done = λ n k h. rw (xfer_on, e, h) refl;
        failed = λ n h. rw (xfer_on, e, h) (sync_retlen-bad c n size);
        freed_owned = rw (xfer_on, e) (free_some l.owned (l.pipe ∷ []));
      }
]

-- A bulk message with a length that is not negative, on a pipe that is no control pipe, succeeds exactly
-- where a pipe is found and the host's result is not negative. Then `actual_length` is the length that the
-- host reports, also for the result 0; on every failure it is 0. A pipe is freed exactly where it was
-- allocated for this message.
pub usb_bulk_msg-Told :
    (h : Layout) (c : Codes) (ws : List UsbWrapper) (d : NativeDev) (ifaces : List NativeIface)
    (pipe len : ℕ) (host : XferHost)
    → (pipe_type pipe == pipe_ctrl) ≡ false
    → let l = get_native_pipe h ws d ifaces pipe none host.alloc in
      let (told, w) = usb_bulk_msg h c ws (some (d, ifaces)) pipe (pos len) host in
      Told l host told w.freed
unfolding usb_bulk_msg sync_xfer
usb_bulk_msg-Told h c ws d ifaces pipe len host t =
    let k = xfer_on-Told c (get_native_pipe h ws d ifaces pipe none host.alloc) len host in rw t k
