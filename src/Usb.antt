-- ===== src/Usb.antt =====
-- usb.c and include/linux/usb.h: what the transfers of a USB driver go through. This file has the
-- encoding of pipes, the status of a transfer and the scatter list; the children have the rest. An `int`
-- that is negative on an error is an Outcome. What only the host defines (its event codes, the sizes of
-- its descriptors) is an argument.
pub mod Sg
pub mod Pipes
pub mod Urb
pub mod Bus
pub mod Events
pub mod Descriptors
pub mod Wrappers
pub mod Drivers
pub mod Messages
use lcompat.Base.{
  ℕ, ◌+◌, ◌-◌, ◌*◌, ◌/◌, ◌%◌, ◌^◌, Bool, true, false, not, ◌||◌, ◌&&◌, Errno, einval, epipe,
  eoverflow, etimedout, eproto, eio, ℤ, pos, negsuc, ltb, ◌==◌, if◌then◌else◌,
}
use Prim.Native.Nat.{bit_or}

-- The `int status` of a URB: 0, an error of the code's own, or the negative number -(n + 1) of the host.
pub data Status : Type 0 where
  fine : Status
  error : Errno → Status
  raw : ℕ → Status

-- A result that is negative exactly on an error.
pub data Outcome {ℓ} (A : Type ℓ) : Type ℓ where
  ret : A → Outcome A
  bad : Status → Outcome A

abbrev pub is_fine : Status → Bool
is_fine fine = true
is_fine (error e) = false
is_fine (raw n) = false

-- An `int` as the result of a call.
abbrev pub of_int : ℤ → Outcome ℕ
of_int (pos n) = ret n
of_int (negsuc n) = bad (raw n)

abbrev pub int_eq : ℤ → ℤ → Bool
int_eq (pos m) (pos n) = m == n
int_eq (pos m) (negsuc n) = false
int_eq (negsuc m) (pos n) = false
int_eq (negsuc m) (negsuc n) = m == n

-- The host's event codes, EVENT_SUCCESS to EVENT_ERROR.
pub record Codes : Type 0 where
  pub success : ℤ
  pub short_packet : ℤ
  pub stall : ℤ
  pub babble : ℤ
  pub timeout : ℤ
  pub event_error : ℤ

-- `lcompat_usb_urb_status`
unfoldable pub urb_status : Codes → ℤ → Status
urb_status c s =
    if int_eq s c.success || int_eq s c.short_packet
    then fine
    else if int_eq s c.stall
    then error epipe
    else if int_eq s c.babble
    then error eoverflow
    else if int_eq s c.timeout
    then error etimedout
    else if int_eq s c.event_error
    then error eproto
    else (elim s [ pos n ↦ error eio | negsuc n ↦ raw n ])

-- `__LCOMPAT_USB_PIPE` and the types of pipes
abbrev pub pipe_ctrl : ℕ
pipe_ctrl = 0

abbrev pub pipe_bulk : ℕ
pipe_bulk = 1

abbrev pub pipe_int : ℕ
pipe_int = 2

unfoldable pub usb_pipe : (ep : ℕ) (dir : Bool) (type : ℕ) → ℕ
usb_pipe ep dir type = bit_or (bit_or (type % 256 * 2 ^ 16) (ep % 256)) (if dir then 128 else 0)

-- `lcompat_usb_pipe_ep`, `lcompat_usb_pipe_type`, `lcompat_usb_pipe_dir_in`
unfoldable pub pipe_ep : ℕ → ℕ
pipe_ep pipe = pipe % 256

unfoldable pub pipe_type : ℕ → ℕ
pipe_type pipe = pipe / 2 ^ 16 % 256

unfoldable pub pipe_dir_in : ℕ → Bool
pipe_dir_in pipe = pipe / 128 % 2 == 1
