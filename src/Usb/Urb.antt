-- ===== src/Usb/Urb.antt =====
-- A URB and what is done to it while it goes through a transfer: `lcompat_usb_urb_data_len`,
-- `lcompat_usb_prepare_urb_buffer`, `lcompat_usb_submit_native_urb`, and the parts of
-- `lcompat_usb_urb_complete` that concern the URB alone.
pub mod Lengths
use lcompat.Base.{
  ℕ, ◌+◌, ◌-◌, ◌%◌, Bool, true, false, not, ◌&&◌, ◌||◌, Option, none, some, List, [], ◌∷◌, ◌++◌,
  length, take, drop, einval, enomem, eoverflow, einprogress, ℤ, pos, negsuc, ltb, ◌==◌,
  if◌then◌else◌,
}
use lcompat.Base.Words.{u32_mod, add_u32, sub_u32}
use lcompat.Usb.{
  Status, fine, error, raw, is_fine, Outcome, ret, bad, of_int, int_eq, Codes, urb_status,
  pipe_dir_in,
}
use lcompat.Usb.Sg.{Sg, sg_total_len, sg_copy_from_urb, sg_copy_to_urb}

-- The host's `usb_pipe_t`.
pub record NativePipe : Type 0 where
  pub ptr : ℕ
  pub maxpacket : ℕ

-- `struct urb`, and below `has_state` its `lcompat_usb_urb_state_t` at `hcpriv`. `freed` is set by
-- `kfree`.
pub record Urb : Type 0 where
  pub has_dev : Bool
  pub pipe : ℕ
  pub has_buffer : Bool
  pub transfer_buffer_length : ℤ
  pub actual_length : ℕ
  pub status : Status
  pub zero_packet : Bool
  pub has_complete : Bool
  pub sg : List Sg
  pub submitted : Bool
  pub killed : Bool
  pub refcount : ℕ
  pub freed : Bool
  pub has_state : Bool
  pub native_pipe : Option NativePipe
  pub owns_pipe : Bool
  pub completed_length : ℕ
  pub submitted_length : ℕ
  pub submitted_sg : Bool
  pub zlp_pending : Bool
  pub sg_buffer : List ℕ
  pub sg_buffer_len : ℕ
  pub queued : Bool

unfoldable pub has_sg : List Sg → Bool
has_sg [] = false
has_sg (s ∷ ss) = true

-- The length of a transfer with a scatter list of `total` bytes.
unfoldable pub sg_data_len : (buffer_length : ℤ) (total : ℕ) → Outcome ℕ
sg_data_len (negsuc n) total = ret total
sg_data_len (pos n) total =
    if n == 0 then ret total else if ltb total n then bad (error einval) else ret n

-- `lcompat_usb_urb_data_len`
unfoldable pub urb_data_len : Urb → Outcome ℕ
unfolding has_sg sg_data_len
urb_data_len u =
    if not (has_sg u.sg) then of_int u.transfer_buffer_length else (elim (sg_total_len u.sg) [
      | bad e ↦ bad e
      | ret total ↦ sg_data_len u.transfer_buffer_length total
    ])

-- A larger bounce buffer where it is needed; `memory` is what `krealloc` returns, none for NULL.
unfoldable pub grow_buffer : Urb → (len : ℕ) → (memory : Option (List ℕ)) → Outcome Urb
grow_buffer u len none = if ltb u.sg_buffer_len len then bad (error enomem) else ret u
grow_buffer u len (some bytes) =
    if ltb u.sg_buffer_len len
    then ret (record u { sg_buffer = bytes; sg_buffer_len = len })
    else ret u

-- The bounce buffer after a gathering copy of `len` bytes.
unfoldable pub gathered : Urb → (len : ℕ) → Outcome (List ℕ) → Outcome ℕ × Urb
gathered u len (bad e) = (bad e, u)
gathered u len (ret bytes) = (ret len, record u { sg_buffer = bytes ++ drop len u.sg_buffer })

-- The gathering copy into the bounce buffer, for a transfer out. The buffer is NULL while it has no
-- bytes.
unfoldable pub fill_buffer : Urb → (len : ℕ) → Outcome ℕ × Urb
unfolding gathered
fill_buffer u len =
    if pipe_dir_in u.pipe
    then (ret len, u)
    else if u.sg_buffer_len == 0
    then (bad (error einval), u)
    else gathered u len (sg_copy_from_urb u.sg len)

-- The rest of a preparation whose length is accepted, and what follows the growing of the buffer.
unfoldable pub grown : Urb → (len : ℕ) → Outcome Urb → Outcome ℕ × Urb
unfolding fill_buffer
grown u len (bad e) = (bad e, u)
grown u len (ret u2) = fill_buffer u2 len

unfoldable pub prepared : Urb → (memory : Option (List ℕ)) → Outcome ℕ → Outcome ℕ × Urb
unfolding has_sg grow_buffer grown
prepared u memory (bad e) = (bad e, u)
prepared u memory (ret len) =
    let u1 = record u { submitted_length = len; submitted_sg = has_sg u.sg } in
    if not (has_sg u.sg) then (ret len, u1) else grown u1 len (grow_buffer u1 len memory)

-- `lcompat_usb_prepare_urb_buffer`: the length, or an error
unfoldable pub prepare_urb_buffer : Urb → (memory : Option (List ℕ)) → Outcome ℕ × Urb
unfolding urb_data_len prepared
prepare_urb_buffer u memory = prepared u memory (urb_data_len u)

-- `lcompat_usb_submit_native_urb`; `answer` is what `usb_submit_xfer` returns
unfoldable pub submit_on : Option NativePipe → Urb → (len : ℕ) → (answer : ℤ) → Outcome ℕ × Urb
submit_on none u len answer = (bad (error einval), u)
submit_on (some p) u len answer = (of_int answer, record u { submitted_length = len })

unfoldable pub submit_native_urb : Urb → (len : ℕ) → (answer : ℤ) → Outcome ℕ × Urb
unfolding submit_on
submit_native_urb u len answer = submit_on u.native_pipe u len answer

-- The host's part in the start of a transfer.
pub record StartHost : Type 0 where
  pub memory : Option (List ℕ)
  pub answer : ℤ

-- Preparing the buffer and handing the transfer to the host, as `usb_submit_urb` and
-- `lcompat_usb_urb_complete` do it.
unfoldable pub submit_prepared : Outcome ℕ × Urb → (answer : ℤ) → Outcome ℕ × Urb
unfolding submit_native_urb
submit_prepared (bad e, u) answer = (bad e, u)
submit_prepared (ret n, u) answer = submit_native_urb u n answer

unfoldable pub start_urb : Urb → StartHost → Outcome ℕ × Urb
unfolding prepare_urb_buffer submit_prepared
start_urb u host = submit_prepared (prepare_urb_buffer u host.memory) host.answer

-- The start of a completion: the status, and the length within what was asked for.
unfoldable pub capped : Codes → Urb → (code : ℤ) (actual : ℕ) → Status × ℕ
unfolding urb_status
capped c u code actual =
    let s = urb_status c code in
    if is_fine s && ltb u.submitted_length actual
    then (error eoverflow, u.submitted_length)
    else (s, actual)

-- Whether a packet of length zero has to follow.
unfoldable pub needs_zlp : Urb → Status → (actual : ℕ) → Bool
needs_zlp u s actual = elim u.native_pipe [
  | none ↦ false
  | some p ↦
      is_fine s
      && not (pipe_dir_in u.pipe)
      && u.zero_packet
      && ltb 0 actual
      && int_eq u.transfer_buffer_length (pos actual)
      && ltb 0 p.maxpacket
      && actual % p.maxpacket == 0
]

-- The status and length after the packet of length zero is behind it, or needs none; none where it
-- has been handed to the host with success, and the completion is to wait for it.
unfoldable pub after_zlp : Codes → Urb → Status × ℕ → (answer : ℤ) → Option (Status × ℕ) × Urb
unfolding needs_zlp urb_status
after_zlp c u (s, actual) answer =
    if u.zlp_pending
    then (some (s, u.completed_length), record u { zlp_pending = false })
    else if needs_zlp u s actual
    then (let u1 = record u { completed_length = actual; submitted_length = 0 } in
        if int_eq answer (pos 0)
        then (none, record u1 { zlp_pending = true })
        else (some (urb_status c answer, actual), u1))
    else (some (s, actual), u)

-- The bytes that came in go to the scatter list; `bytes` is what the host has put into the bounce buffer.
unfoldable pub deliver : Urb → Status × ℕ → (bytes : List ℕ) → Status × Urb
deliver u (s, actual) bytes =
    if not (is_fine s && pipe_dir_in u.pipe && ltb 0 actual && u.submitted_sg)
    then (s, u)
    else if u.sg_buffer_len == 0
    then (error einval, u)
    else (let (s', ss) = sg_copy_to_urb u.sg bytes actual in
        (s', record u { sg = ss; sg_buffer = bytes }))

-- `usb_free_urb`
unfoldable pub usb_free_urb : Urb → Urb
usb_free_urb u =
    let refs = sub_u32 u.refcount 1 in record u { refcount = refs; freed = u.freed || refs == 0 }
