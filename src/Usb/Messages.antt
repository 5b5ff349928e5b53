-- ===== src/Usb/Messages.antt =====
-- Transfers that wait: `lcompat_usb_sync_xfer`, `usb_control_msg` and `usb_bulk_msg`. What the host does
-- in `usb_submit_xfer` is an argument: its result, and the length that it writes to `actual`.
pub mod Results
use lcompat.Base.{
  ℕ, zero, suc, ◌+◌, ◌*◌, ◌^◌, ◌-◌, Bool, true, false, not, ◌&&◌, ◌||◌, Option, none, some, List,
  [], ◌∷◌, Errno, einval, enodev, enoent, eoverflow, etimedout, eproto, eio, ℤ, pos, negsuc, ltb,
  ◌==◌, if◌then◌else◌,
}
use lcompat.Usb.{
  Status, fine, error, raw, Outcome, ret, bad, int_eq, Codes, pipe_type, pipe_ctrl, pipe_dir_in,
}
use lcompat.Usb.Descriptors.{Layout}
use lcompat.Usb.Wrappers.{NativeDev, NativeIface, UsbWrapper, Looked, get_native_pipe}

-- `lcompat_usb_sync_retlen`
unfoldable pub sync_retlen : Codes → ℤ → (expected_len : ℕ) → Outcome ℕ
sync_retlen c r expected_len =
    if int_eq r c.babble
    then bad (error eoverflow)
    else if int_eq r c.timeout
    then bad (error etimedout)
    else if int_eq r c.event_error
    then bad (error eproto)
    else (elim r [
      | negsuc n ↦ if ltb n 4 then bad (error eio) else bad (raw n)
      | pos n ↦ if n == 0 then ret expected_len else ret n
    ])

-- The host's part in a transfer.
pub record XferHost : Type 0 where
  pub alloc : ℕ
  pub answer : ℤ
  pub actual : ℕ

-- What a transfer that waits comes to: its result, the table, and the pipes that are freed.
pub record Waited : Type 0 where
  pub result : Outcome ℕ
  pub table : List UsbWrapper
  pub freed : List ℕ

-- The transfer on the pipe that was found.
unfoldable pub xfer_on : Codes → Looked → (size : ℕ) → XferHost → Waited
unfolding sync_retlen
xfer_on c l size host =
    if l.pipe == 0
    then record { result = bad (error enoent); table = l.table; freed = [] }
    else record {
      result = elim host.answer [
        | negsuc n ↦ sync_retlen c (negsuc n) size
        | pos n ↦ ret host.actual
      ];
      table = l.table;
      freed = if l.owned then l.pipe ∷ [] else [];
    }

-- `lcompat_usb_sync_xfer`; the device is none where it is NULL. A control transfer takes the default
-- pipe as it is.
unfoldable pub sync_xfer :
    Layout
    → Codes
    → List UsbWrapper
    → Option (NativeDev × List NativeIface)
    → (pipe size : ℕ) → XferHost
    → Waited
unfolding xfer_on
sync_xfer h c ws none pipe size host = record {
  result = bad (error enodev);
  table = ws;
  freed = [];
}
sync_xfer h c ws (some (d, ifaces)) pipe size host =
    if pipe_type pipe == pipe_ctrl
    then record {
      result = elim host.answer [
        | negsuc n ↦ sync_retlen c (negsuc n) size
        | pos n ↦ ret host.actual
      ];
      table = ws;
      freed = [];
    }
    else xfer_on c (get_native_pipe h ws d ifaces pipe none host.alloc) size host

-- `usb_control_msg`: the result of the transfer.
unfoldable pub usb_control_msg :
    Layout
    → Codes
    → List UsbWrapper
    → Option (NativeDev × List NativeIface)
    → (pipe size : ℕ) → XferHost
    → Waited
unfolding sync_xfer
usb_control_msg h c ws dev pipe size host = sync_xfer h c ws dev pipe size host

-- What `usb_bulk_msg` returns and writes to `actual_length`: 0 is written first.
unfoldable pub bulk_result : Outcome ℕ → Status × ℕ
bulk_result (bad e) = (e, 0)
bulk_result (ret n) = (fine, n)

-- `usb_bulk_msg` with a length that may be negative.
unfoldable pub usb_bulk_msg :
    Layout
    → Codes
    → List UsbWrapper
    → Option (NativeDev × List NativeIface)
    → (pipe : ℕ) (len : ℤ) → XferHost
    → (Status × ℕ) × Waited
unfolding sync_xfer bulk_result
usb_bulk_msg h c ws none pipe len host =
    ((error einval, 0), record { result = bad (error einval); table = ws; freed = [] })
usb_bulk_msg h c ws (some dev) pipe (negsuc n) host =
    ((error einval, 0), record { result = bad (error einval); table = ws; freed = [] })
usb_bulk_msg h c ws (some dev) pipe (pos len) host =
    let w = sync_xfer h c ws (some dev) pipe len host in (bulk_result w.result, w)
