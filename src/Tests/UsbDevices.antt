-- ===== src/Tests/UsbDevices.antt =====
-- USB: a device with two endpoints, its wrapper, its pipes and a driver.
use lcompat.Base.{
  ℕ, ◌≡◌, ◌⊎◌, refl, true, false, Option, none, some, List, [], ◌∷◌, arith, take, get_elem?, pos,
}
use lcompat.Chain.Rep.{has}
use lcompat.Usb.{pipe_type, pipe_ep, pipe_dir_in}
use lcompat.Usb.Descriptors.{collect_endpoints, find_wrapper_ep_index, find_ep_in_iface}
use lcompat.Usb.Descriptors.Bounds.{Collected, collect_endpoints-Collected}
use lcompat.Usb.Descriptors.Agree.{find_wrapper_ep_index-find_ep_in_iface}
use lcompat.Usb.Wrappers.{shared_target, find_wrapper_for_pipe, get_native_pipe}
use lcompat.Usb.Wrappers.Shared.{get_native_pipe-shared}
use lcompat.Usb.Drivers.{Registry, native_remove, usb_register_driver, usb_deregister}
use lcompat.Usb.Drivers.Bindings.{flags, usb_deregister-usb_register_driver}
use lcompat.Usb.Drivers.Removes.{Cleared, native_remove-Cleared, removed_pipe_is_used}
use lcompat.Usb.Messages.{XferHost, usb_bulk_msg}
use lcompat.Usb.Messages.Results.{Told, usb_bulk_msg-Told}
use lcompat.Samples.Transfers.{
  codes, usb_layout, endpoint_bytes, two_endpoints, usb_dev, usb_wrapper, piped_wrapper, no_target,
  usb_driver, free_binding, empty_registry,
}

-- The bulk pipe out of the endpoint 2.
abbrev out_pipe : ℕ
out_pipe = 65538

collect_endpoints-Collected_example : Collected (collect_endpoints usb_layout endpoint_bytes)
collect_endpoints-Collected_example = collect_endpoints-Collected usb_layout endpoint_bytes

find_wrapper_ep_index-find_ep_in_iface_example :
    ((find_wrapper_ep_index out_pipe two_endpoints ≡ none)
      × ((ss : Option (List ℕ)) × (find_ep_in_iface usb_layout out_pipe endpoint_bytes
            ≡ some (none, ss))))
    ⊎ ((i : ℕ) × (m : List ℕ) × (ss : Option (List ℕ)) × (find_wrapper_ep_index out_pipe
            two_endpoints
          ≡ some i)
        × (find_ep_in_iface usb_layout out_pipe endpoint_bytes ≡ some (some m, ss))
        × (get_elem? two_endpoints i ≡ some (take 7 m)))
unfolding collect_endpoints
find_wrapper_ep_index-find_ep_in_iface_example =
    find_wrapper_ep_index-find_ep_in_iface usb_layout out_pipe endpoint_bytes two_endpoints refl
      refl (omega arith)

get_native_pipe-shared_example :
    let one =
      get_native_pipe usb_layout (usb_wrapper ∷ []) usb_dev [] out_pipe (some no_target) 900 in
    let two = get_native_pipe usb_layout one.table usb_dev [] out_pipe (some no_target) 950 in
    (two.pipe ≡ one.pipe)
    × (two.table ≡ one.table)
    × (two.target ≡ one.target)
    × (one.target ≡ some (shared_target 0 1 one.pipe))
    × (two.owned ≡ false)
unfolding find_wrapper_for_pipe get_native_pipe find_wrapper_ep_index find_ep_in_iface pipe_type
    pipe_ep pipe_dir_in
get_native_pipe-shared_example =
    get_native_pipe-shared usb_layout (usb_wrapper ∷ []) usb_dev [] out_pipe 900 950 0 1 no_target
      no_target usb_wrapper refl refl refl refl (omega arith) (λ h. ground arith)

native_remove-Cleared_example : Cleared [] (piped_wrapper ∷ []) 500
native_remove-Cleared_example = native_remove-Cleared [] (piped_wrapper ∷ []) 500

removed_pipe_is_used_example :
    (has 900 (native_remove [] (piped_wrapper ∷ []) 500).freed ≡ true)
    × ((get_native_pipe usb_layout
          (native_remove [] (piped_wrapper ∷ []) 500).table
          usb_dev
          []
          out_pipe
          (some (shared_target 0 1 900))
          0).pipe
        ≡ 900)
unfolding pipe_type
removed_pipe_is_used_example =
    removed_pipe_is_used usb_layout [] (piped_wrapper ∷ []) 500 0 1 900 piped_wrapper usb_dev []
      out_pipe 0 (shared_target 0 1 900) refl refl refl (omega arith) refl (λ h. ground arith) refl
      refl

abbrev one_registered : Registry
one_registered = record { bindings = record free_binding { used = true } ∷ []; registered = 0 ∷ [] }

usb_deregister-usb_register_driver_example :
    ((usb_deregister one_registered 700).registered ≡ [])
    × (flags (usb_deregister one_registered 700).bindings ≡ false ∷ [])
unfolding usb_register_driver
usb_deregister-usb_register_driver_example =
    usb_deregister-usb_register_driver empty_registry one_registered usb_driver (refl, tt) refl

abbrev short_answer : XferHost
short_answer = record { alloc = 900; answer = pos 0; actual = 2 }

usb_bulk_msg-Told_example :
    let (told, w) =
      usb_bulk_msg usb_layout codes
        (usb_wrapper ∷ [])
        (some (usb_dev, []))
        out_pipe
        (pos 3)
        short_answer in
    Told
      (get_native_pipe usb_layout (usb_wrapper ∷ []) usb_dev [] out_pipe none 900)
      short_answer
      told
      w.freed
unfolding pipe_type
usb_bulk_msg-Told_example =
    usb_bulk_msg-Told usb_layout codes (usb_wrapper ∷ []) usb_dev [] out_pipe 3 short_answer refl
