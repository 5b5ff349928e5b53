-- ===== src/Usb/Descriptors.antt =====
-- The walks over the descriptors behind an interface: `lcompat_usb_collect_endpoints`,
-- `lcompat_usb_find_ep_in_iface` and `lcompat_usb_find_wrapper_ep_index`. The bytes are those from the end
-- of the interface descriptor to `end`. Each walk has fuel for one round more than there are bytes.
pub mod Bounds
pub mod Rounds
pub mod Agree
use lcompat.Base.{
  ℕ, zero, suc, ◌+◌, ◌-◌, ◌*◌, ◌/◌, ◌%◌, ◌^◌, Bool, true, false, not, ◌&&◌, ◌||◌, Option, none,
  some, List, [], ◌∷◌, ◌++◌, length, take, drop, get_or, ltb, leb, ◌==◌, if◌then◌else◌,
}
use lcompat.Usb.{pipe_ep, pipe_type, pipe_dir_in, pipe_int}

-- What the host's headers define: the types of descriptors and the sizes of its two endpoint structs.
pub record Layout : Type 0 where
  pub dt_interface : ℕ
  pub dt_endpoint : ℕ
  pub dt_companion : ℕ
  pub endpoint_size : ℕ
  pub companion_size : ℕ

-- LCOMPAT_MAX_USB_ENDPOINTS, and the size of `struct usb_endpoint_descriptor`.
abbrev pub max_endpoints : ℕ
max_endpoints = 16

abbrev pub descriptor_size : ℕ
descriptor_size = 7

-- `bEndpointAddress`, and the type of transfer in `bmAttributes`.
unfoldable pub endpoint_address : List ℕ → ℕ
endpoint_address d = get_or d 2 0

unfoldable pub endpoint_xfertype : List ℕ → ℕ
endpoint_xfertype d = get_or d 3 0 % 4

-- The loop of `lcompat_usb_collect_endpoints`; none where the fuel runs out.
unfoldable pub collect_loop :
    Layout → (fuel : ℕ) → List ℕ → (endpoints : List (List ℕ)) → Option (List (List ℕ))
collect_loop h zero bytes endpoints = none
collect_loop h (suc fuel) bytes endpoints =
    let len = get_or bytes 0 0 in
    let type = get_or bytes 1 0 in
    let more = collect_loop h fuel (drop len bytes) (
      if type == h.dt_endpoint && leb descriptor_size (length bytes)
      then endpoints ++ (take descriptor_size bytes ∷ [])
      else endpoints) in
    if ltb (length bytes) 2 || leb max_endpoints (length endpoints)
    then some endpoints
    else if ltb len 2 || type == h.dt_interface
    then some endpoints
    else more

unfoldable pub collect_endpoints : Layout → List ℕ → Option (List (List ℕ))
unfolding collect_loop
collect_endpoints h bytes = collect_loop h (length bytes + 1) bytes []

-- The address and the type that belong to a pipe.
unfoldable pub wanted_address : ℕ → ℕ
wanted_address pipe = pipe_ep pipe % 16 + (if pipe_dir_in pipe then 128 else 0)

unfoldable pub wanted_type : ℕ → ℕ
wanted_type pipe = if pipe_type pipe == pipe_int then 3 else 2

-- Whether a descriptor is that of the pipe's endpoint.
unfoldable pub fits_pipe : ℕ → List ℕ → Bool
unfolding wanted_address wanted_type endpoint_address endpoint_xfertype
fits_pipe pipe d =
    endpoint_address d == wanted_address pipe && endpoint_xfertype d == wanted_type pipe

-- The loop of `lcompat_usb_find_ep_in_iface`: the bytes from the endpoint descriptor on, and those from
-- the companion behind it.
unfoldable pub find_ep_loop :
    Layout
    → (fuel pipe : ℕ) → List ℕ
    → (matched : Option (List ℕ)) → Option (Option (List ℕ) × Option (List ℕ))
find_ep_loop h zero pipe bytes matched = none
find_ep_loop h (suc fuel) pipe bytes (some m) =
    if ltb (length bytes) 2
    then some (some m, none)
    else if ltb (get_or bytes 0 0) 2 || get_or bytes 1 0 == h.dt_interface
    then some (some m, none)
    else if get_or bytes 1 0 == h.dt_companion && leb h.companion_size (length bytes)
    then some (some m, some bytes)
    else some (some m, none)
find_ep_loop h (suc fuel) pipe bytes none =
    let len = get_or bytes 0 0 in
    let type = get_or bytes 1 0 in
    let more = find_ep_loop h fuel pipe (drop len bytes) (
      if type == h.dt_endpoint && leb h.endpoint_size (length bytes) && fits_pipe pipe bytes
      then some bytes
      else none) in
    if ltb (length bytes) 2
    then some (none, none)
    else if ltb len 2 || type == h.dt_interface
    then some (none, none)
    else more

unfoldable pub find_ep_in_iface :
    Layout → (pipe : ℕ) → List ℕ → Option (Option (List ℕ) × Option (List ℕ))
unfolding find_ep_loop
find_ep_in_iface h pipe bytes = find_ep_loop h (length bytes + 1) pipe bytes none

-- The loop of `lcompat_usb_find_wrapper_ep_index`.
unfoldable pub ep_index_loop : (i pipe : ℕ) → List (List ℕ) → Option ℕ
unfolding fits_pipe
ep_index_loop i pipe [] = none
ep_index_loop i pipe (d ∷ ds) =
    let more = ep_index_loop (i + 1) pipe ds in if fits_pipe pipe d then some i else more

unfoldable pub find_wrapper_ep_index : (pipe : ℕ) → List (List ℕ) → Option ℕ
unfolding ep_index_loop
find_wrapper_ep_index pipe ds = ep_index_loop 0 pipe ds
