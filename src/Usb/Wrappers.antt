-- ===== src/Usb/Wrappers.antt =====
-- Drivers, devices and pipes: `lcompat_usb_match_one`, `lcompat_usb_wrap`, `lcompat_usb_get_native_pipe`,
-- `lcompat_usb_native_remove` and what they call. The host's structs are read through the fields that the
-- code uses. Names, and the pointers between the parts of a wrapper, are not modelled.
pub mod Shared
use lcompat.Base.{
  ℕ, zero, suc, ◌+◌, ◌-◌, ◌/◌, ◌%◌, ◌^◌, Bool, true, false, not, ◌&&◌, ◌||◌, Option, none, some,
  List, [], ◌∷◌, ◌++◌, get_or, set, take, length, replicate, ◌==◌, if◌then◌else◌,
}
use lcompat.Usb.{pipe_type, pipe_ctrl}
use lcompat.Usb.Descriptors.{
  Layout, max_endpoints, collect_endpoints, find_ep_in_iface, find_wrapper_ep_index,
}

-- `struct usb_device_id`; a table is the list of its entries before the one with no `match_flags`.
pub record UsbDeviceId : Type 0 where
  pub match_flags : ℕ
  pub id_vendor : ℕ
  pub id_product : ℕ
  pub interface_class : ℕ
  pub interface_sub_class : ℕ
  pub interface_protocol : ℕ

-- The host's `usb_device_t` and `usb_device_interface_t`, with the descriptors behind the interface's.
pub record NativeDev : Type 0 where
  pub ptr : ℕ
  pub vendorid : ℕ
  pub productid : ℕ
  pub online : Bool
  pub defpipe : ℕ

pub record NativeIface : Type 0 where
  pub ptr : ℕ
  pub interface_class : ℕ
  pub interface_sub_class : ℕ
  pub interface_protocol : ℕ
  pub descriptors : List ℕ

-- Bit `k` of the flags: USB_DEVICE_ID_MATCH_VENDOR and the others.
abbrev pub has_flag : ℕ → ℕ → Bool
has_flag flags k = flags / 2 ^ k % 2 == 1

-- The body of the loop: false is `continue`, true is `return id`.
unfoldable pub id_matches : UsbDeviceId → NativeDev → NativeIface → Bool
id_matches id d n =
    if has_flag id.match_flags 0 && not (id.id_vendor == d.vendorid)
    then false
    else if has_flag id.match_flags 1 && not (id.id_product == d.productid)
    then false
    else if has_flag id.match_flags 2 && not (id.interface_class == n.interface_class)
    then false
    else if has_flag id.match_flags 3 && not (id.interface_sub_class == n.interface_sub_class)
    then false
    else not (has_flag id.match_flags 4 && not (id.interface_protocol == n.interface_protocol))

unfoldable pub usb_match_one : List UsbDeviceId → NativeDev → NativeIface → Option UsbDeviceId
unfolding id_matches
usb_match_one [] d n = none
usb_match_one (id ∷ ids) d n = if id_matches id d n then some id else usb_match_one ids d n

-- `lcompat_usb_wrapper_t`; a pipe that is NULL is 0. The queues of its endpoints are in Usb.Bus.
pub record UsbWrapper : Type 0 where
  pub used : Bool
  pub native_dev : NativeDev
  pub native_intf : NativeIface
  pub vendor : ℕ
  pub product : ℕ
  pub attached : Bool
  pub endpoints : List (List ℕ)
  pub native_pipes : List ℕ

-- The first loop of `lcompat_usb_wrap`.
unfoldable pub find_wrapped : (i : ℕ) → List UsbWrapper → (dev intf : ℕ) → Option ℕ
find_wrapped i [] dev intf = none
find_wrapped i (w ∷ ws) dev intf =
    let rest = find_wrapped (i + 1) ws dev intf in
    if w.used && w.native_dev.ptr == dev && w.native_intf.ptr == intf then some i else rest

-- The endpoints that the walk finds; it always ends.
unfoldable pub endpoints_of : Layout → NativeIface → List (List ℕ)
endpoints_of h n = elim (collect_endpoints h n.descriptors) [ none ↦ [] | some ds ↦ ds ]

-- An entry as the second loop fills it.
unfoldable pub wrapped : Layout → NativeDev → NativeIface → UsbWrapper
unfolding endpoints_of
wrapped h d n = record {
  used = true;
  native_dev = d;
  native_intf = n;
  vendor = d.vendorid;
  product = d.productid;
  attached = d.online;
  endpoints = endpoints_of h n;
  native_pipes = replicate max_endpoints 0;
}

-- The second loop: the first free entry is filled.
unfoldable pub wrap_free :
    Layout → (i : ℕ) → List UsbWrapper → NativeDev → NativeIface → Option (ℕ × List UsbWrapper)
unfolding wrapped
wrap_free h i [] d n = none
wrap_free h i (w ∷ ws) d n =
    let rest = wrap_free h (i + 1) ws d n in
    if not w.used
    then some (i, wrapped h d n ∷ ws)
    else (elim rest [ none ↦ none | some r ↦ some (r.0, w ∷ r.1) ])

-- `lcompat_usb_wrap`: the index of the interface's entry and the table, none for NULL
unfoldable pub usb_wrap :
    Layout → List UsbWrapper → NativeDev → NativeIface → Option (ℕ × List UsbWrapper)
unfolding find_wrapped wrap_free
usb_wrap h ws d n = elim (find_wrapped 0 ws d.ptr n.ptr) [
  | some i ↦ some (i, ws)
  | none ↦ wrap_free h 0 ws d n
]

-- `lcompat_usb_find_wrapper_for_pipe`: the first wrapper of the device with an endpoint for the pipe, its
-- index and that of the endpoint.
unfoldable pub find_wrapper_for_pipe :
    (i : ℕ) → List UsbWrapper → (dev pipe : ℕ) → Option (ℕ × ℕ × UsbWrapper)
find_wrapper_for_pipe i [] dev pipe = none
find_wrapper_for_pipe i (w ∷ ws) dev pipe =
    let rest = find_wrapper_for_pipe (i + 1) ws dev pipe in
    if not w.used || not (w.native_dev.ptr == dev)
    then rest
    else (elim (find_wrapper_ep_index pipe w.endpoints) [ none ↦ rest | some ep ↦ some (i, ep, w) ])

-- Whether `lcompat_usb_find_ep_in_iface` finds an endpoint descriptor.
unfoldable pub has_ep : Layout → ℕ → NativeIface → Bool
has_ep h pipe n = elim (find_ep_in_iface h pipe n.descriptors) [
  | none ↦ false
  | some r ↦ elim r.0 [ none ↦ false | some d ↦ true ]
]

-- `lcompat_usb_find_native_ep`, over the interfaces of the device
unfoldable pub find_native_ep : Layout → ℕ → List NativeIface → Bool
unfolding has_ep
find_native_ep h pipe [] = false
find_native_ep h pipe (n ∷ ns) = has_ep h pipe n || find_native_ep h pipe ns

-- The part of `lcompat_usb_urb_state_t` that says where transfers go.
pub record Target : Type 0 where
  pub native_pipe : ℕ
  pub owns_pipe : Bool
  pub queue_owner : Option (ℕ × ℕ)

abbrev pub shared_target : ℕ → ℕ → ℕ → Target
shared_target i ep p = record { native_pipe = p; owns_pipe = false; queue_owner = some (i, ep) }

-- The pipe, the table, and the state of the URB, if it has one. A pipe is owned where the caller has to
-- free it.
pub record Looked : Type 0 where
  pub pipe : ℕ
  pub table : List UsbWrapper
  pub target : Option Target
  pub owned : Bool

abbrev pub nowhere : List UsbWrapper → Option Target → Looked
nowhere ws st = record { pipe = 0; table = ws; target = st; owned = false }

-- `state` is not NULL, and gets a new target.
abbrev pub retarget : Option Target → Target → Option Target
retarget none t = none
retarget (some old) t = some t

-- A pipe of a wrapper's endpoint, allocated at its first use; `alloc` is what `usb_alloc_pipe` returns.
unfoldable pub wrapper_pipe :
    Layout
    → List UsbWrapper
    → (pipe : ℕ) → Option Target
    → (alloc : ℕ) → ℕ × ℕ × UsbWrapper
    → Looked
unfolding has_ep
wrapper_pipe h ws pipe st alloc (i, ep, w) =
    let p = get_or w.native_pipes ep 0 in
    if not (p == 0)
    then record { pipe = p; table = ws; target = retarget st (shared_target i ep p); owned = false }
    else if not (has_ep h pipe w.native_intf) || alloc == 0
    then nowhere ws st
    else record {
      pipe = alloc;
      table = set ws i (record w { native_pipes = set w.native_pipes ep alloc });
      target = retarget st (shared_target i ep alloc);
      owned = false;
    }

-- A pipe of an endpoint that no wrapper has.
unfoldable pub own_pipe :
    Layout → List UsbWrapper → List NativeIface → (pipe : ℕ) → Option Target → (alloc : ℕ) → Looked
unfolding find_native_ep
own_pipe h ws ifaces pipe st alloc =
    if not (find_native_ep h pipe ifaces) || alloc == 0 then nowhere ws st else record {
      pipe = alloc;
      table = ws;
      target = retarget st (record { native_pipe = alloc; owns_pipe = true; queue_owner = none });
      owned = true;
    }

-- The pipe that the state of a URB has already, 0 for none.
abbrev pub cached : Option Target → ℕ
cached none = 0
cached (some t) = t.native_pipe

-- `lcompat_usb_get_native_pipe` of a device with the interfaces `ifaces`
unfoldable pub get_native_pipe :
    Layout
    → List UsbWrapper
    → NativeDev
    → List NativeIface
    → (pipe : ℕ) → Option Target
    → (alloc : ℕ) → Looked
unfolding find_wrapper_for_pipe wrapper_pipe own_pipe
get_native_pipe h ws d ifaces pipe st alloc =
    if pipe_type pipe == pipe_ctrl
    then record { pipe = d.defpipe; table = ws; target = st; owned = false }
    else if not (cached st == 0)
    then record { pipe = cached st; table = ws; target = st; owned = false }
    else (elim (find_wrapper_for_pipe 0 ws d.ptr pipe) [
      | none ↦ own_pipe h ws ifaces pipe st alloc
      | some r ↦ wrapper_pipe h ws pipe st alloc r
    ])
