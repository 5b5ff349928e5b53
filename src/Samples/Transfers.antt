-- ===== src/Samples/Transfers.antt =====
-- URBs, an endpoint and a device to run the theorems on.
use lcompat.Base.{
  ℕ, true, false, ◌||◌, none, List, [], ◌∷◌, replicate, pos, negsuc, ◌==◌, if◌then◌else◌,
}
use lcompat.Chain.{ends}
use lcompat.Usb.{fine, Codes}
use lcompat.Usb.Sg.{Sg}
use lcompat.Usb.Urb.{NativePipe, Urb}
use lcompat.Usb.Bus.{Bus, Answers, handing}
use lcompat.Usb.Descriptors.{Layout}
use lcompat.Usb.Wrappers.{NativeDev, NativeIface, UsbWrapper, Target}
use lcompat.Usb.Drivers.{UsbDriver, Binding, Registry}

abbrev pub codes : Codes
codes = record {
  success = pos 0;
  short_packet = pos 1;
  stall = pos 2;
  babble = pos 3;
  timeout = pos 4;
  event_error = pos 5;
}

abbrev pub usb_layout : Layout
usb_layout = record {
  dt_interface = 4;
  dt_endpoint = 5;
  dt_companion = 48;
  endpoint_size = 7;
  companion_size = 6;
}

-- A transfer out of 3 bytes, by a bulk pipe of the endpoint 2.
abbrev pub out_urb : Urb
out_urb = record {
  has_dev = true;
  pipe = 65538;
  has_buffer = true;
  transfer_buffer_length = pos 3;
  actual_length = 0;
  status = fine;
  zero_packet = false;
  has_complete = true;
  sg = [];
  submitted = false;
  killed = false;
  refcount = 1;
  freed = false;
  has_state = false;
  native_pipe = none;
  owns_pipe = false;
  completed_length = 0;
  submitted_length = 0;
  submitted_sg = false;
  zlp_pending = false;
  sg_buffer = [];
  sg_buffer_len = 0;
  queued = false;
}

-- The URBs 10 and 20 of a driver, and memory that is no URB.
abbrev pub two_urbs : ℕ → Urb
two_urbs u = if u == 10 || u == 20 then out_urb else record out_urb { refcount = 0 }

abbrev pub idle_bus : Bus
idle_bus = record {
  urbs = two_urbs;
  shared = λ u. true;
  links = λ u. 0;
  list = ends 0 0;
  pipe_busy = false;
  threads = [];
  held = 10 ∷ 20 ∷ [];
  calls = [];
}

-- The URB 10, whose length is negative, is about to be started behind the URB 30, and 20 waits.
abbrev pub last_turn : Bus
last_turn = record idle_bus {
  urbs = λ u.
      if u == 10
      then record out_urb { submitted = true; transfer_buffer_length = negsuc 4 }
      else if u == 20
      then record out_urb { submitted = true }
      else out_urb;
  list = ends 20 20;
  pipe_busy = true;
  threads = handing 10 30 ∷ [];
}

abbrev pub accepted : Answers
accepted = record {
  start = record { memory = none; answer = pos 0 };
  code = pos 0;
  actual = 3;
  bytes = [];
}

abbrev pub bulk_pipe : NativePipe
bulk_pipe = record { ptr = 900; maxpacket = 512 }

-- 5 bytes in two pieces.
abbrev pub pieces : List Sg
pieces =
    record { has_virt = true; bytes = 1 ∷ 2 ∷ [] }
    ∷ record { has_virt = true; bytes = 3 ∷ 4 ∷ 5 ∷ [] }
    ∷ []

abbrev pub sg_out : Urb
sg_out = record out_urb { sg = pieces; transfer_buffer_length = pos 4 }

-- The same in the other direction, with its buffer of 5 bytes.
abbrev pub sg_in : Urb
sg_in = record out_urb {
  pipe = 65666;
  sg = pieces;
  transfer_buffer_length = pos 0;
  submitted_sg = true;
  sg_buffer = 0 ∷ 0 ∷ 0 ∷ 0 ∷ 0 ∷ [];
  sg_buffer_len = 5;
}

-- A bulk endpoint in, address 129, and a bulk endpoint out, address 2.
abbrev pub endpoint_bytes : List ℕ
endpoint_bytes = 7 ∷ 5 ∷ 129 ∷ 2 ∷ 64 ∷ 0 ∷ 0 ∷ 7 ∷ 5 ∷ 2 ∷ 2 ∷ 64 ∷ 0 ∷ 0 ∷ []

abbrev pub two_endpoints : List (List ℕ)
two_endpoints = (7 ∷ 5 ∷ 129 ∷ 2 ∷ 64 ∷ 0 ∷ 0 ∷ []) ∷ (7 ∷ 5 ∷ 2 ∷ 2 ∷ 64 ∷ 0 ∷ 0 ∷ []) ∷ []

abbrev pub usb_dev : NativeDev
usb_dev = record { ptr = 500; vendorid = 4660; productid = 22136; online = true; defpipe = 501 }

abbrev pub usb_iface : NativeIface
usb_iface = record {
  ptr = 510;
  interface_class = 255;
  interface_sub_class = 0;
  interface_protocol = 0;
  descriptors = endpoint_bytes;
}

abbrev pub usb_wrapper : UsbWrapper
usb_wrapper = record {
  used = true;
  native_dev = usb_dev;
  native_intf = usb_iface;
  vendor = 4660;
  product = 22136;
  attached = true;
  endpoints = two_endpoints;
  native_pipes = replicate 16 0;
}

-- The endpoint out has its pipe.
abbrev pub piped_wrapper : UsbWrapper
piped_wrapper = record usb_wrapper { native_pipes = 0 ∷ 900 ∷ replicate 14 0 }

abbrev pub no_target : Target
no_target = record { native_pipe = 0; owns_pipe = false; queue_owner = none }

abbrev pub usb_driver : UsbDriver
usb_driver = record { ptr = 700; id_table = []; has_probe = true; has_disconnect = false }

abbrev pub free_binding : Binding
free_binding = record { used = false; driver = usb_driver }

abbrev pub empty_registry : Registry
empty_registry = record { bindings = free_binding ∷ []; registered = [] }
