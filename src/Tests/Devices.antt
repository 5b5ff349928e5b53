-- ===== src/Tests/Devices.antt =====
-- Devices: pci.c with one device, a table of one entry, drivers and two bindings.
use lcompat.Base.{ℕ, ◌≡◌, ◌⊎◌, refl, true, false, some, none, List, [], ◌∷◌}
use lcompat.Pci.{
  PciDeviceId, Native, Bar, Wrapper, any_id, goes_on, matches, match_loop, match_one, find_used,
  fill_free, wrap, dev_of, filled,
}
use lcompat.Pci.Drivers.{
  PciDriver, PciBinding, claim_binding, done, ProbeCall, Registration, pci_register_driver,
  pci_unregister_driver, holds_driver, probe_driver, pci_native_probe, pci_native_remove,
  pci_native_shutdown,
}
use lcompat.Pci.Drivers.Unregistered.{pci_unregister_driver-pci_register_driver}
use lcompat.Pci.Match.{first_match}
use lcompat.Pci.Wrap.{IsFull, Wrapped, wrap-Wrapped}

abbrev no_bar : Bar
no_bar = record { address = 4096; size = 0; mmio = true; prefetchable = false }

abbrev wifi : Native
wifi = record {
  ptr = 900;
  vendor_id = 5315;
  device_id = 30992;
  subsystem_vendor_id = 1;
  subsystem_device_id = 2;
  class_code = 163840;
  revision_id = 0;
  irq_line = 11;
  segment = 0;
  bus = 3;
  slot = 0;
  func = 0;
  bars = no_bar ∷ [];
}

abbrev zero_id : PciDeviceId
zero_id = record {
  vendor = 0;
  device = 0;
  subvendor = 0;
  subdevice = 0;
  class_code = 0;
  class_mask = 0;
}

abbrev other_id : PciDeviceId
other_id = record zero_id { vendor = 5315; device = 1; subvendor = any_id; subdevice = any_id }

abbrev wifi_id : PciDeviceId
wifi_id = record other_id { device = 30992 }

abbrev free_table : List Wrapper
free_table = record { used = false; native = wifi; dev = dev_of wifi } ∷ []

-- The second identifier is the one that matches.
first_match-wifi : first_match (other_id ∷ wifi_id ∷ []) wifi ≡ some wifi_id
unfolding first_match matches
first_match-wifi = refl

wrap-Wrapped_example :
    ((wrap free_table (some wifi) ≡ none) × IsFull free_table 900)
    ⊎ ((i : ℕ) × (ws' : List Wrapper) × (wrap free_table (some wifi) ≡ some (i, ws'))
        × Wrapped i free_table ws' wifi)
wrap-Wrapped_example = wrap-Wrapped free_table wifi

abbrev wifi_driver : PciDriver
wifi_driver = record {
  ptr = 700;
  id_table = some (other_id ∷ wifi_id ∷ zero_id ∷ []);
  has_probe = true;
  has_remove = true;
  has_shutdown = false;
}

abbrev sound_driver : PciDriver
sound_driver = record wifi_driver { ptr = 800; id_table = some (other_id ∷ zero_id ∷ []) }

-- One binding is used, one is free.
abbrev two_bindings : List PciBinding
two_bindings =
    record { used = true; linux_driver = some sound_driver }
    ∷ record { used = false; linux_driver = none }
    ∷ []

abbrev wifi_call : ProbeCall
wifi_call = record { driver = 700; wrapper = 0; id = wifi_id }

-- The second binding is taken, and the device is probed.
abbrev wifi_registration : Registration
wifi_registration = record {
  answer = done;
  bindings =
      record { used = true; linux_driver = some sound_driver }
      ∷ record { used = true; linux_driver = some wifi_driver }
      ∷ [];
  offered = record { table = filled wifi ∷ []; calls = wifi_call ∷ [] };
}

wifi_registers :
    pci_register_driver (some wifi_driver) 0 (λ _. 0) (wifi ∷ []) two_bindings free_table
    ≡ some wifi_registration
unfolding pci_register_driver match_one match_loop goes_on matches wrap find_used fill_free
wifi_registers = refl

pci_unregister_driver-pci_register_driver_example :
    (i : ℕ) × (claim_binding two_bindings wifi_driver ≡ some (i, wifi_registration.bindings))
    × (pci_native_probe
          (pci_unregister_driver wifi_registration.bindings 700)
          (some i)
          free_table
          wifi
        ≡ probe_driver (some wifi_driver) free_table wifi)
    × (pci_native_remove (pci_unregister_driver wifi_registration.bindings 700) free_table wifi
        ≡ pci_native_remove two_bindings free_table wifi)
    × (pci_native_shutdown (pci_unregister_driver wifi_registration.bindings 700) free_table wifi
        ≡ pci_native_shutdown two_bindings free_table wifi)
unfolding holds_driver
pci_unregister_driver-pci_register_driver_example =
    pci_unregister_driver-pci_register_driver wifi_driver 0 (λ _. 0) (wifi ∷ []) two_bindings
      free_table wifi_registration free_table wifi (refl, (refl, tt)) wifi_registers refl
