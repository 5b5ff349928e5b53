-- ===== src/Pci.antt =====
-- pci.c: which identifier of a driver matches a device, and the table of wrappers that give the host's
-- devices the shape of `struct pci_dev`. A host device is read through the fields that the code uses. The
-- name that `snprintf` formats is not modelled.
pub mod Drivers
pub mod Match
pub mod Wrap
use lcompat.Base.{
  ℕ, suc, ◌+◌, ◌-◌, ◌*◌, ◌%◌, ◌^◌, ◌||◌, ◌&&◌, not, Bool, true, false, Option, none, some, List, [],
  ◌∷◌, map, ltb, ◌==◌, if◌then◌else◌,
}
use lcompat.Base.Words.{uint_max, add_u64, sub_u64}
use Prim.Native.Nat.{bit_and}

-- `struct pci_device_id`
pub record PciDeviceId : Type 0 where
  pub vendor : ℕ
  pub device : ℕ
  pub subvendor : ℕ
  pub subdevice : ℕ
  pub class_code : ℕ
  pub class_mask : ℕ

-- A base address register of a host device.
pub record Bar : Type 0 where
  pub address : ℕ
  pub size : ℕ
  pub mmio : Bool
  pub prefetchable : Bool

-- The host's `pci_device_t`; `ptr` is its address.
pub record Native : Type 0 where
  pub ptr : ℕ
  pub vendor_id : ℕ
  pub device_id : ℕ
  pub subsystem_vendor_id : ℕ
  pub subsystem_device_id : ℕ
  pub class_code : ℕ
  pub revision_id : ℕ
  pub irq_line : ℕ
  pub segment : ℕ
  pub bus : ℕ
  pub slot : ℕ
  pub func : ℕ
  pub bars : List Bar

-- `PCI_ANY_ID`
abbrev pub any_id : ℕ
any_id = uint_max

-- The condition of the loop: an identifier that is not all zero.
unfoldable pub goes_on : PciDeviceId → Bool
goes_on id =
    not (id.vendor == 0)
    || not (id.device == 0)
    || not (id.subvendor == 0)
    || not (id.subdevice == 0)
    || not (id.class_mask == 0)

-- The body of the loop: false is `continue`, true is `return id`.
unfoldable pub matches : PciDeviceId → Native → Bool
matches id n =
    if not (id.vendor == any_id) && not (id.vendor == n.vendor_id)
    then false
    else if not (id.device == any_id) && not (id.device == n.device_id)
    then false
    else if not (id.subvendor == any_id) && not (id.subvendor == n.subsystem_vendor_id)
    then false
    else if not (id.subdevice == any_id) && not (id.subdevice == n.subsystem_device_id)
    then false
    else not (
        not (id.class_mask == 0)
        && not (bit_and n.class_code id.class_mask == bit_and id.class_code id.class_mask))

-- The loop of `lcompat_pci_match_one`; the outer `none` is a read past the end of the table.
unfoldable pub match_loop : List PciDeviceId → Native → Option (Option PciDeviceId)
match_loop [] n = none
match_loop (id ∷ ids) n =
    let rest = match_loop ids n in
    if not (goes_on id) then some none else if matches id n then some (some id) else rest

-- `lcompat_pci_match_one`, `none` for a NULL table or device
unfoldable pub match_one : Option (List PciDeviceId) → Option Native → Option (Option PciDeviceId)
match_one none n = some none
match_one (some ids) none = some none
match_one (some ids) (some n) = match_loop ids n

-- `struct resource`; the flags are IORESOURCE_MEM (else IORESOURCE_IO), IORESOURCE_PREFETCH and
-- IORESOURCE_UNSET.
pub record Resource : Type 0 where
  pub start : ℕ
  pub end : ℕ
  pub mem : Bool
  pub prefetch : Bool
  pub unset : Bool

-- The body of the loop over the registers.
unfoldable pub resource_of : Bar → Resource
resource_of b = record {
  start = b.address;
  end = if b.size == 0 then b.address else sub_u64 (add_u64 b.address b.size) 1;
  mem = b.mmio;
  prefetch = b.prefetchable;
  unset = b.size == 0;
}

-- `pci_resource_len` of a device that is there
unfoldable pub pci_resource_len : Resource → ℕ
pci_resource_len r = if ltb r.end r.start then 0 else add_u64 (sub_u64 r.end r.start) 1

-- `struct pci_dev` and its `struct pci_bus`, as far as `lcompat_pci_wrap` sets them.
pub record PciDev : Type 0 where
  pub domain_nr : ℕ
  pub bus_number : ℕ
  pub vendor : ℕ
  pub device : ℕ
  pub subsystem_vendor : ℕ
  pub subsystem_device : ℕ
  pub revision : ℕ
  pub class_code : ℕ
  pub devfn : ℕ
  pub irq : ℕ
  pub resource : List Resource

-- `PCI_DEVFN`
abbrev pub pci_devfn : ℕ → ℕ → ℕ
pci_devfn slot func = slot % 32 * 8 + func % 8

-- The copied fields, in their widths of 8, 16 and 32 bits.
unfoldable pub dev_of : Native → PciDev
unfolding resource_of
dev_of n = record {
  domain_nr = n.segment % 2 ^ 16;
  bus_number = n.bus % 2 ^ 8;
  vendor = n.vendor_id % 2 ^ 16;
  device = n.device_id % 2 ^ 16;
  subsystem_vendor = n.subsystem_vendor_id % 2 ^ 16;
  subsystem_device = n.subsystem_device_id % 2 ^ 16;
  revision = n.revision_id % 2 ^ 8;
  class_code = n.class_code % 2 ^ 32;
  devfn = pci_devfn n.slot n.func;
  irq = n.irq_line % 2 ^ 8;
  resource = map resource_of n.bars;
}

-- `lcompat_pci_wrapper_t`
pub record Wrapper : Type 0 where
  pub used : Bool
  pub native : Native
  pub dev : PciDev

-- The first loop of `lcompat_pci_wrap`: the entry that the device has, from index `i` on.
unfoldable pub find_used : (i : ℕ) → List Wrapper → ℕ → Option ℕ
find_used i [] ptr = none
find_used i (w ∷ ws) ptr =
    let rest = find_used (i + 1) ws ptr in if w.used && w.native.ptr == ptr then some i else rest

-- An entry as the second loop fills it.
unfoldable pub filled : Native → Wrapper
unfolding dev_of
filled n = record { used = true; native = n; dev = dev_of n }

-- The second loop: the first free entry is filled.
unfoldable pub fill_free : (i : ℕ) → List Wrapper → Native → Option (ℕ × List Wrapper)
unfolding filled
fill_free i [] n = none
fill_free i (w ∷ ws) n =
    let rest = fill_free (i + 1) ws n in
    if not w.used
    then some (i, filled n ∷ ws)
    else (elim rest [ none ↦ none | some r ↦ some (r.0, w ∷ r.1) ])

-- `lcompat_pci_wrap`: the index of the device's entry and the table, `none` for NULL
unfoldable pub wrap : List Wrapper → Option Native → Option (ℕ × List Wrapper)
wrap ws none = none
wrap ws (some n) = elim (find_used 0 ws n.ptr) [ some i ↦ some (i, ws) | none ↦ fill_free 0 ws n ]
