-- ===== src/Pci/Drivers.antt =====
-- The drivers of pci.c: `pci_register_driver` with the probes of the devices that are there,
-- `pci_unregister_driver`, and what the host's driver does for a binding. The host's devices, what its
-- `regist_pci_driver` returns and what a driver's `probe` returns are arguments; 0 is success. The
-- outer `none` is a read past the end of a table of identifiers, or the use of a NULL wrapper.
pub mod Unregistered
use lcompat.Base.{
  ℕ, zero, suc, ◌==◌, Bool, true, false, not, ◌&&◌, Option, none, some, List, [], ◌∷◌, Errno,
  einval, enomem, enodev, enospc, get_elem?, if◌then◌else◌,
}
use lcompat.Pci.{PciDeviceId, Native, Wrapper, match_one, wrap}

-- `struct pci_driver`: its address, its table, and which of its functions it has.
pub record PciDriver : Type 0 where
  pub ptr : ℕ
  pub id_table : Option (List PciDeviceId)
  pub has_probe : Bool
  pub has_remove : Bool
  pub has_shutdown : Bool

-- `lcompat_pci_binding_t`
pub record PciBinding : Type 0 where
  pub used : Bool
  pub linux_driver : Option PciDriver

-- The first free binding gets the driver.
unfoldable pub claim_binding : List PciBinding → PciDriver → Option (ℕ × List PciBinding)
claim_binding [] d = none
claim_binding (b ∷ bs) d =
    let rest = claim_binding bs d in
    if b.used
    then (elim rest [ none ↦ none | some r ↦ some (suc r.0, b ∷ r.1) ])
    else some (0, record { used = true; linux_driver = some d } ∷ bs)

-- A call of a driver's `probe`.
pub record ProbeCall : Type 0 where
  pub driver : ℕ
  pub wrapper : ℕ
  pub id : PciDeviceId

-- The table of wrappers and the calls of `probe`.
pub record Offered : Type 0 where
  pub table : List Wrapper
  pub calls : List ProbeCall

-- A device that matches is probed: the loop ends when the driver takes it, and else goes on with the
-- devices behind it.
unfoldable pub offer_one :
    PciDriver
    → (ret : ℕ) → PciDeviceId
    → Option (ℕ × List Wrapper)
    → (List Wrapper → Option Offered)
    → Option Offered
offer_one d ret id none go_on = none
offer_one d ret id (some (i, ws)) go_on =
    let call : ProbeCall = record { driver = d.ptr; wrapper = i; id = id } in
    if ret == 0
    then some (record { table = ws; calls = call ∷ [] })
    else (elim (go_on ws) [ none ↦ none | some o ↦ some (record o { calls = call ∷ o.calls }) ])

-- The loop over the host's devices; `ret` is what `probe` returns for the device at an address.
unfoldable pub offer : PciDriver → (ret : ℕ → ℕ) → List Native → List Wrapper → Option Offered
unfolding offer_one
offer d ret [] ws = some (record { table = ws; calls = [] })
offer d ret (n ∷ ns) ws = elim (match_one d.id_table (some n)) [
  | none ↦ none
  | some m ↦ elim m [
    | none ↦ offer d ret ns ws
    | some id ↦ offer_one d (ret n.ptr) id (wrap ws (some n)) (offer d ret ns)
  ]
]

-- What the call returns: 0, an error of its own, or the error of the host.
pub data Answer : Type 0 where
  done : Answer
  refused : Errno → Answer
  host_error : ℕ → Answer

pub record Registration : Type 0 where
  pub answer : Answer
  pub bindings : List PciBinding
  pub offered : Offered

-- An error before anything is done.
unfoldable pub unchanged : Errno → List PciBinding → List Wrapper → Registration
unchanged e bs ws = record {
  answer = refused e;
  bindings = bs;
  offered = record { table = ws; calls = [] };
}

-- What `pci_register_driver` does with a free binding.
unfoldable pub register_claimed :
    PciDriver
    → (host : ℕ) → (ret : ℕ → ℕ) → List Native
    → List PciBinding
    → List Wrapper
    → Option Registration
unfolding offer
register_claimed d host ret ns bs ws =
    if host == 0
    then (elim (offer d ret ns ws) [
      | none ↦ none
      | some o ↦ some (record { answer = done; bindings = bs; offered = o })
    ])
    else some (record {
      answer = host_error host;
      bindings = bs;
      offered = record { table = ws; calls = [] };
    })

-- The end of the loop over the bindings, with what it has found.
unfoldable pub register_in :
    PciDriver
    → (host : ℕ) → (ret : ℕ → ℕ) → List Native
    → List PciBinding
    → List Wrapper
    → Option (ℕ × List PciBinding)
    → Option Registration
unfolding register_claimed unchanged
register_in d host ret ns bs ws none = some (unchanged enospc bs ws)
register_in d host ret ns bs ws (some c) = register_claimed d host ret ns c.1 ws

-- `pci_register_driver`, `none` for NULL; `host` is what `regist_pci_driver` returns.
unfoldable pub pci_register_driver :
    Option PciDriver
    → (host : ℕ) → (ret : ℕ → ℕ) → List Native
    → List PciBinding
    → List Wrapper
    → Option Registration
unfolding claim_binding register_in unchanged
pci_register_driver none host ret ns bs ws = some (unchanged einval bs ws)
pci_register_driver (some d) host ret ns bs ws =
    if not d.has_probe
    then some (unchanged einval bs ws)
    else register_in d host ret ns bs ws (claim_binding bs d)

-- `binding->linux_driver == driver`
unfoldable pub holds_driver : PciBinding → (driver : ℕ) → Bool
holds_driver b driver = elim b.linux_driver [ none ↦ driver == 0 | some d ↦ d.ptr == driver ]

-- `pci_unregister_driver`
unfoldable pub pci_unregister_driver : List PciBinding → (driver : ℕ) → List PciBinding
unfolding holds_driver
pci_unregister_driver [] driver = []
pci_unregister_driver (b ∷ bs) driver =
    let rest = pci_unregister_driver bs driver in
    if b.used && holds_driver b driver then record b { used = false } ∷ bs else b ∷ rest

-- The driver of the binding at an index.
unfoldable pub driver_at : List PciBinding → ℕ → Option PciDriver
driver_at bs i = elim (get_elem? bs i) [ none ↦ none | some b ↦ b.linux_driver ]

-- `lcompat_pci_native_match` of the binding at an index
unfoldable pub pci_native_match : List PciBinding → ℕ → Native → Option Bool
unfolding driver_at
pci_native_match bs i n = elim (driver_at bs i) [
  | none ↦ some false
  | some d ↦ elim (match_one d.id_table (some n)) [
    | none ↦ none
    | some m ↦ elim m [ none ↦ some false | some id ↦ some true ]
  ]
]

-- What a probe comes to: an error, or the call of the driver's `probe`.
pub data PciProbe : Type 0 where
  failed : Errno → PciProbe
  probing : ProbeCall → PciProbe

-- The search for the identifier, behind the one for the wrapper.
unfoldable pub probe_wrapped :
    PciDriver → Native → (wrapper : ℕ) × List Wrapper → Option (PciProbe × List Wrapper)
probe_wrapped d n (i, ws) = elim (match_one d.id_table (some n)) [
  | none ↦ none
  | some m ↦ elim m [
    | none ↦ some (failed enodev, ws)
    | some id ↦ some (probing (record { driver = d.ptr; wrapper = i; id = id }), ws)
  ]
]

-- The part of `lcompat_pci_native_probe` behind the search for the driver.
unfoldable pub probe_driver :
    Option PciDriver → List Wrapper → Native → Option (PciProbe × List Wrapper)
unfolding probe_wrapped
probe_driver none ws n = some (failed einval, ws)
probe_driver (some d) ws n =
    if d.has_probe
    then (elim (wrap ws (some n)) [
      | none ↦ some (failed enomem, ws)
      | some w ↦ probe_wrapped d n w
    ])
    else some (failed einval, ws)

-- `lcompat_pci_native_probe`; `current` is the index of the binding whose driver the host probes, if
-- it is one of these.
unfoldable pub pci_native_probe :
    List PciBinding
    → (current : Option ℕ) → List Wrapper
    → Native
    → Option (PciProbe × List Wrapper)
unfolding probe_driver driver_at
pci_native_probe bs none ws n = probe_driver none ws n
pci_native_probe bs (some i) ws n = probe_driver (driver_at bs i) ws n

-- A driver whose table has the device is the one; else the search goes on.
unfoldable pub called_or :
    (driver : ℕ) → Option (Option PciDeviceId) → Option (Option ℕ) → Option (Option ℕ)
called_or driver none rest = none
called_or driver (some none) rest = rest
called_or driver (some (some id)) rest = some (some driver)

-- The loop of `lcompat_pci_native_remove` and of `lcompat_pci_native_shutdown`: the first used binding
-- whose driver has the function and matches.
unfoldable pub first_bound : (PciDriver → Bool) → List PciBinding → Native → Option (Option ℕ)
unfolding called_or
first_bound has [] n = some none
first_bound has (b ∷ bs) n =
    let rest = first_bound has bs n in
    if b.used
    then (elim b.linux_driver [
      | none ↦ rest
      | some d ↦ if has d then called_or d.ptr (match_one d.id_table (some n)) rest else rest
    ])
    else rest

-- Behind the search for the wrapper: the driver that is called with it, and the table.
unfoldable pub calls_with :
    (PciDriver → Bool) → List PciBinding → List Wrapper → Native → Option (Option ℕ × List Wrapper)
unfolding first_bound
calls_with has bs ws n = elim (wrap ws (some n)) [
  | none ↦ some (none, ws)
  | some w ↦ elim (first_bound has bs n) [ none ↦ none | some c ↦ some (c, w.1) ]
]

-- `lcompat_pci_native_remove`
unfoldable pub pci_native_remove :
    List PciBinding → List Wrapper → Native → Option (Option ℕ × List Wrapper)
unfolding calls_with
pci_native_remove = calls_with (λ d. d.has_remove)

-- `lcompat_pci_native_shutdown`
unfoldable pub pci_native_shutdown :
    List PciBinding → List Wrapper → Native → Option (Option ℕ × List Wrapper)
unfolding calls_with
pci_native_shutdown = calls_with (λ d. d.has_shutdown)
