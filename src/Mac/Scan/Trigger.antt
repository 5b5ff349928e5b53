-- ===== src/Mac/Scan/Trigger.antt =====
-- How `lcompat_netdev_trigger_scan` ends.
use lcompat.Base.{
  ℕ, ◌≡◌, ◌⊎◌, ◌∙◌, refl, sym, ap, Bool, true, false, not, ◌&&◌, ◌||◌, Option, none, some, List,
  ◌==◌, if◌then◌else◌, Bool-cases, inl, inr, Errno, einval, enomem, eoverflow, eopnotsupp, arith,
}
use lcompat.Mac.Runtime.{Runtime, Hw, ScanRequest, notify, scan_begin}
use lcompat.Mac.Station.Invariant.{View}
use lcompat.Mac.Scan.{
  HwScan, ScanHost, running, software, refused, then_on, configure_scan_filter, is_scanning,
  names_of, some_long, all_channels, count_channels, alloc_counted, alloc_scan_req, run_sw_scan,
  scan_completed, is_error, software_scan, scan_started, scan_begun, trigger_scan,
}
use lcompat.Mac.Scan.Ends.{run_sw_scan-kept}

-- No scan is running, and the hardware is as given.
pub record IsQuiet (hw : Hw) (rt : Runtime) : Type 0 where
  pub same : rt.hw ≡ hw
  pub no_request : rt.scan_req ≡ none
  pub no_filter : rt.scan_filter_active ≡ false

-- The driver scans by itself: the request and the filter stay until it reports the end.
pub record IsRunning (hw : Hw) (host : ScanHost) (p : Option Errno × Runtime) : Type 0 where
  pub accepted : host.hw_scan ≡ running
  pub returned : p.0 ≡ none
  pub same : p.1.hw ≡ hw
  pub request : is_scanning p.1.scan_req ≡ true
  pub filter : p.1.scan_filter_active ≡ hw.has_filter

-- During a scan.
record IsBusy (hw : Hw) (rt : Runtime) : Type 0 where
  pub same : rt.hw ≡ hw
  pub request : is_scanning rt.scan_req ≡ true
  pub filter : rt.scan_filter_active ≡ hw.has_filter

filter_on :
    (b : Bool) (rt : Runtime)
    → rt.scan_filter_active ≡ false
    → (if b then record rt { scan_filter_active = true } else rt).scan_filter_active ≡ b
filter_on true rt e = refl
filter_on false rt e = e

filter_off :
    (b : Bool) (rt : Runtime)
    → rt.scan_filter_active ≡ b
    → (if b then record rt { scan_filter_active = false } else rt).scan_filter_active ≡ false
filter_off true rt e = refl
filter_off false rt e = e

hw-filter :
    (b enable : Bool) (rt : Runtime)
    → (if b then record rt { scan_filter_active = enable } else rt).hw ≡ rt.hw
hw-filter true enable rt = refl
hw-filter false enable rt = refl

req-filter :
    (b enable : Bool) (rt : Runtime)
    → (if b then record rt { scan_filter_active = enable } else rt).scan_req ≡ rt.scan_req
req-filter true enable rt = refl
req-filter false enable rt = refl

-- The end of a scan.
completed-IsQuiet :
    (hw : Hw) (rt : Runtime) (aborted : Bool)
    → rt.hw ≡ hw
    → rt.scan_filter_active ≡ hw.has_filter
    → IsQuiet hw (scan_completed rt aborted)
unfolding scan_completed configure_scan_filter
completed-IsQuiet hw rt aborted e f = record {
  same = hw-filter rt.hw.has_filter false rt ∙ e;
  no_request = refl;
  no_filter = filter_off rt.hw.has_filter rt (f ∙ ap (λ (h : Hw). h.has_filter) (sym e));
}

-- Why a request for a scan fails: the device is not ready, or its driver cannot scan; no request can be
-- made; the host or the driver refuses.
pub data Cause (ready : Bool) (alloc : Option Errno) (host : ScanHost) (e : Errno) : Type 0 where
  not_ready : ready ≡ false → e ≡ eopnotsupp → Cause ready alloc host e
  no_request : alloc ≡ some e → Cause ready alloc host e
  not_begun : host.begin ≡ some e → Cause ready alloc host e
  driver_refused : host.hw_scan ≡ refused e → Cause ready alloc host e

-- The request has failed, and the error is returned.
abbrev pub Failed : (ready : Bool) → (alloc : Option Errno) → ScanHost → Option Errno → Type 0
Failed ready alloc host r = (e : Errno) × (r ≡ some e) × Cause ready alloc host e

-- Nothing is left where the request has failed, or the scan was one in software.
Outcome : (ready : Bool) → (alloc : Option Errno) → Hw → ScanHost → Option Errno × Runtime → Type 0
Outcome ready alloc hw host p =
    (IsQuiet hw p.1 × (Failed ready alloc host p.0 ⊎ (host.hw_scan ≡ software)))
    ⊎ IsRunning hw host p

software-IsQuiet :
    (req : Option ScanRequest) (hw : Hw) (rt : Runtime) (host : ScanHost)
    → IsBusy hw rt
    → IsQuiet hw (software_scan req rt host).1
software-IsQuiet none hw rt host b = completed-IsQuiet hw rt true b.same b.filter
software-IsQuiet (some req) hw rt host b =
    let e = run_sw_scan-kept rt req host in
    completed-IsQuiet hw (run_sw_scan rt req host).1 (is_error (run_sw_scan rt req host).0)
      (ap (λ (k : Hw × (Bool × View)). k.0) e ∙ b.same)
      (ap (λ (k : Hw × (Bool × View)). k.1.0) e ∙ b.filter)

module _ (ready : Bool) (alloc : Option Errno) where
  started-Outcome :
      (s : HwScan) (hw : Hw) (rt : Runtime) (host : ScanHost)
      → host.hw_scan ≡ s
      → IsBusy hw rt
      → Outcome ready alloc hw host (scan_started s rt host)
  unfolding Outcome
  started-Outcome running hw rt host e b = inr (record {
    accepted = e;
    returned = refl;
    same = b.same;
    request = b.request;
    filter = b.filter;
  })
  started-Outcome software hw rt host e b = inl (software-IsQuiet rt.scan_req hw rt host b, inr e)
  started-Outcome (refused r) hw rt host e b =
      inl (completed-IsQuiet hw rt true b.same b.filter, inl (r, refl, driver_refused e))

  begun-Outcome :
      (o : Option Errno) (hw : Hw) (rt : Runtime) (portid : ℕ) (host : ScanHost)
      → host.begin ≡ o
      → IsBusy hw rt
      → Outcome ready alloc hw host (scan_begun o rt portid host)
  unfolding Outcome configure_scan_filter
  begun-Outcome (some e) hw rt portid host k b = inl (
    record {
      same = hw-filter rt.hw.has_filter false rt ∙ b.same;
      no_request = refl;
      no_filter =
          filter_off rt.hw.has_filter rt (b.filter ∙ ap (λ (h : Hw). h.has_filter) (sym b.same));
    },
    inl (e, refl, not_begun k),
  )
  begun-Outcome none hw rt portid host k b =
      started-Outcome host.hw_scan hw (notify (scan_begin portid) rt) host refl
        (record { same = b.same; request = b.request; filter = b.filter })

  -- What an allocation of a request leads to.
  after_alloc-Outcome :
      (rt : Runtime) (p : Option Errno × Runtime) (portid : ℕ) (host : ScanHost)
      → alloc ≡ p.0
      → ((e : Errno) × (p ≡ (some e, rt)))
        ⊎ ((req : ScanRequest) × (p ≡ (none, record rt { scan_req = some req })))
      → IsQuiet rt.hw rt
      → Outcome ready alloc rt.hw host
          (then_on p (λ rt1. scan_begun host.begin (configure_scan_filter rt1 true) portid host))
  unfolding Outcome configure_scan_filter
  after_alloc-Outcome rt p portid host k (inl (e, z)) q =
      let why : alloc ≡ some e = k ∙ ap (λ (r : Option Errno × Runtime). r.0) z in
      rw z (inl (q, inl (e, refl, no_request why)))
  after_alloc-Outcome rt p portid host k (inr (req, z)) q =
      let rt1 = record rt { scan_req = some req } in
      rw z (
        begun-Outcome host.begin rt.hw (configure_scan_filter rt1 true) portid host refl (record {
          same = hw-filter rt.hw.has_filter true rt1;
          request = ap is_scanning (req-filter rt.hw.has_filter true rt1);
          filter = filter_on rt.hw.has_filter rt1 q.no_filter;
        }))

counted-cases :
    (o : Option ℕ) (rt : Runtime) (ssids : List (List ℕ)) (memory : Bool)
    → ((e : Errno) × (alloc_counted o rt ssids memory ≡ (some e, rt)))
      ⊎ ((req : ScanRequest) × (alloc_counted o rt ssids memory
            ≡ (none, record rt { scan_req = some req })))
counted-cases none rt ssids memory = inl (eoverflow, refl)
counted-cases (some n) rt ssids memory = elim (Bool-cases (n == 0)) [
  | inl e ↦ inl (einval, rw e refl)
  | inr e ↦ elim (Bool-cases memory) [
    | inr f ↦ inl (enomem, rw (e, f) refl)
    | inl f ↦ elim (Bool-cases (some_long ssids)) [
      | inl g ↦ inl (einval, rw (e, f, g) refl)
      | inr g ↦
          inr (record { channels = all_channels rt.hw.bands; ssids = ssids }, rw (e, f, g) refl)
    ]
  ]
]

alloc-cases :
    (rt : Runtime) (ssids : List (List ℕ)) (max_ssids : ℕ) (memory : Bool)
    → is_scanning rt.scan_req ≡ false
    → ((e : Errno) × (alloc_scan_req rt ssids max_ssids memory ≡ (some e, rt)))
      ⊎ ((req : ScanRequest) × (alloc_scan_req rt ssids max_ssids memory
            ≡ (none, record rt { scan_req = some req })))
unfolding alloc_scan_req
alloc-cases rt ssids max_ssids memory n =
    rw n (counted-cases (count_channels rt.hw.bands 0) rt (names_of max_ssids ssids) memory)

-- A request for a scan, while none is running, ends in one of two ways. Either the driver has taken the
-- scan over: the call returns 0, the request is kept, and the filter is on if the driver has one. Or no
-- request is kept, the filter is off and the hardware, its channel included, as it was; then the call
-- returns an error, of the device that is not ready, of the allocation of the request, of the host or of the
-- driver, or the driver has left the scan to the software.
pub trigger_scan-ends :
    (rt : Runtime) (ssids : List (List ℕ)) (portid : ℕ) (host : ScanHost)
    → IsQuiet rt.hw rt
    → (IsQuiet rt.hw (trigger_scan rt ssids portid host).1
        × (Failed
              (rt.started && host.has_hw_scan)
              (alloc_scan_req rt ssids host.max_ssids host.memory).0
              host
              (trigger_scan rt ssids portid host).0
            ⊎ (host.hw_scan ≡ software)))
      ⊎ IsRunning rt.hw host (trigger_scan rt ssids portid host)
unfolding trigger_scan Outcome
trigger_scan-ends rt ssids portid host q =
    let alloc = alloc_scan_req rt ssids host.max_ssids host.memory in
    elim (Bool-cases (not rt.started || not host.has_hw_scan)) [
      | inl e ↦
          let off : (rt.started && host.has_hw_scan) ≡ false = ground (arith, e) in
          rw e (inl (q, inl (eopnotsupp, refl, not_ready off refl)))
      | inr e ↦ rw e (
          after_alloc-Outcome (rt.started && host.has_hw_scan) alloc.0 rt alloc portid host refl
            (alloc-cases rt ssids host.max_ssids host.memory (ap is_scanning q.no_request)) q)
    ]
