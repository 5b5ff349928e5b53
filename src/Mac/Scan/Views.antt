-- ===== src/Mac/Scan/Views.antt =====
-- A scan does not touch the connection.
use lcompat.Base.{
  ℕ, ◌≡◌, ◌∙◌, refl, ap, Bool, true, false, not, ◌||◌, ◌==◌, Option, none, some, List,
  if◌then◌else◌, Errno,
}
use lcompat.Mac.Runtime.{Runtime, Hw, ScanRequest, notify, scan_begin}
use lcompat.Mac.Station.Invariant.{View, view, view-if}
use lcompat.Mac.Scan.{
  HwScan, ScanHost, running, software, refused, then_on, configure_scan_filter, is_scanning,
  names_of, some_long, count_channels, alloc_counted, alloc_scan_req, run_sw_scan, scan_completed,
  is_error, software_scan, scan_started, scan_begun, trigger_scan,
}
use lcompat.Mac.Scan.Ends.{run_sw_scan-kept}

view-either :
    (b : Bool) (p q : Runtime) (v : View) → view p ≡ v → view q ≡ v → view (if b then p else q) ≡ v
view-either true p q v e f = e
view-either false p q v e f = f

view-configure : (rt : Runtime) (enable : Bool) → view (configure_scan_filter rt enable) ≡ view rt
unfolding configure_scan_filter
view-configure rt enable = view-either rt.hw.has_filter _ _ (view rt) refl refl

pub view-scan_completed :
    (rt : Runtime) (aborted : Bool) → view (scan_completed rt aborted) ≡ view rt
unfolding scan_completed
view-scan_completed rt aborted = view-configure rt false

view-software :
    (req : Option ScanRequest) (rt : Runtime) (host : ScanHost)
    → view (software_scan req rt host).1 ≡ view rt
view-software none rt host = view-scan_completed rt true
view-software (some req) rt host =
    view-scan_completed (run_sw_scan rt req host).1 (is_error (run_sw_scan rt req host).0)
    ∙ ap (λ (k : Hw × (Bool × View)). k.1.1) (run_sw_scan-kept rt req host)

view-started :
    (s : HwScan) (rt : Runtime) (host : ScanHost) → view (scan_started s rt host).1 ≡ view rt
view-started running rt host = refl
view-started software rt host = view-software rt.scan_req rt host
view-started (refused e) rt host = view-scan_completed rt true

view-begun :
    (o : Option Errno) (rt : Runtime) (portid : ℕ) (host : ScanHost)
    → view (scan_begun o rt portid host).1 ≡ view rt
view-begun (some e) rt portid host = view-configure rt false
view-begun none rt portid host = view-started host.hw_scan (notify (scan_begin portid) rt) host

view-counted :
    (o : Option ℕ) (rt : Runtime) (ssids : List (List ℕ)) (memory : Bool)
    → view (alloc_counted o rt ssids memory).1 ≡ view rt
view-counted none rt ssids memory = refl
view-counted (some n) rt ssids memory =
    view-if (n == 0) _ _ (view rt) refl
      (view-if (not memory) _ _ (view rt) refl (view-if (some_long ssids) _ _ (view rt) refl refl))

view-alloc :
    (rt : Runtime) (ssids : List (List ℕ)) (max_ssids : ℕ) (memory : Bool)
    → view (alloc_scan_req rt ssids max_ssids memory).1 ≡ view rt
unfolding alloc_scan_req
view-alloc rt ssids max_ssids memory =
    view-if (is_scanning rt.scan_req) _ _ (view rt) refl
      (view-counted (count_channels rt.hw.bands 0) rt (names_of max_ssids ssids) memory)

view-then_on :
    (p : Option Errno × Runtime) (next : Runtime → Option Errno × Runtime)
    → ((rt : Runtime) → view (next rt).1 ≡ view rt)
    → view (then_on p next).1 ≡ view p.1
view-then_on (some e, rt) next h = refl
view-then_on (none, rt) next h = h rt

pub view-trigger_scan :
    (rt : Runtime) (ssids : List (List ℕ)) (portid : ℕ) (host : ScanHost)
    → view (trigger_scan rt ssids portid host).1 ≡ view rt
unfolding trigger_scan
view-trigger_scan rt ssids portid host =
    view-if (not rt.started || not host.has_hw_scan) _ _ (view rt) refl (
      view-then_on (alloc_scan_req rt ssids host.max_ssids host.memory)
        (λ rt1. scan_begun host.begin (configure_scan_filter rt1 true) portid host)
        (λ rt1.
          view-begun host.begin (configure_scan_filter rt1 true) portid host
          ∙ view-configure rt1 true)
      ∙ view-alloc rt ssids host.max_ssids host.memory)
