-- ===== src/Mac/Scan/Ends.antt =====
-- A scan leaves the hardware as it found it.
use lcompat.Base.{
  ℕ, ◌+◌, ◌-◌, ◌≡◌, refl, sym, subst, Bool, true, false, not, ◌&&◌, Option, none, some, List, [],
  ◌∷◌, ltb, ◌==◌, if◌then◌else◌, length, Errno,
}
use lcompat.Base.Words.{uint_max}
use lcompat.Mac.Runtime.{Runtime, Hw, Band, Channel, ScanRequest}
use lcompat.Mac.Rates.{current_band}
use lcompat.Mac.Transmit.{send_mgmt, alloc_tx_skb}
use lcompat.Mac.Probe.{
  send_probe_sized, send_probe_on, send_probe_req, probe_len, probe_ies, probe_rates,
}
use lcompat.Mac.Connect.{find_channel_by_freq, same_channel, tune, set_channel}
use lcompat.Mac.Station.Invariant.{View, view}
use lcompat.Mac.Scan.{
  ScanHost, then_on, tuned, probe_names, or_empty_name, scan_channels, run_sw_scan,
}

-- The part of a runtime that a scan must give back.
abbrev pub kept : Runtime → Hw × (Bool × View)
kept rt = (rt.hw, (rt.scan_filter_active, view rt))

kept-if :
    {X : Type 0}
    → (b : Bool) (p q : X × Runtime) (k : Hw × (Bool × View)) → kept p.1 ≡ k
    → kept q.1 ≡ k
    → kept (if b then p else q).1 ≡ k
kept-if true p q k e f = e
kept-if false p q k e f = f

kept-send_mgmt : (rt : Runtime) (frame : List ℕ) → kept (send_mgmt rt frame).1 ≡ kept rt
unfolding send_mgmt
kept-send_mgmt rt frame = kept-if rt.hw.has_tx _ _ (kept rt) refl refl

kept-probe_sized :
    (rt : Runtime) (total : Option ℕ) (ies : List ℕ) (memory : Bool)
    → kept (send_probe_sized rt total ies memory).1 ≡ kept rt
kept-probe_sized rt none ies memory = refl
kept-probe_sized rt (some n) ies memory = kept-if (ltb uint_max n) _ _ (kept rt) refl (
    kept-if (not (alloc_tx_skb rt.hw.extra_tx_headroom n memory)) _ _ (kept rt) refl
      (kept-if (length ies == n - 24) _ _ (kept rt) (kept-send_mgmt _ _) refl))

kept-probe_on :
    (b : Option Band) (rt : Runtime) (name : List ℕ) (memory : Bool)
    → kept (send_probe_on b rt name memory).1 ≡ kept rt
kept-probe_on none rt name memory = refl
kept-probe_on (some b) rt name memory =
    kept-probe_sized rt (probe_len name (probe_rates b)) (probe_ies name (probe_rates b)) memory

kept-send_probe_req :
    (rt : Runtime) (name : List ℕ) (memory : Bool)
    → kept (send_probe_req rt name memory).1 ≡ kept rt
unfolding send_probe_req
kept-send_probe_req rt name memory = kept-probe_on (current_band rt.hw) rt name memory

-- It differs from what it was in the channel of the hardware only.
Differs : Hw × (Bool × View) → Hw × (Bool × View) → Type 0
Differs from k =
    ◌≡◌ {A = Hw × (Bool × View)}
      (
        record (k.0) {
          chan = from.0.chan;
          center_freq1 = from.0.center_freq1;
          center_freq2 = from.0.center_freq2;
          width = from.0.width;
        },
        k.1,
      )
      from

then_on-Differs :
    (from : Hw × (Bool × View)) (p : Option Errno × Runtime)
    (next : Runtime → Option Errno × Runtime)
    → Differs from (kept p.1)
    → ((rt : Runtime) → Differs from (kept rt) → Differs from (kept (next rt).1))
    → Differs from (kept (then_on p next).1)
then_on-Differs from (none, rt) next d h = h rt d
then_on-Differs from (some e, rt) next d h = d

probe_names-Differs :
    (from : Hw × (Bool × View)) (names : List (List ℕ)) (s : ℕ) (memory : ℕ → Bool) (rt : Runtime)
    → Differs from (kept rt)
    → Differs from (kept (probe_names names s memory rt).1)
unfolding probe_names
probe_names-Differs from [] s memory rt d = d
probe_names-Differs from (name ∷ names) s memory rt d =
    then_on-Differs from (send_probe_req rt name (memory s)) (probe_names names (s + 1) memory)
      (subst (Differs from) (sym (kept-send_probe_req rt name (memory s))) d)
      (λ rt1. probe_names-Differs from names (s + 1) memory rt1)

Differs-if :
    (b : Bool) (from : Hw × (Bool × View)) (flag : Bool × View) (p q : Option Errno × Hw)
    → Differs from (p.1, flag)
    → Differs from (q.1, flag)
    → Differs from ((if b then p else q).1, flag)
Differs-if true from flag p q d e = d
Differs-if false from flag p q d e = e

tune-Differs :
    (c : Option Channel) (from : Hw × (Bool × View)) (hw : Hw) (flag : Bool × View) (frequency : ℕ)
    (config : Option Errno)
    → Differs from (hw, flag)
    → Differs from ((tune c hw frequency config).1, flag)
unfolding Differs
tune-Differs none from hw flag frequency config d = d
tune-Differs (some c) from hw flag frequency config d =
    Differs-if (same_channel hw.chan c && hw.center_freq1 == frequency) from flag _ _ d d

set_channel-Differs :
    (from : Hw × (Bool × View)) (hw : Hw) (flag : Bool × View) (frequency : ℕ)
    (config : Option Errno)
    → Differs from (hw, flag)
    → Differs from ((set_channel hw frequency config).1, flag)
unfolding set_channel
set_channel-Differs from hw flag frequency config d =
    Differs-if (frequency == 0) from flag _ _ d
      (tune-Differs (find_channel_by_freq hw.bands frequency) from hw flag frequency config d)

scan_channels-Differs :
    (from : Hw × (Bool × View)) (cs : List Channel) (ch : ℕ) (names : List (List ℕ))
    (host : ScanHost) (rt : Runtime)
    → Differs from (kept rt)
    → Differs from (kept (scan_channels cs ch names host rt).1)
unfolding scan_channels
scan_channels-Differs from [] ch names host rt d = d
scan_channels-Differs from (c ∷ cs) ch names host rt d =
    then_on-Differs from (tuned (set_channel rt.hw c.center_freq (host.config ch)) rt)
      (λ rt1.
        then_on (probe_names (or_empty_name names) 0 (host.skb_memory ch) rt1)
          (scan_channels cs (ch + 1) names host))
      (set_channel-Differs from rt.hw (rt.scan_filter_active, view rt) c.center_freq
        (host.config ch) d)
      (λ rt1 d1.
        then_on-Differs from (probe_names (or_empty_name names) 0 (host.skb_memory ch) rt1)
          (scan_channels cs (ch + 1) names host)
          (probe_names-Differs from (or_empty_name names) 0 (host.skb_memory ch) rt1 d1)
          (λ rt2. scan_channels-Differs from cs (ch + 1) names host rt2))

-- A scan in software leaves the hardware as it was, its channel included, also where the driver refuses
-- a channel or a frame in the middle; the filter and the connection stay as they were, too.
pub run_sw_scan-kept :
    (rt : Runtime) (req : ScanRequest) (host : ScanHost)
    → kept (run_sw_scan rt req host).1 ≡ kept rt
unfolding run_sw_scan Differs
run_sw_scan-kept rt req host =
    kept-if (not host.has_sw_scan) _ _ (kept rt) refl
      (scan_channels-Differs (kept rt) req.channels 0 req.ssids host rt refl)
