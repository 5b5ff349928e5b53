-- ===== src/Mac/Register.antt =====
-- mac80211.c, the life of a device: `ieee80211_register_hw` with its error labels, and
-- `ieee80211_unregister_hw`.
pub mod Unwinds
use lcompat.Base.{
  ℕ, Bool, true, false, not, ◌&&◌, ◌||◌, Option, none, some, List, [], ◌∷◌, get_or, if◌then◌else◌,
  Errno, einval, enomem, eoverflow, ℤ, pos, negsuc,
}
use lcompat.Mac.Runtime.{Hw, Band, Channel, Runtime, ConnState}
use lcompat.Mac.Transmit.{size_add}
use lcompat.Mac.Connect.{channels_of, overflows, disconnect_local}
use lcompat.Mac.Station.{is_disconnected}
use lcompat.Mac.Scan.{configure_scan_filter, free_scan_req}

abbrev pub set_first : List Channel → Hw → Option Errno × Hw
set_first [] hw = (some einval, hw)
set_first (c ∷ cs) hw =
    (none, record hw { chan = some c; width = 1; center_freq1 = c.center_freq; center_freq2 = 0 })

-- The channels of the band of 2.4 GHz, or else of that of 5 GHz.
abbrev pub first_band : List Channel → List Channel → List Channel
first_band [] five = five
first_band (c ∷ cs) five = c ∷ cs

-- `lcompat_ieee80211_default_channel`
unfoldable pub default_channel : Hw → Option Errno × Hw
default_channel hw = elim hw.chan [
  | some c ↦ (none, hw)
  | none ↦
      set_first
        (first_band (channels_of (get_or hw.bands 0 none)) (channels_of (get_or hw.bands 1 none)))
        hw
]

-- What the host and the driver answer; `none` is 0. A call that the driver does not have returns 0.
pub record Answers : Type 0 where
  pub rt_memory : Bool
  pub vif_size : ℕ
  pub txq_size : ℕ
  pub vif_memory : Bool
  pub netdev : Bool
  pub set_wireless_info : Option Errno
  pub set_trigger_scan : Option Errno
  pub set_trigger_connect : Option Errno
  pub set_trigger_disconnect : Option Errno
  pub add_interface : Option Errno
  pub start : Option Errno

-- What a registration holds: the runtime, the interface with its queue, the network device, what the
-- driver was told, and a place in the list of runtimes.
pub record Held : Type 0 where
  pub runtime : Bool
  pub vif : Bool
  pub netdev : Bool
  pub vif_added : Bool
  pub started : Bool
  pub admin_state : Bool
  pub listed : Bool

abbrev pub nothing : Held
nothing = record {
  runtime = false;
  vif = false;
  netdev = false;
  vif_added = false;
  started = false;
  admin_state = false;
  listed = false;
}

-- `lcompat_ieee80211_alloc_vif`: one answer for both blocks, since either is freed without the other
unfoldable pub alloc_vif : (vif_data txq_data : ℤ) → Answers → Option Errno
unfolding size_add
alloc_vif (negsuc m) txq_data a = some einval
alloc_vif (pos m) (negsuc n) a = some einval
alloc_vif (pos m) (pos n) a =
    if overflows (size_add a.vif_size m) || overflows (size_add a.txq_size n)
    then some eoverflow
    else if a.vif_memory
    then none
    else some enomem

-- The labels of `ieee80211_register_hw`, from the last one on.
abbrev pub err_runtime : Errno → Held → Option Errno × Held
err_runtime e held = (some e, record held { runtime = false })

abbrev pub err_vif : Errno → Held → Option Errno × Held
err_vif e held = err_runtime e (record held { vif = false })

abbrev pub err_netdev : Errno → Held → Option Errno × Held
err_netdev e held = err_vif e (record held { netdev = false })

abbrev pub err_remove_vif : Errno → Held → Option Errno × Held
err_remove_vif e held = err_netdev e (record held { vif_added = false })

-- Goes on after 0, or to a label.
abbrev pub or_goto :
    Option Errno
    → (Errno → Held → Option Errno × Held)
    → (Held → Option Errno × Held)
    → Held
    → Option Errno × Held
or_goto none label next held = next held
or_goto (some e) label next held = label e held

abbrev pub register_started : Answers → Held → Option Errno × Held
register_started a held =
    or_goto a.start err_remove_vif
      (λ h. (none, record h { started = true; admin_state = true; listed = true })) held

abbrev pub register_netdev : Answers → Held → Option Errno × Held
register_netdev a held =
    or_goto a.set_wireless_info err_netdev
      (or_goto a.set_trigger_scan err_netdev (
        or_goto a.set_trigger_connect err_netdev (
          or_goto a.set_trigger_disconnect err_netdev (
            or_goto a.add_interface err_netdev
              (λ h. register_started a (record h { vif_added = true }))))))
      (record held { netdev = true })

abbrev pub register_runtime : (vif_data txq_data : ℤ) → Answers → Held → Option Errno × Held
register_runtime vif_data txq_data a held =
    or_goto (alloc_vif vif_data txq_data a) err_runtime
      (λ h.
        if a.netdev
        then register_netdev a (record h { vif = true })
        else err_vif enomem (record h { vif = true }))
      (record held { runtime = true })

-- `ieee80211_register_hw` on a device that is not registered
unfoldable pub register_hw : Hw → (vif_data : ℤ) → Answers → Option Errno × Held
unfolding default_channel alloc_vif
register_hw hw vif_data a =
    or_goto (default_channel hw).0 (λ e h. (some e, h))
      (λ h.
        if a.rt_memory then register_runtime vif_data hw.txq_data_size a h else (some enomem, h))
      nothing

-- The connection ends first, if there is one.
abbrev pub leave : Runtime → Runtime
leave rt = if is_disconnected rt.conn_state then rt else disconnect_local rt 3 0 false

-- `ieee80211_unregister_hw`: what is held after it, and the runtime just before it is freed
unfoldable pub unregister_hw : Held → Runtime → Held × Runtime
unfolding disconnect_local configure_scan_filter
unregister_hw held rt =
    if held.runtime
    then (
      record held {
        listed = false;
        admin_state = false;
        started = false;
        vif_added = false;
        netdev = false;
        vif = false;
        runtime = false;
      },
      record (free_scan_req (configure_scan_filter (record (leave rt) { started = false }) false)) {
        sta = none;
        rx_queue = [];
        txq = [];
      },
    )
    else (held, rt)
