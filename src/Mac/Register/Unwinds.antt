-- ===== src/Mac/Register/Unwinds.antt =====
-- A registration that fails holds nothing.
use lcompat.Base.{◌≡◌, refl, Bool, true, false, Option, none, some, Errno, if◌then◌else◌, ℤ}
use lcompat.Mac.Runtime.{Hw}
use lcompat.Mac.Register.{
  Answers, Held, nothing, default_channel, alloc_vif, err_netdev, or_goto, register_netdev,
  register_hw,
}

-- Everything is held, or nothing and there is an error.
abbrev pub IsComplete : Held → Type 0
IsComplete held = ◌≡◌ {A = Held} held (record {
  runtime = true;
  vif = true;
  netdev = true;
  vif_added = true;
  started = true;
  admin_state = true;
  listed = true;
})

abbrev pub IsUnwound : Option Errno × Held → Type 0
IsUnwound (none, held) = IsComplete held
IsUnwound (some e, held) = held ≡ nothing

goto-IsUnwound :
    (o : Option Errno) (label : Errno → Held → Option Errno × Held)
    (next : Held → Option Errno × Held) (held : Held)
    → ((e : Errno) → IsUnwound (label e held))
    → IsUnwound (next held)
    → IsUnwound (or_goto o label next held)
goto-IsUnwound none label next held h k = k
goto-IsUnwound (some e) label next held h k = h e

IsUnwound-if :
    (b : Bool) (p q : Option Errno × Held)
    → IsUnwound p
    → IsUnwound q
    → IsUnwound (if b then p else q)
IsUnwound-if true p q h k = h
IsUnwound-if false p q h k = k

-- With a network device.
abbrev pub connected_held : Held
connected_held = record nothing { runtime = true; vif = true; netdev = true }

netdev-IsUnwound :
    (a : Answers) → IsUnwound (register_netdev a (record nothing { runtime = true; vif = true }))
netdev-IsUnwound a =
    goto-IsUnwound a.set_wireless_info err_netdev _ connected_held (λ e. refl)
      (goto-IsUnwound a.set_trigger_scan err_netdev _ connected_held (λ e. refl)
        (goto-IsUnwound a.set_trigger_connect err_netdev _ connected_held (λ e. refl)
          (goto-IsUnwound a.set_trigger_disconnect err_netdev _ connected_held (λ e. refl)
            (goto-IsUnwound a.add_interface err_netdev _ connected_held (λ e. refl)
              (goto-IsUnwound a.start _ _ _ (λ e. refl) refl)))))

-- Whatever fails, and wherever, `ieee80211_register_hw` gives back all that it has taken: it returns an
-- error and holds nothing, or it returns 0 and holds the runtime, the interface, the network device, the
-- driver's interface and start, the administrative state and the place in the list.
pub register_hw-IsUnwound :
    (hw : Hw) (vif_data : ℤ) (a : Answers) → IsUnwound (register_hw hw vif_data a)
unfolding register_hw
register_hw-IsUnwound hw vif_data a =
    goto-IsUnwound (default_channel hw).0 _ _ nothing (λ e. refl)
      (IsUnwound-if a.rt_memory _ _
        (goto-IsUnwound (alloc_vif vif_data hw.txq_data_size a) _ _ _ (λ e. refl)
          (IsUnwound-if a.netdev _ _ (netdev-IsUnwound a) refl))
        refl)
