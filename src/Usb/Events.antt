-- ===== src/Usb/Events.antt =====
-- What happens on an endpoint: the calls of a driver and the sections of all threads, in any order.
pub mod Runs
pub mod Calls
pub mod Silent
pub mod Stranded
use lcompat.Base.{ℕ, zero, suc, Bool, true, Option, none, some, List, [], ◌∷◌, ℤ, if◌then◌else◌}
use lcompat.Chain.Rep.{has, erase}
use lcompat.Usb.{Codes}
use lcompat.Usb.Urb.{NativePipe, Urb, usb_free_urb}
use lcompat.Usb.Bus.{Thread, Bus, write, usb_submit_urb, Answers, proceed}

-- The thread at a place of the list, and the others.
unfoldable pub pick : ℕ → List Thread → Option (Thread × List Thread)
pick i [] = none
pick zero (t ∷ ts) = some (t, ts)
pick (suc i) (t ∷ ts) = elim (pick i ts) [ none ↦ none | some r ↦ some (r.0, t ∷ r.1) ]

-- The section of the thread that was picked.
unfoldable pub picked : Codes → Answers → Option (Thread × List Thread) → Bus → Bus
unfolding proceed
picked c a none s = s
picked c a (some (t, rest)) s = proceed c a t (record s { threads = rest })

-- `usb_fill_bulk_urb`
unfoldable pub usb_fill_bulk_urb :
    Urb → (dev : Bool) (pipe : ℕ) (buffer : Bool) (length : ℤ) (complete : Bool) → Urb
usb_fill_bulk_urb u dev pipe buffer length complete = record u {
  has_dev = dev;
  pipe = pipe;
  has_buffer = buffer;
  transfer_buffer_length = length;
  has_complete = complete;
}

-- What happens: calls of a driver, and the next section of some thread. `killing` is `usb_kill_urb` up
-- to its wait, and `dropping` a driver's `usb_free_urb`.
pub data Event : Type 0 where
  submitting : (u : ℕ) (memory : Bool) (lookup : Option (Option NativePipe)) → Event
  filling : (u : ℕ) (dev : Bool) (pipe : ℕ) (buffer : Bool) (length : ℤ) (complete : Bool) → Event
  killing dropping : (u : ℕ) → Event
  advancing : (i : ℕ) → Answers → Event

-- A driver uses only what it has a reference to.
unfoldable pub step : Codes → Event → Bus → Bus
unfolding usb_submit_urb picked pick usb_fill_bulk_urb
step c (submitting u memory lookup) s =
    if has u s.held then (usb_submit_urb u memory lookup s).1 else s
step c (filling u dev pipe buffer length complete) s =
    if has u s.held
    then record s {
      urbs = write s.urbs u (usb_fill_bulk_urb (s.urbs u) dev pipe buffer length complete);
    }
    else s
step c (killing u) s =
    if has u s.held
    then record s { urbs = write s.urbs u (record (s.urbs u) { killed = true }) }
    else s
step c (dropping u) s =
    if has u s.held
    then record s { urbs = write s.urbs u (usb_free_urb (s.urbs u)); held = erase u s.held }
    else s
step c (advancing i a) s = picked c a (pick i s.threads) s

unfoldable pub run : Codes → List Event → Bus → Bus
unfolding step
run c [] s = s
run c (e ∷ es) s = run c es (step c e s)
