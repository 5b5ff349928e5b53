-- ===== src/Usb/Bus.antt =====
-- Transfers on the endpoint of a wrapper: `usb_submit_urb`, `lcompat_usb_urb_complete` with the queue of
-- the endpoint, `usb_kill_urb` and `usb_free_urb`, cut into the sections that run without interruption. A
-- section ends at the lock, where the host is given a transfer, where `killed` is tested, and where a
-- driver's `complete` is called, so what a driver does there are events of its own. A URB is known by its address, 0 is NULL.
pub mod Tokens
pub mod Kept
pub mod Turns
pub mod Sections
pub mod Counts
pub mod Owners
pub mod Submits
use lcompat.Base.{
  ℕ, zero, suc, Bool, true, false, not, ◌&&◌, ◌||◌, Option, none, some, List, ◌∷◌, Errno, einval,
  ebusy, enomem, enoent, einprogress, ℤ, ◌==◌, if◌then◌else◌,
}
use lcompat.Base.Words.{add_u32}
use lcompat.Chain.{Links, Ends, update, append, pop}
use lcompat.Usb.{Status, fine, error, Outcome, ret, bad, Codes}
use lcompat.Usb.Urb.{
  NativePipe, Urb, StartHost, start_urb, capped, after_zlp, deliver, usb_free_urb,
}

-- How far a completion is: about to look whether the URB is killed, with the `complete` that was read,
-- about to call it, or past the call.
pub data Phase : Type 0 where
  testing : Bool → Phase
  calling past : Phase

-- Where a thread is: about to append a URB to the queue or to start it, with the host, in the completion
-- of a URB, about to start the next URB, in the completion of a next URB that did not start, and
-- about to drop the reference of the transfer.
pub data Thread : Type 0 where
  appending starting in_flight releasing : ℕ → Thread
  returned : Phase → ℕ → Thread
  handing : (next u : ℕ) → Thread
  failing : Phase → (next u : ℕ) → Thread

-- The URBs, the queue and the `pipe_busy` of the endpoint, and where the threads are. `shared` are the
-- URBs whose `queue_owner` is this endpoint; the others have a pipe of their own. `held` are the
-- references of the driver, and `calls` the calls of `complete`, the last one first.
pub record Bus : Type 0 where
  pub urbs : ℕ → Urb
  pub shared : ℕ → Bool
  pub links : Links
  pub list : Ends
  pub pipe_busy : Bool
  pub threads : List Thread
  pub held : List ℕ
  pub calls : List (ℕ × Status × ℕ)

unfoldable pub write : (ℕ → Urb) → ℕ → Urb → ℕ → Urb
write urbs u v p = if p == u then v else urbs p

-- What `usb_submit_urb` sets before it takes the lock.
unfoldable pub begun : Urb → Option NativePipe → Urb
begun u p = record u {
  has_state = true;
  native_pipe = p;
  status = error einprogress;
  actual_length = 0;
  submitted = true;
  killed = false;
  completed_length = 0;
  zlp_pending = false;
  queued = false;
  refcount = add_u32 u.refcount 1;
}

-- The first locked section of `usb_submit_urb`, with what stands before it.
unfoldable pub enqueue : ℕ → Option NativePipe → Bus → Bus
unfolding begun
enqueue u p s =
    let s1 = record s { urbs = write s.urbs u (begun (s.urbs u) p); links = update s.links u 0 } in
    if s.shared u && s.pipe_busy
    then record s1 { threads = appending u ∷ s.threads }
    else record s1 { pipe_busy = s.shared u || s.pipe_busy; threads = starting u ∷ s.threads }

-- What follows the look-up of the pipe.
unfoldable pub submit_found : ℕ → (lookup : Option (Option NativePipe)) → Bus → Option Errno × Bus
unfolding enqueue
submit_found u none s =
    (some enoent, record s { urbs = write s.urbs u (record (s.urbs u) { has_state = true }) })
submit_found u (some p) s = (none, enqueue u p s)

-- `usb_submit_urb` up to the end of its first locked section; `memory` says whether there is memory for
-- the state, and `lookup` is what `lcompat_usb_get_native_pipe` finds: none for NULL, else the
-- `native_pipe` of the state behind it.
unfoldable pub usb_submit_urb :
    ℕ → (memory : Bool) → (lookup : Option (Option NativePipe)) → Bus → Option Errno × Bus
unfolding submit_found
usb_submit_urb u memory lookup s =
    if u == 0 || not (s.urbs u).has_dev
    then (some einval, s)
    else if (s.urbs u).submitted
    then (some ebusy, s)
    else if not ((s.urbs u).has_state || memory)
    then (some enomem, s)
    else submit_found u lookup s

-- The host's part in a section.
pub record Answers : Type 0 where
  pub start : StartHost
  pub code : ℤ
  pub actual : ℕ
  pub bytes : List ℕ

-- The test of `killed` and of `complete`.
unfoldable pub tested : Urb → (complete : Bool) → Phase
tested v complete = if not v.killed && complete then calling else past

-- The call of `complete`, which is given the URB.
unfoldable pub called : ℕ → Urb → List (ℕ × Status × ℕ) → List (ℕ × Status × ℕ)
called u v calls = (u, v.status, v.actual_length) ∷ calls

-- What `usb_submit_urb` does behind the start of a transfer.
unfoldable pub started : ℕ → Outcome ℕ × Urb → Bus → Bus
started u (ret n, v) s = record s { urbs = write s.urbs u v; threads = in_flight u ∷ s.threads }
started u (bad e, v) s = record s {
  urbs = write s.urbs u (usb_free_urb (record v { submitted = false }));
  pipe_busy = not (s.shared u) && s.pipe_busy;
}

-- A completion behind the packet of length zero, up to the test of `killed`.
unfoldable pub finish : ℕ → Status × Urb → (actual : ℕ) → Bus → Bus
finish u (status, v) actual s =
    let v1 = record v { submitted = false; status = status; actual_length = actual } in
    record s { urbs = write s.urbs u v1; threads = returned (testing v.has_complete) u ∷ s.threads }

-- A completion, unless it is to wait for a packet of length zero.
unfoldable pub completed : ℕ → Option (Status × ℕ) × Urb → (bytes : List ℕ) → Bus → Bus
unfolding finish
completed u (none, v) bytes s = record s {
  urbs = write s.urbs u v;
  threads = in_flight u ∷ s.threads;
}
completed u (some r, v) bytes s = finish u (deliver v r bytes) r.1 s

-- `lcompat_usb_urb_complete` up to the test of `killed`.
unfoldable pub urb_complete : Codes → Answers → ℕ → Bus → Bus
unfolding completed
urb_complete c a u s =
    if not (s.urbs u).submitted
    then s
    else completed u (after_zlp c (s.urbs u) (capped c (s.urbs u) a.code a.actual) a.start.answer)
        a.bytes s

-- The locked section behind the call of `complete`: the next URB of the queue, or the end of the turn.
unfoldable pub next_turn : ℕ → Bus → Bus
next_turn u s =
    if not (s.shared u)
    then record s { threads = releasing u ∷ s.threads }
    else (let (next, links', list') = pop s.links s.list in
        if next == 0
        then record s { pipe_busy = false; threads = releasing u ∷ s.threads }
        else record s {
          urbs = write s.urbs next (record (s.urbs next) { queued = false });
          links = links';
          list = list';
          threads = handing next u ∷ s.threads;
        })

-- What a completion does behind the start of the next URB, up to the test of `killed`.
unfoldable pub next_started : (next u : ℕ) → Outcome ℕ × Urb → Bus → Bus
next_started next u (ret n, v) s = record s {
  urbs = write s.urbs next v;
  threads = in_flight next ∷ releasing u ∷ s.threads;
}
next_started next u (bad e, v) s =
    let v1 = record v { status = e; actual_length = 0; submitted = false } in
    record s {
      urbs = write s.urbs next v1;
      pipe_busy = false;
      threads = failing (testing v.has_complete) next u ∷ s.threads;
    }

-- The next section of a thread that has been taken from the list.
unfoldable pub proceed : Codes → Answers → Thread → Bus → Bus
unfolding started urb_complete next_turn next_started tested called
proceed c a (appending u) s =
    let (links', list') = append u s.links s.list in
    record s {
      urbs = write s.urbs u (record (s.urbs u) { queued = true });
      links = links';
      list = list';
    }
proceed c a (starting u) s = started u (start_urb (s.urbs u) a.start) s
proceed c a (in_flight u) s = urb_complete c a u s
proceed c a (returned (testing complete) u) s = record s {
  threads = returned (tested (s.urbs u) complete) u ∷ s.threads;
}
proceed c a (returned calling u) s = record s {
  calls = called u (s.urbs u) s.calls;
  threads = returned past u ∷ s.threads;
}
proceed c a (returned past u) s = next_turn u s
proceed c a (handing next u) s = next_started next u (start_urb (s.urbs next) a.start) s
proceed c a (failing (testing complete) next u) s = record s {
  threads = failing (tested (s.urbs next) complete) next u ∷ s.threads;
}
proceed c a (failing calling next u) s = record s {
  calls = called next (s.urbs next) s.calls;
  threads = failing past next u ∷ s.threads;
}
proceed c a (failing past next u) s = record s {
  urbs = write s.urbs next (usb_free_urb (s.urbs next));
  threads = releasing u ∷ s.threads;
}
proceed c a (releasing u) s = record s { urbs = write s.urbs u (usb_free_urb (s.urbs u)) }
