-- ===== src/Tests/Transfers.antt =====
-- USB: transfers of two URBs on one endpoint, and a device with two endpoints.
use lcompat.Base.{ℕ, ◌+◌, ◌≡◌, refl, true, some, List, [], ◌∷◌, ◌++◌, arith, take, drop}
use lcompat.Chain.Rep.{has}
use lcompat.Chain.Occ.{occ}
use lcompat.Usb.{fine, raw, ret, pipe_dir_in}
use lcompat.Usb.Sg.{sg_total_len}
use lcompat.Usb.Sg.Copies.{flat}
use lcompat.Chain.{pop, append}
use lcompat.Usb.Bus.{Bus, write, called, tested}
use lcompat.Usb.Urb.{after_zlp, capped, start_urb, urb_data_len, prepare_urb_buffer, deliver}
use lcompat.Usb.Urb.Lengths.{prepare_urb_buffer_gathers, deliver_scatters}
use lcompat.Usb.Bus.Tokens.{total}
use lcompat.Usb.Bus.Turns.{IsTracked}
use lcompat.Usb.Bus.Submits.{Holds}
use lcompat.Usb.Events.{Event, submitting, killing, advancing, run}
use lcompat.Usb.Events.Runs.{run-Holds}
use lcompat.Usb.Events.Calls.{calls_of, passed}
use lcompat.Usb.Events.Silent.{run-IsSettled}
use lcompat.Usb.Events.Stranded.{IsStranded, next_failed_strands}
use lcompat.Samples.Transfers.{
  codes, idle_bus, last_turn, accepted, bulk_pipe, sg_out, sg_in, pieces,
}

idle_bus-Holds : Holds idle_bus [] 2
unfolding occ total
idle_bus-Holds = record {
  tracked = record {
    queue = record { chain = refl; end = refl };
    null = refl;
    tokens = λ v. ground arith;
    turns = refl;
    stray = λ v h. refl;
  };
  counted = λ v. record { count = ground arith; alive = λ h. ground arith; few = ground arith };
}

-- Both URBs are submitted, the first one is completed, and the second one follows.
abbrev two_transfers : List Event
two_transfers =
    submitting 10 true (some (some bulk_pipe))
    ∷ submitting 20 true (some (some bulk_pipe))
    ∷ advancing 0 accepted
    ∷ advancing 0 accepted
    ∷ advancing 0 accepted
    ∷ advancing 0 accepted
    ∷ advancing 0 accepted
    ∷ advancing 0 accepted
    ∷ advancing 0 accepted
    ∷ []

two_transfers_calls : (run codes two_transfers idle_bus).calls ≡ (10, fine, 3) ∷ []
unfolding run start_urb has write after_zlp capped pipe_dir_in pop append called tested deliver
two_transfers_calls = refl

run-Holds_example : (xs' : List ℕ) × Holds (run codes two_transfers idle_bus) xs' 11
run-Holds_example = run-Holds codes two_transfers idle_bus [] 2 idle_bus-Holds (omega arith)

abbrev killed_events : List Event
killed_events =
    advancing 0 accepted ∷ submitting 20 true (some (some bulk_pipe)) ∷ advancing 0 accepted ∷ []

-- The first URB is with the host and killed there.
abbrev killed_bus : Bus
killed_bus =
    run codes (submitting 10 true (some (some bulk_pipe)) ∷ advancing 0 accepted ∷ killing 10 ∷ [])
      idle_bus

run-IsSettled_example :
    (((run codes killed_events killed_bus).urbs 10).killed ≡ true)
    × (calls_of 10 (run codes killed_events killed_bus).calls
          + total (passed 10) (run codes killed_events killed_bus).threads
        ≡ calls_of 10 killed_bus.calls + total (passed 10) killed_bus.threads)
unfolding run has write start_urb
run-IsSettled_example =
    run-IsSettled codes killed_events 10 killed_bus (tt, (omega arith, (tt, tt))) refl

last_turn-IsTracked : IsTracked last_turn (20 ∷ [])
unfolding occ total
last_turn-IsTracked = record {
  queue = record { chain = (refl, omega arith, tt, refl); end = refl };
  null = refl;
  tokens = λ v. ground arith;
  turns = refl;
  stray = λ v h. ground arith;
}

next_failed_strands_example :
    IsStranded
      (run codes
        (advancing 0 accepted
          ∷ advancing 0 accepted
          ∷ advancing 0 accepted
          ∷ advancing 0 accepted
          ∷ advancing 0 accepted
          ∷ [])
        last_turn)
      20
      []
unfolding start_urb
next_failed_strands_example =
    next_failed_strands codes accepted accepted accepted accepted accepted 10 30 20 [] last_turn
      (raw 4) last_turn-IsTracked refl refl

prepare_urb_buffer_gathers_example :
    let (len, u') = prepare_urb_buffer sg_out (some (0 ∷ 0 ∷ 0 ∷ 0 ∷ [])) in
    (len ≡ ret 4) × (take 4 u'.sg_buffer ≡ take 4 (flat pieces)) × (u'.submitted_length ≡ 4)
unfolding urb_data_len sg_total_len pipe_dir_in
prepare_urb_buffer_gathers_example =
    prepare_urb_buffer_gathers sg_out 4 (0 ∷ 0 ∷ 0 ∷ 0 ∷ []) refl refl refl (omega arith)

deliver_scatters_example :
    let (s, u') = deliver sg_in (fine, 3) (7 ∷ 8 ∷ 9 ∷ 0 ∷ 0 ∷ []) in
    (s ≡ fine) × (flat u'.sg ≡ take 3 (7 ∷ 8 ∷ 9 ∷ 0 ∷ 0 ∷ []) ++ drop 3 (flat pieces))
unfolding urb_data_len sg_total_len pipe_dir_in
deliver_scatters_example =
    deliver_scatters sg_in 5 3 (7 ∷ 8 ∷ 9 ∷ 0 ∷ 0 ∷ []) refl refl refl (omega arith) refl
      (omega arith) (omega arith)
