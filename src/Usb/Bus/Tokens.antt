-- ===== src/Usb/Bus/Tokens.antt =====
-- What the threads of an endpoint hold.
use lcompat.Base.{ℕ, ◌+◌, Bool, List, [], ◌∷◌, ◌==◌, if◌then◌else◌}
use lcompat.Usb.Bus.{Thread, appending, starting, in_flight, returned, releasing, handing, failing}

abbrev pub bit : Bool → ℕ
bit b = if b then 1 else 0

abbrev pub at : ℕ → ℕ → ℕ
at u v = if v == u then 1 else 0

-- The URB that a thread has to bring to its completion.
abbrev pub brings : ℕ → Thread → ℕ
brings u (appending v) = at u v
brings u (starting v) = at u v
brings u (in_flight v) = at u v
brings u (returned p v) = 0
brings u (releasing v) = 0
brings u (handing n v) = at u n
brings u (failing p n v) = 0

-- Whether a thread has the turn on the endpoint's pipe.
abbrev pub turn : (ℕ → Bool) → Thread → ℕ
turn shared (appending v) = 0
turn shared (starting v) = bit (shared v)
turn shared (in_flight v) = bit (shared v)
turn shared (returned p v) = bit (shared v)
turn shared (releasing v) = 0
turn shared (handing n v) = 1
turn shared (failing p n v) = 0

-- The URB that a thread takes to the queue or from it.
abbrev pub moves : ℕ → Thread → ℕ
moves u (appending v) = at u v
moves u (starting v) = 0
moves u (in_flight v) = 0
moves u (returned p v) = 0
moves u (releasing v) = 0
moves u (handing n v) = at u n
moves u (failing p n v) = 0

-- The references that a thread has yet to drop.
abbrev pub refs : ℕ → Thread → ℕ
refs u (appending v) = at u v
refs u (starting v) = at u v
refs u (in_flight v) = at u v
refs u (returned p v) = at u v
refs u (releasing v) = at u v
refs u (handing n v) = at u n + at u v
refs u (failing p n v) = at u n + at u v

unfoldable pub total : (Thread → ℕ) → List Thread → ℕ
total f [] = 0
total f (t ∷ ts) = f t + total f ts
