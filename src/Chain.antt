-- ===== src/Chain.antt =====
-- Singly linked queues over `next` links with a head and a tail pointer, the shape that
-- `struct sk_buff_head` (include/linux/skbuff.h), `struct workqueue_struct` (workqueue.c) and the pending
-- transfers of usb.c share. Objects are known by their addresses, 0 is NULL; the links are a function.
pub mod Rep
pub mod Laws
pub mod Unlink
pub mod Occ
use lcompat.Base.{ℕ, zero, suc, Bool, true, false, Option, none, some, ◌==◌, if◌then◌else◌}

abbrev pub Links : Type 0
Links = ℕ → ℕ

-- A write to a link.
unfoldable pub update : Links → ℕ → ℕ → Links
update next p v q = if q == p then v else next q

pub record Ends : Type 0 where
  pub head : ℕ
  pub tail : ℕ

abbrev pub ends : ℕ → ℕ → Ends
ends h t = record { head = h; tail = t }

-- `x->next = NULL; if (tail) tail->next = x; else head = x; tail = x;`
unfoldable pub append : ℕ → Links → Ends → Links × Ends
append x next e =
    if e.tail == 0
    then (update next x 0, ends x x)
    else (update (update next x 0) e.tail x, ends e.head x)

-- `x->next = head; head = x; if (!tail) tail = x;`
unfoldable pub push_front : ℕ → Links → Ends → Links × Ends
push_front x next e = (update next x e.head, ends x (if e.tail == 0 then x else e.tail))

-- `x = head; if (x) { head = x->next; if (!head) tail = NULL; x->next = NULL; }`
unfoldable pub pop : Links → Ends → ℕ × Links × Ends
pop next e =
    if e.head == 0
    then (0, next, e)
    else (e.head, update next e.head 0, ends (next e.head) (if next e.head == 0 then 0 else e.tail))

-- What the loop of an unlink does when it meets the object, behind `prev` (0 at the head).
unfoldable pub cut : (prev x : ℕ) → Links → Ends → Links × Ends
cut prev x next e = (
  update (if prev == 0 then next else update next prev (next x)) x 0,
  ends (if prev == 0 then next x else e.head) (if e.tail == x then prev else e.tail),
)

-- The loop `for (cur = head; cur; cur = cur->next)` that looks for `x`, with fuel; whether it was found.
unfoldable pub unlink_loop : (fuel prev cur x : ℕ) → Links → Ends → Option (Bool × Links × Ends)
unlink_loop zero prev cur x next e = none
unlink_loop (suc fuel) prev cur x next e =
    let rest = unlink_loop fuel cur (next cur) x next e in
    if cur == 0
    then some (false, next, e)
    else if cur == x
    then (let (next', e') = cut prev x next e in some (true, next', e'))
    else rest

unfoldable pub unlink : (fuel x : ℕ) → Links → Ends → Option (Bool × Links × Ends)
unlink fuel x next e = unlink_loop fuel 0 e.head x next e
