-- ===== src/PagePool/Lists.antt =====
-- What an update and a deletion do to the page list.
use lcompat.Base.{
  ℕ, ◌^◌, ◌<◌, ◌≡◌, ◌≢◌, refl, none, some, List, [], ◌∷◌, ◌++◌, arith, ◌==◌, inl, inr, Bool-cases,
}
use lcompat.PagePool.{Page, find_page, update_page, delete_page}
use lcompat.PagePool.Invariant.{Fresh, Apart, AllOk, PageOk}

-- The write that `get_page` and `put_page` make.
abbrev pub set_refcnt : ℕ → Page → Page
set_refcnt n q = record q { refcnt = n }

pub find-Fresh : (p : ℕ) (pgs : List Page) → Fresh p pgs → find_page p pgs ≡ none
unfolding find_page
find-Fresh p [] f = refl
find-Fresh p (q ∷ qs) f = ground (arith, find-Fresh p qs)

pub ptr-find : (p : ℕ) (pgs : List Page) (pg : Page) → find_page p pgs ≡ some pg → pg.ptr ≡ p
unfolding find_page
ptr-find p [] pg e = cc
ptr-find p (q ∷ qs) pg e = ground (arith, ptr-find p qs pg)

pub find-PageOk :
    (p : ℕ) (pgs : List Page) (pg : Page) → AllOk pgs → find_page p pgs ≡ some pg → PageOk pg
unfolding find_page
find-PageOk p [] pg a e = cc
find-PageOk p (q ∷ qs) pg a e = elim (Bool-cases (q.ptr == p)) [
  | inl h ↦ let e' : q ≡ pg = ground arith in rw (← e') a.0
  | inr h ↦ find-PageOk p qs pg a.3 (rw h at e)
]

pub find-delete_self :
    (p : ℕ) (pgs : List Page) → AllOk pgs → find_page p (delete_page p pgs) ≡ none
unfolding find_page delete_page
find-delete_self p [] a = refl
find-delete_self p (q ∷ qs) a = ground (arith, find-delete_self p qs a.3, find-Fresh p qs)

pub find-delete_ne :
    (p q : ℕ) (pgs : List Page) → q ≢ p → find_page q (delete_page p pgs) ≡ find_page q pgs
unfolding find_page delete_page
find-delete_ne p q [] h = refl
find-delete_ne p q (x ∷ xs) h = ground (arith, find-delete_ne p q xs h)

pub find-update_self :
    (p n : ℕ) (pgs : List Page) (pg : Page)
    → find_page p pgs ≡ some pg
    → find_page p (update_page p (set_refcnt n) pgs) ≡ some (set_refcnt n pg)
unfolding find_page update_page
find-update_self p n [] pg e = cc
find-update_self p n (x ∷ xs) pg e = ground (arith, find-update_self p n xs pg)

pub find-update_ne :
    (p q n : ℕ) (pgs : List Page)
    → q ≢ p
    → find_page q (update_page p (set_refcnt n) pgs) ≡ find_page q pgs
unfolding find_page update_page
find-update_ne p q n [] h = refl
find-update_ne p q n (x ∷ xs) h = ground (arith, find-update_ne p q n xs h)

Fresh-delete : (p q : ℕ) (pgs : List Page) → Fresh q pgs → Fresh q (delete_page p pgs)
unfolding delete_page
Fresh-delete p q [] f = tt
Fresh-delete p q (x ∷ xs) f = ground (arith, Fresh-delete p q xs f.1)

Apart-delete : (p a s : ℕ) (pgs : List Page) → Apart a s pgs → Apart a s (delete_page p pgs)
unfolding delete_page
Apart-delete p a s [] f = tt
Apart-delete p a s (x ∷ xs) f = ground (arith, Apart-delete p a s xs f.1)

pub AllOk-delete : (p : ℕ) (pgs : List Page) → AllOk pgs → AllOk (delete_page p pgs)
unfolding delete_page
AllOk-delete p [] a = tt
AllOk-delete p (x ∷ xs) (o, f, d, rest) = elim (Bool-cases (x.ptr == p)) [
  | inl h ↦ rw (h, delete_page) rest
  | inr h ↦
      rw (h, delete_page)
        (o, Fresh-delete p x.ptr xs f, Apart-delete p x.addr x.size xs d, AllOk-delete p xs rest)
]

Fresh-update :
    (p n q : ℕ) (pgs : List Page) → Fresh q pgs → Fresh q (update_page p (set_refcnt n) pgs)
unfolding update_page
Fresh-update p n q [] f = tt
Fresh-update p n q (x ∷ xs) f = ground (arith, Fresh-update p n q xs f.1)

Apart-update :
    (p n a s : ℕ) (pgs : List Page) → Apart a s pgs → Apart a s (update_page p (set_refcnt n) pgs)
unfolding update_page
Apart-update p n a s [] f = tt
Apart-update p n a s (x ∷ xs) f = ground (arith, Apart-update p n a s xs f.1)

pub AllOk-update :
    (p n : ℕ) (pgs : List Page)
    → 0 < n
    → n < 2 ^ 32
    → AllOk pgs
    → AllOk (update_page p (set_refcnt n) pgs)
unfolding update_page
AllOk-update p n [] h l a = tt
AllOk-update p n (x ∷ xs) h l (o, f, d, rest) = elim (Bool-cases (x.ptr == p)) [
  | inl e ↦ rw (e, update_page) ((o.0, h, l, o.3), f, d, rest)
  | inr e ↦
      rw (e, update_page)
        (
          o,
          Fresh-update p n x.ptr xs f,
          Apart-update p n x.addr x.size xs d,
          AllOk-update p n xs h l rest,
        )
]

-- Two writes of a count are one.
pub update-update :
    (p n m : ℕ) (pgs : List Page)
    → update_page p (set_refcnt m) (update_page p (set_refcnt n) pgs)
      ≡ update_page p (set_refcnt m) pgs
unfolding update_page
update-update p n m [] = refl
update-update p n m (x ∷ xs) = ground (arith, update-update p n m xs)

-- Writing the count that is there changes nothing.
pub update_self :
    (p : ℕ) (pgs : List Page) (pg : Page)
    → find_page p pgs ≡ some pg
    → update_page p (set_refcnt pg.refcnt) pgs ≡ pgs
unfolding update_page find_page
update_self p [] pg e = cc
update_self p (x ∷ xs) pg e = ground (arith, update_self p xs pg)

-- A new page at the end is found, and its deletion gives the list back.
pub find_snoc :
    (n : Page) (pgs : List Page) → Fresh n.ptr pgs → find_page n.ptr (pgs ++ (n ∷ [])) ≡ some n
unfolding find_page
find_snoc n [] f = ground arith
find_snoc n (x ∷ xs) f = ground (arith, find_snoc n xs f.1)

pub delete_snoc :
    (n : Page) (pgs : List Page) → Fresh n.ptr pgs → delete_page n.ptr (pgs ++ (n ∷ [])) ≡ pgs
unfolding delete_page
delete_snoc n [] f = ground arith
delete_snoc n (x ∷ xs) f = ground (arith, delete_snoc n xs f.1)
