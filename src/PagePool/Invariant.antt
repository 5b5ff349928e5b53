-- ===== src/PagePool/Invariant.antt =====
-- The well-formed page list: distinct live pages with disjoint memory and a positive count. Every
-- operation keeps it, and a page is given back exactly when its last reference goes.
use lcompat.Base.{
  ℕ, ◌+◌, ◌^◌, ◌≤◌, ◌<◌, ◌≡◌, ◌≢◌, ◌⊎◌, inl, inr, List, [], ◌∷◌, ◌++◌, arith, ◌==◌, if◌then◌else◌,
  Bool-cases,
}
use lcompat.PagePool.{Page, Pages, Grant, new_page, page_alloc, page_size}

abbrev pub Fresh : ℕ → List Page → Type 0
Fresh p [] = Unit {0}
Fresh p (q ∷ qs) = (q.ptr ≢ p) × Fresh p qs

-- The memory from `addr` on shares no byte with a page.
abbrev pub Apart : (addr size : ℕ) → List Page → Type 0
Apart addr size [] = Unit {0}
Apart addr size (q ∷ qs) = ((addr + size ≤ q.addr) ⊎ (q.addr + q.size ≤ addr)) × Apart addr size qs

abbrev pub PageOk : Page → Type 0
PageOk pg = (pg.ptr ≢ 0) × (0 < pg.refcnt) × (pg.refcnt < 2 ^ 32) × (pg.addr + pg.size < 2 ^ 64)

abbrev pub AllOk : List Page → Type 0
AllOk [] = Unit {0}
AllOk (pg ∷ pgs) = PageOk pg × Fresh pg.ptr pgs × Apart pg.addr pg.size pgs × AllOk pgs

pub record IsValid (k : Pages) : Type 0 where
  pub pages : AllOk k.live

-- What the two allocators promise: an unused `struct page`, and unused memory of that size.
pub record IsUnused (g : Grant) (size : ℕ) (k : Pages) : Type 0 where
  pub page : Fresh g.page k.live
  pub frames : Apart g.frames size k.live
  pub fits : g.frames + size < 2 ^ 64

Fresh-snoc :
    (p : ℕ) (pgs : List Page) (n : Page) → Fresh p pgs → n.ptr ≢ p → Fresh p (pgs ++ (n ∷ []))
Fresh-snoc p [] n f h = (h, tt)
Fresh-snoc p (q ∷ qs) n f h = (f.0, Fresh-snoc p qs n f.1 h)

Apart-snoc :
    (a s : ℕ) (pgs : List Page) (n : Page)
    → Apart a s pgs
    → ((a + s ≤ n.addr) ⊎ (n.addr + n.size ≤ a))
    → Apart a s (pgs ++ (n ∷ []))
Apart-snoc a s [] n f h = (h, tt)
Apart-snoc a s (q ∷ qs) n f h = (f.0, Apart-snoc a s qs n f.1 h)

pub AllOk-snoc :
    (pgs : List Page) (n : Page)
    → AllOk pgs
    → PageOk n
    → Fresh n.ptr pgs
    → Apart n.addr n.size pgs
    → AllOk (pgs ++ (n ∷ []))
AllOk-snoc [] n a o f p = (o, tt, tt, tt)
AllOk-snoc (q ∷ qs) n (qo, qf, qa, rest) o (f, fs) (p, ps) = (
  qo,
  Fresh-snoc q.ptr qs n qf (λ e. f (sym_ne e)),
  Apart-snoc q.addr q.size qs n qa (swap_apart p),
  AllOk-snoc qs n rest o fs ps,
)
  where
    sym_ne : n.ptr ≡ q.ptr → q.ptr ≡ n.ptr
    sym_ne e = cc

    swap_apart :
        ((n.addr + n.size ≤ q.addr) ⊎ (q.addr + q.size ≤ n.addr))
        → ((q.addr + q.size ≤ n.addr) ⊎ (n.addr + n.size ≤ q.addr))
    swap_apart h = omega arith

-- Where what the allocators grant is unused, `lcompat_page_alloc` keeps the page list well-formed on
-- every branch.
pub page_alloc-IsValid :
    (g : Grant) (pool size : ℕ) (k : Pages)
    → IsValid k
    → IsUnused g (if size == 0 then page_size else size) k
    → IsValid (page_alloc g pool size k).1
unfolding page_alloc new_page
page_alloc-IsValid g pool size k v u = elim (Bool-cases (g.page == 0)) [
  | inl e ↦ rw e (ground (arith, v))
  | inr e ↦ ground (
    arith,
    v.pages,
    AllOk-snoc k.live (new_page g pool (if size == 0 then page_size else size)) v.pages,
  )
]
