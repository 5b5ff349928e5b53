-- ===== src/PagePool/Lookup.antt =====
-- From an address to its page, the end of a pool, and the frames of a large order.
use lcompat.Base.{
  ℕ, ◌+◌, ◌≤◌, ◌<◌, ◌≡◌, ◌≢◌, refl, some, List, [], ◌∷◌, arith, ◌==◌, inl, inr, if◌then◌else◌,
  Bool-cases, map, ltb, leb, ◌&&◌, false, ap, ◌⊎◌,
}
use lcompat.Base.Words.{add_u64}
use lcompat.PagePool.{
  Page, Pages, find_page, find_addr, virt_to_head_page, disown, page_pool_destroy,
}
use lcompat.PagePool.Invariant.{IsValid, AllOk, Fresh, Apart}

-- The page that owns the byte at `a`.
pub record Owns (k : Pages) (p a : ℕ) : Type 0 where
  pub page : Page
  pub found : find_page p k.live ≡ some page
  pub above : page.addr ≤ a
  pub below : a < page.addr + page.size

-- A found page is apart from whatever is apart from its list.
find-Apart :
    (a s p : ℕ) (pgs : List Page) (pg : Page)
    → Apart a s pgs
    → find_page p pgs ≡ some pg
    → (a + s ≤ pg.addr) ⊎ (pg.addr + pg.size ≤ a)
unfolding find_page
find-Apart a s p [] pg d e = cc
find-Apart a s p (x ∷ xs) pg d e = elim (Bool-cases (x.ptr == p)) [
  | inl h ↦ let e' : x ≡ pg = ground arith in rw (← e') d.0
  | inr h ↦ find-Apart a s p xs pg d.1 (rw h at e)
]

find_addr_complete :
    (p a : ℕ) (pgs : List Page) (pg : Page)
    → AllOk pgs
    → find_page p pgs ≡ some pg
    → pg.addr ≤ a
    → a < pg.addr + pg.size
    → find_addr a pgs ≡ p
unfolding find_addr find_page
find_addr_complete p a [] pg v e lo hi = cc
find_addr_complete p a (x ∷ xs) pg (o, f, d, rest) e lo hi = elim (Bool-cases (x.ptr == p)) [
  | inl h ↦
      let e' : x ≡ pg = ground arith in
      ground (arith, ap (λ (q : Page). q.addr) e', ap (λ (q : Page). q.size) e')
  | inr h ↦
      let e' = rw h at e in
      ground (arith, find-Apart x.addr x.size p xs pg d e', find_addr_complete p a xs pg rest e')
]

-- On a well-formed page list, `virt_to_head_page` of an address that is not NULL and lies inside a
-- live page's memory is that page.
pub virt_to_head_page_complete :
    (p a : ℕ) (k : Pages) → IsValid k → a ≢ 0 → Owns k p a → virt_to_head_page a k ≡ p
unfolding virt_to_head_page
virt_to_head_page_complete p a k v nz o =
    ground (arith, find_addr_complete p a k.live o.page v.pages o.found o.above o.below)

find-Fresh_ne :
    (p : ℕ) (x : Page) (xs : List Page) (pg : Page)
    → Fresh x.ptr xs
    → find_page p xs ≡ some pg
    → x.ptr ≢ p
unfolding find_page
find-Fresh_ne p x [] pg f e = cc
find-Fresh_ne p x (y ∷ ys) pg f e = elim (Bool-cases (y.ptr == p)) [
  | inl h ↦ ground (arith, f.0)
  | inr h ↦ find-Fresh_ne p x ys pg f.1 (rw h at e)
]

-- The search's answer, when it is not NULL, is a live page that holds the address.
record Found (a p : ℕ) (pgs : List Page) : Type 0 where
  page : Page
  found : find_page p pgs ≡ some page
  above : page.addr ≤ a
  below : a < page.addr + page.size

find_addr_sound :
    (a : ℕ) (pgs : List Page) → AllOk pgs → find_addr a pgs ≢ 0 → Found a (find_addr a pgs) pgs
unfolding find_addr find_page
find_addr_sound a [] v nz = absurd (nz refl)
find_addr_sound a (x ∷ xs) (o, f, d, rest) nz =
    elim (Bool-cases (leb x.addr a && ltb a (add_u64 x.addr x.size))) [
      | inl h ↦
          rw (h, find_addr)
            (record { page = x; found = ground arith; above = ground arith; below = ground arith })
      | inr h ↦
          let r = find_addr_sound a xs rest (rw h at nz) in
          rw (h, find_addr)
            (record {
              page = r.page;
              found = ground (arith, r.found, find-Fresh_ne (find_addr a xs) x xs r.page f r.found);
              above = r.above;
              below = r.below;
            })
    ]

-- On a well-formed page list, what `virt_to_head_page` returns is NULL or a live page whose memory
-- holds the address.
pub virt_to_head_page-Owns :
    (a : ℕ) (k : Pages) → IsValid k → virt_to_head_page a k ≢ 0 → Owns k (virt_to_head_page a k) a
unfolding virt_to_head_page
virt_to_head_page-Owns a k v nz = elim (Bool-cases (a == 0)) [
  | inl e ↦ absurd (nz (rw e))
  | inr e ↦
      let r = find_addr_sound a k.live v.pages (rw e at nz) in
      rw e (record { page = r.page; found = r.found; above = r.above; below = r.below })
]

abbrev pub NoPool : ℕ → List Page → Type 0
NoPool pool [] = Unit {0}
NoPool pool (q ∷ qs) = (q.pp ≢ pool) × NoPool pool qs

disown-NoPool : (pool : ℕ) (pgs : List Page) → pool ≢ 0 → NoPool pool (map (disown pool) pgs)
unfolding disown
disown-NoPool pool [] nz = tt
disown-NoPool pool (x ∷ xs) nz = (ground arith, disown-NoPool pool xs nz)

find-disown :
    (pool p : ℕ) (pgs : List Page) (pg : Page)
    → find_page p pgs ≡ some pg
    → find_page p (map (disown pool) pgs)
      ≡ some (record pg { pp = if pg.pp == pool then 0 else pg.pp })
unfolding disown find_page
find-disown pool p [] pg e = cc
find-disown pool p (x ∷ xs) pg e = elim (Bool-cases (x.ptr == p)) [
  | inl h ↦ ground arith
  | inr h ↦ ground (arith, find-disown pool p xs pg (rw h at e))
]

-- After `page_pool_destroy` of a pool that is not NULL no live page points to the pool, and every
-- live page is live as before, with only that pointer cleared.
pub page_pool_destroy_lem :
    (pool p : ℕ) (pg : Page) (k : Pages)
    → pool ≢ 0
    → find_page p k.live ≡ some pg
    → NoPool pool (page_pool_destroy pool k).live
      × (find_page p (page_pool_destroy pool k).live
          ≡ some (record pg { pp = if pg.pp == pool then 0 else pg.pp }))
unfolding page_pool_destroy
page_pool_destroy_lem pool p pg k nz e =
    let e' : (pool == 0) ≡ false = ground arith in
    rw e' (disown-NoPool pool k.live nz, find-disown pool p k.live pg e)
