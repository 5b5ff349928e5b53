-- ===== src/PagePool/Counts.antt =====
-- The life of a page: references taken and dropped, and the one release of its frames.
use lcompat.Base.{
  ℕ, ◌+◌, ◌-◌, ◌^◌, ◌<◌, ◌≡◌, ◌≢◌, none, some, ◌∷◌, arith, ◌==◌, inl, inr, if◌then◌else◌,
  Bool-cases, ◌>>=◌,
}
use lcompat.PagePool.{
  Page, Pages, Grant, find_page, update_page, page_alloc, page_free, get_page, put_page, page_size,
  sizeof_page, new_page,
}
use lcompat.PagePool.Invariant.{IsValid, IsUnused}
use lcompat.PagePool.Lists.{
  set_refcnt, ptr-find, find-PageOk, find-delete_self, find-delete_ne, find-update_self,
  find-update_ne, AllOk-delete, AllOk-update, update-update, update_self, find_snoc, delete_snoc,
}

-- What a dropped reference to the page `pg` at `p` leaves behind.
pub record Dropped (p : ℕ) (pg : Page) (k k' : Pages) : Type 0 where
  pub valid : IsValid k'
  pub others : (q : ℕ) → q ≢ p → find_page q k'.live ≡ find_page q k.live
  pub page :
      find_page p k'.live
      ≡ (if pg.refcnt == 1 then none else some (record pg { refcnt = pg.refcnt - 1 }))
  pub freed : k'.freed ≡ (if pg.refcnt == 1 then (pg.addr, pg.size) ∷ k.freed else k.freed)

-- On a well-formed page list, `put_page` of a live page succeeds, keeps the list well-formed and
-- every other page, and either drops the count by one, or, at the last reference, takes the page off
-- the list and gives its frames back once.
pub put_page-Dropped :
    (p : ℕ) (pg : Page) (k : Pages)
    → IsValid k
    → find_page p k.live ≡ some pg
    → (k' : Pages) × (put_page p k ≡ some k') × Dropped p pg k k'
unfolding put_page page_free
put_page-Dropped p pg k v e =
    let here = ptr-find p k.live pg e in
    let fine = find-PageOk p k.live pg v.pages e in
    elim (Bool-cases (pg.refcnt == 1)) [
      | inl last ↦ (
        page_free pg k,
        ground (arith, here, fine),
        record {
          valid = record { pages = rw here (AllOk-delete p k.live v.pages) };
          others = λ q h. rw here (find-delete_ne p q k.live h);
          page = rw (last, here) (find-delete_self p k.live v.pages);
          freed = rw last;
        },
      )
      | inr more ↦ (
        record k { live = update_page p (set_refcnt (pg.refcnt - 1)) k.live },
        ground (arith, here, fine),
        record {
          valid = record {
            pages =
                AllOk-update p (pg.refcnt - 1) k.live (ground (arith, fine)) (ground (arith, fine))
                  v.pages;
          };
          others = λ q h. find-update_ne p q (pg.refcnt - 1) k.live h;
          page = rw more (find-update_self p (pg.refcnt - 1) k.live pg e);
          freed = rw more;
        },
      )
    ]

-- On a well-formed page list, `get_page` of a live page counts it once more, and the next `put_page`
-- undoes that: the pages are as before, if the count does not wrap.
pub put-get :
    (p : ℕ) (pg : Page) (k : Pages)
    → IsValid k
    → find_page p k.live ≡ some pg
    → pg.refcnt + 1 < 2 ^ 32
    → (get_page p k >>= put_page p) ≡ some k
unfolding get_page put_page
put-get p pg k v e fits =
    let here = ptr-find p k.live pg e in
    let fine = find-PageOk p k.live pg v.pages e in
    ground (
      arith,
      here,
      fine,
      find-update_self p (pg.refcnt + 1) k.live pg e,
      update-update p (pg.refcnt + 1) pg.refcnt k.live,
      update_self p k.live pg e,
    )

-- Where both allocations give something unused and the size is below 2 ^ 64 - 56,
-- `lcompat_page_alloc` hands out the granted page, and dropping its one reference leaves the page
-- list as it was, with the frames given back once.
pub put-page_alloc :
    (g : Grant) (pool size : ℕ) (k : Pages)
    → g.page ≢ 0
    → IsValid k
    → IsUnused g (if size == 0 then page_size else size) k
    → size < 2 ^ 64 - sizeof_page
    → let (p, k') = page_alloc g pool size k in
      (p ≡ g.page)
      × (put_page p k'
          ≡ some (record k { freed = (g.frames, if size == 0 then page_size else size) ∷ k.freed }))
unfolding page_alloc put_page new_page page_free
put-page_alloc g pool size k nz v u small =
    let size' = if size == 0 then page_size else size in
    let n = new_page g pool size' in
    ground (arith, u.page, find_snoc n k.live, delete_snoc n k.live)
