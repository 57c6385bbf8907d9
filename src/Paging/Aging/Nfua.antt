-- ===== src/Paging/Aging/Nfua.antt =====
-- `removeNFUA` takes the first page of the queue with the least age.
use os182_ass.Prelude.{
  length, get_elem?, remove_at, get_elem?-some, ℕ, zero, suc, ◌+◌, ◌-◌, ◌≡◌, refl, ap, ◌∙◌, subst,
  some, List, arith,
}
use os182_ass.Prelude.Outcome.{ok}
use os182_ass.Paging.{Page, Proc, max_psyc_pages, fix_queue}
use os182_ass.Paging.Queue.{slots, Holds, layout-free, fix_queue-Holds}
use os182_ass.Paging.Aging.{nfua_loop, remove_nfua}
use os182_ass.Paging.Aging.Least.{
  IsFirstLeast, IsFirstLeast-one, IsFirstLeast-step, age_of, AllPages, age_at-ok, get_or-Holds,
}

nfua_loop-IsFirstLeast :
    (rounds i least : ℕ) (pages : List Page) (live : List ℕ) (free : ℕ)
    → AllPages pages live
    → i + rounds ≡ length live
    → IsFirstLeast (age_of pages live) i least
    → (k : ℕ) × (nfua_loop rounds i least pages (slots live free) ≡ ok k)
      × IsFirstLeast (age_of pages live) (length live) k
unfolding nfua_loop
nfua_loop-IsFirstLeast zero i least pages live free all e l = (
  least,
  refl,
  let e' : i ≡ length live = omega arith in
      subst (λ n. IsFirstLeast (age_of pages live) n least) e' l,
)
nfua_loop-IsFirstLeast (suc rounds) i least pages live free all e l =
    rw
      (
        age_at-ok pages live free i all (omega arith),
        age_at-ok pages live free least all (omega (arith, l.below)),
      )
      (nfua_loop-IsFirstLeast rounds (suc i) _ pages live free all (omega arith)
        (IsFirstLeast-step l))

-- On a full queue of pages, the victim of `removeNFUA` is the first item of the queue with the
-- least age, and the queue keeps the other items in their order.
pub remove_nfua-least :
    {p : Proc} (live : List ℕ)
    → Holds p.in_ram_queue live
    → length live ≡ max_psyc_pages
    → AllPages p.pages_ds live
    → (i v : ℕ) × (get_elem? live i ≡ some v)
      × IsFirstLeast (age_of p.pages_ds live) max_psyc_pages i
      × (remove_nfua p ≡ ok (some v, record p { in_ram_queue = fix_queue i p.in_ram_queue }))
      × Holds (fix_queue i p.in_ram_queue) (remove_at i live)
unfolding remove_nfua
remove_nfua-least {p} live h full all =
    let (i, runs, l) =
      nfua_loop-IsFirstLeast (max_psyc_pages - 1) 1 0 p.pages_ds live 0 all (omega arith)
        (IsFirstLeast-one (age_of p.pages_ds live)) in
    let (v, at) = get_elem?-some live i l.below in
    (
      i,
      v,
      at,
      subst (λ n. IsFirstLeast (age_of p.pages_ds live) n i) full l,
      returned i v runs at,
      fix_queue-Holds i h l.below,
    )
  where
    returned :
        (i v : ℕ)
        → nfua_loop (max_psyc_pages - 1) 1 0 p.pages_ds (slots live 0) ≡ ok i
        → get_elem? live i ≡ some v
        → remove_nfua p ≡ ok (some v, record p { in_ram_queue = fix_queue i p.in_ram_queue })
    returned i v runs at =
        rw
          (ap (nfua_loop (max_psyc_pages - 1) 1 0 p.pages_ds) (layout-free h 0 (omega arith))
            ∙ runs)
          (ap (λ s. ok (s, record p { in_ram_queue = fix_queue i p.in_ram_queue }))
            (get_or-Holds i h at))
