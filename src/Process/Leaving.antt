-- ===== src/Process/Leaving.antt =====
-- A process that exits hands its children to init, one after the other.
use os182_ass.Prelude.{
  ◌==◌, ℕ, suc, ◌<◌, ◌≡◌, sym, ap, ap₂, ◌∙◌, subst, ◌≢◌, true, false, ◌||◌, Option, none, some,
  arith, ℕ_discrete,
}
use os182_ass.Process.{
  nproc, is_zombie, Chan, TableEntry, Table, is_child, put_entry, wake, wakeup1,
}
use os182_ass.Process.Waiting.{
  is_live, is_present, in_wait, HasParent, wake-parent, wake-is_live, wake-is_zombie, wake-in_wait,
}

-- Process `cur` has handed its children below slot `i` to init. The zombie in slot `hole`, if it is
-- one, has not yet woken its parent.
pub record Leaving (cur i hole : ℕ) (t : Table) : Type 0 where
  pub init_small : t.initproc < nproc
  pub init_live : is_live (t.proc t.initproc).state ≡ true
  pub not_init : cur ≢ t.initproc
  pub cur_live : is_live (t.proc cur).state ≡ true
  pub parents :
      (j : ℕ) → j < nproc → is_present (t.proc j).state ≡ true → j ≢ t.initproc → HasParent t j
  pub not_own : (j : ℕ) → is_child j (t.proc j) ≡ false
  pub init_parent : (t.proc t.initproc).parent ≡ none
  pub given : (j : ℕ) → j < i → is_child cur (t.proc j) ≡ false
  pub no_lost :
      (c p : ℕ)
      → c < nproc
      → p ≢ cur
      → c ≢ hole
      → is_zombie (t.proc c).state ≡ true
      → is_child p (t.proc c) ≡ true
      → in_wait p (t.proc p) ≡ false
  pub parent_awake : (p : ℕ) → is_child p (t.proc cur) ≡ true → in_wait p (t.proc p) ≡ false

pub is_child-wake :
    (p : ℕ) (chan : Option Chan) (e : TableEntry) → is_child p (wake chan e) ≡ is_child p e
is_child-wake p chan e =
    ap (λ (q : Option ℕ). elim q [ none ↦ false | some x ↦ x == p ]) (wake-parent chan e)

pub present-wake :
    (chan : Option Chan) (e : TableEntry) → is_present (wake chan e).state ≡ is_present e.state
present-wake chan e = ap₂ ◌||◌ (wake-is_live chan e) (wake-is_zombie chan e)

pub HasParent-wakeup1 :
    (chan : Option Chan) {t : Table} (i : ℕ) → HasParent t i → HasParent (wakeup1 chan t) i
unfolding wakeup1
HasParent-wakeup1 chan {t} i h = record {
  parent = h.parent;
  here = wake-parent chan (t.proc i) ∙ h.here;
  small = h.small;
  live = wake-is_live chan (t.proc h.parent) ∙ h.live;
}

-- Waking processes does no harm.
pub Leaving-wakeup1 :
    (chan : Option Chan) {cur i hole : ℕ} {t : Table}
    → Leaving cur i hole t
    → Leaving cur i hole (wakeup1 chan t)
unfolding wakeup1
Leaving-wakeup1 chan {cur} {t} l = record {
  init_small = l.init_small;
  init_live = wake-is_live chan (t.proc t.initproc) ∙ l.init_live;
  not_init = l.not_init;
  cur_live = wake-is_live chan (t.proc cur) ∙ l.cur_live;
  parents = λ j lt here ne.
      HasParent-wakeup1 chan j (l.parents j lt (sym (present-wake chan (t.proc j)) ∙ here) ne);
  not_own = λ j. is_child-wake j chan (t.proc j) ∙ l.not_own j;
  init_parent = wake-parent chan (t.proc t.initproc) ∙ l.init_parent;
  given = λ j lt. is_child-wake cur chan (t.proc j) ∙ l.given j lt;
  no_lost = λ c p lt ne nh z child. wake-in_wait chan (t.proc p) p (
      l.no_lost c p lt ne nh (sym (wake-is_zombie chan (t.proc c)) ∙ z)
        (sym (is_child-wake p chan (t.proc c)) ∙ child));
  parent_awake = λ p child.
      wake-in_wait chan (t.proc p) p
        (l.parent_awake p (sym (is_child-wake p chan (t.proc cur)) ∙ child));
}

-- One child more.
pub Leaving-give :
    {cur i : ℕ} {t : Table}
    → Leaving cur i nproc t
    → is_child cur (t.proc i) ≡ true
    → Leaving cur (suc i) i (put_entry i (record (t.proc i) { parent = some t.initproc }) t)
unfolding put_entry
Leaving-give {cur} {i} {t} l child = record {
  init_small = l.init_small;
  init_live = ground (arith, l.init_live);
  not_init = l.not_init;
  cur_live = ground (arith, l.cur_live);
  parents = λ j lt here ne. parent_of j lt (same_state j here) ne;
  not_own = λ j. ground (arith, l.not_own j, l.init_parent, child);
  init_parent = ground (arith, l.init_parent, child);
  given = λ j lt. ground (arith, l.given j, l.not_init);
  no_lost = λ c p lt ne nh z kid. ground (arith, l.no_lost c p lt ne, nh);
  parent_awake = λ p kid. ground (arith, l.parent_awake p, l.not_own cur, child);
}
  where
    moved : Table
    moved = put_entry i (record (t.proc i) { parent = some t.initproc }) t

    same_state :
        (j : ℕ) → is_present (moved.proc j).state ≡ true → is_present (t.proc j).state ≡ true
    same_state j here = ground (arith, here)

    parent_of :
        (j : ℕ)
        → j < nproc
        → is_present (t.proc j).state ≡ true
        → j ≢ t.initproc
        → HasParent moved j
    parent_of j lt here ne = elim (ℕ_discrete j i) [
      | yes same ↦ record {
        parent = t.initproc;
        here = ground (arith, same);
        small = l.init_small;
        live = ground (arith, l.init_live);
      }
      | no other ↦
          let h = l.parents j lt here ne in
          record {
            parent = h.parent;
            here = ground (arith, h.here, other);
            small = h.small;
            live = ground (arith, h.live);
          }
    ]

pub Leaving-close :
    {cur k i : ℕ} {t : Table}
    → Leaving cur k i t
    → (t.proc i).parent ≡ some t.initproc
    → (is_zombie (t.proc i).state ≡ true → in_wait t.initproc (t.proc t.initproc) ≡ false)
    → Leaving cur k nproc t
Leaving-close {cur} {k} {i} {t} l up awake = record {
  init_small = l.init_small;
  init_live = l.init_live;
  not_init = l.not_init;
  cur_live = l.cur_live;
  parents = l.parents;
  not_own = l.not_own;
  init_parent = l.init_parent;
  given = l.given;
  no_lost = λ c p lt ne nh z kid. elim (ℕ_discrete c i) [
    | no other ↦ l.no_lost c p lt ne other z kid
    | yes same ↦
        let z' : is_zombie (t.proc i).state ≡ true =
          ap (λ x. is_zombie (t.proc x).state) (sym same) ∙ z in
        let kid' : is_child p (t.proc i) ≡ true =
          ap (λ x. is_child p (t.proc x)) (sym same) ∙ kid in
        let init : t.initproc ≡ p = ground (arith, up, kid') in
        subst (λ x. in_wait x (t.proc x) ≡ false) init (awake z')
  ];
  parent_awake = l.parent_awake;
}
