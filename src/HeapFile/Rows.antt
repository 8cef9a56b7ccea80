-- ===== src/HeapFile/Rows.antt =====
-- The rows of a heap file in the order of pages and slots, and where its iterators stand.
use cs660_spring2025_pa.Base.{
  ℕ, zero, suc, ◌+◌, ◌-◌, ◌≤◌, ◌<◌, ◌≡◌, refl, sym, subst, true, false, All, List, [], ◌∷◌, dec_lt,
  arith,
}
use cs660_spring2025_pa.Memory.{Page}
use cs660_spring2025_pa.Tuple.{Tuple, compatible}
use cs660_spring2025_pa.Tuple.Bytes.{Fits, tuple_bytes}
use cs660_spring2025_pa.Iterator.{Iterator}
use cs660_spring2025_pa.HeapPage.{HeapPage, empty}
use cs660_spring2025_pa.HeapPage.Slots.{slot_bytes}
use cs660_spring2025_pa.HeapFile.Scan.{IsFirstUsed, IsNextUsed}

-- A slot in use that holds a tuple of the file.
pub record HoldsTuple (hp : HeapPage) (p : Page) (slot : ℕ) (t : Tuple) : Type 0 where
  pub in_use : empty p slot ≡ false
  pub bytes : slot_bytes hp p slot ≡ tuple_bytes t
  pub typed : compatible hp.td t ≡ true
  pub fits : All Fits t

-- `Rows page slot ts`: the slots in use from that slot of that page on, up to the page `bound`, hold
-- these tuples, in the order of pages and slots.
pub data Rows (hp : HeapPage) (pages : ℕ → Page) (bound : ℕ) : ℕ → ℕ → List Tuple → Type 0 where
  at_end : (page slot : ℕ) → bound ≤ page → Rows hp pages bound page slot []
  turn :
      (page slot : ℕ) (ts : List Tuple)
      → page < bound
      → hp.capacity ≤ slot
      → Rows hp pages bound (suc page) 0 ts
      → Rows hp pages bound page slot ts
  skip :
      (page slot : ℕ) (ts : List Tuple)
      → page < bound
      → slot < hp.capacity
      → empty (pages page) slot ≡ true
      → Rows hp pages bound page (suc slot) ts
      → Rows hp pages bound page slot ts
  hold :
      (page slot : ℕ) (t : Tuple) (ts : List Tuple)
      → page < bound
      → slot < hp.capacity
      → HoldsTuple hp (pages page) slot t
      → Rows hp pages bound page (suc slot) ts
      → Rows hp pages bound page slot (t ∷ ts)

module _ (hp : HeapPage) (pages : ℕ → Page) (bound : ℕ) where
  -- The iterator has these rows before it: it is at the slot of the first of them, or at the end.
  abbrev pub Before : Iterator → List Tuple → Type 0
  Before it [] = (it.page ≡ bound) × (it.slot ≡ 0)
  Before it (t ∷ ts) =
      (it.page < bound)
      × (it.slot < hp.capacity)
      × HoldsTuple hp (pages it.page) it.slot t
      × Rows hp pages bound it.page (suc it.slot) ts

  pub past_end :
      (page slot : ℕ) (ts : List Tuple) → bound ≤ page → Rows hp pages bound page slot ts → ts ≡ []
  past_end _ _ _ h (at_end page slot e) = refl
  past_end _ _ _ h (turn page slot ts lt c r) = absurd (omega arith)
  past_end _ _ _ h (skip page slot ts lt c e r) = absurd (omega arith)
  past_end _ _ _ h (hold page slot t ts lt c e r) = absurd (omega arith)

  at_used :
      (page slot : ℕ) (ts : List Tuple)
      → page < bound
      → slot < hp.capacity
      → empty (pages page) slot ≡ false
      → Rows hp pages bound page slot ts
      → Before (record { page = page; slot = slot }) ts
  at_used _ _ _ h k u (at_end page slot e) = absurd (omega arith)
  at_used _ _ _ h k u (turn page slot ts lt c r) = absurd (omega arith)
  at_used _ _ _ h k u (skip page slot ts lt c e r) = absurd (ground (arith, u, e))
  at_used _ _ _ h k u (hold page slot t ts lt c e r) = (h, k, e, r)

  -- Over slots that are not in use, on a page.
  over_slots :
      (n page slot : ℕ) (ts : List Tuple)
      → page < bound
      → slot + n ≤ hp.capacity
      → ((s : ℕ) → slot ≤ s → s < slot + n → empty (pages page) s ≡ true)
      → Rows hp pages bound page slot ts
      → Rows hp pages bound page (slot + n) ts
  over_slots zero page slot ts h k free r =
      subst (λ s. Rows hp pages bound page s ts) {x = slot} {y = slot + 0} (omega arith) r
  over_slots (suc n) page slot ts h k free r =
      subst (λ s. Rows hp pages bound page s ts) {x = suc slot + n} {y = slot + suc n} (omega arith)
        (over_slots n page (suc slot) ts h (omega arith)
          (λ s a b. free s (omega arith) (omega arith))
          (step page slot ts h (omega arith) (free slot (omega arith) (omega arith)) r))
    where
      step :
          (page slot : ℕ) (ts : List Tuple)
          → page < bound
          → slot < hp.capacity
          → empty (pages page) slot ≡ true
          → Rows hp pages bound page slot ts
          → Rows hp pages bound page (suc slot) ts
      step _ _ _ h k u (at_end page slot e) = absurd (omega arith)
      step _ _ _ h k u (turn page slot ts lt c r) = absurd (omega arith)
      step _ _ _ h k u (skip page slot ts lt c e r) = r
      step _ _ _ h k u (hold page slot t ts lt c e r) = absurd (ground (arith, u, e.in_use))

  over_to :
      (page slot stop : ℕ) (ts : List Tuple)
      → page < bound
      → slot ≤ stop
      → stop ≤ hp.capacity
      → ((s : ℕ) → slot ≤ s → s < stop → empty (pages page) s ≡ true)
      → Rows hp pages bound page slot ts
      → Rows hp pages bound page stop ts
  over_to page slot stop ts h le k free r =
      subst (λ s. Rows hp pages bound page s ts) {x = slot + (stop - slot)} {y = stop} (omega arith)
        (over_slots (stop - slot) page slot ts h (omega arith) (λ s a b. free s a (omega arith)) r)

  over_turn :
      (page slot : ℕ) (ts : List Tuple)
      → page < bound
      → hp.capacity ≤ slot
      → Rows hp pages bound page slot ts
      → Rows hp pages bound (suc page) 0 ts
  over_turn _ _ _ h k (at_end page slot e) = absurd (omega arith)
  over_turn _ _ _ h k (turn page slot ts lt c r) = r
  over_turn _ _ _ h k (skip page slot ts lt c e r) = absurd (omega arith)
  over_turn _ _ _ h k (hold page slot t ts lt c e r) = absurd (omega arith)

  -- Over the rest of a page.
  pub over_rest :
      (page slot : ℕ) (ts : List Tuple)
      → page < bound
      → slot ≤ hp.capacity
      → ((s : ℕ) → slot ≤ s → s < hp.capacity → empty (pages page) s ≡ true)
      → Rows hp pages bound page slot ts
      → Rows hp pages bound (suc page) 0 ts
  over_rest page slot ts h k free r =
      over_turn page hp.capacity ts h (omega arith)
        (over_to page slot hp.capacity ts h k (omega arith) free r)

  over_pages :
      (n page : ℕ) (ts : List Tuple)
      → page + n ≤ bound
      → ((k : ℕ) → page ≤ k → k < page + n → (s : ℕ) → s < hp.capacity → empty (pages k) s ≡ true)
      → Rows hp pages bound page 0 ts
      → Rows hp pages bound (page + n) 0 ts
  over_pages zero page ts h free r =
      subst (λ k. Rows hp pages bound k 0 ts) {x = page} {y = page + 0} (omega arith) r
  over_pages (suc n) page ts h free r =
      subst (λ k. Rows hp pages bound k 0 ts) {x = suc page + n} {y = page + suc n} (omega arith)
        (over_pages n (suc page) ts (omega arith) (λ k a b. free k (omega arith) (omega arith))
          (over_rest page 0 ts (omega arith) (omega arith)
            (λ s a b. free page (omega arith) (omega arith) s b) r))

  -- Where the first slot in use of the pages from `page` on is, the rows of these pages are before.
  pub first_used-Before :
      (page : ℕ) (ts : List Tuple) (pos : Iterator)
      → Rows hp pages bound page 0 ts
      → IsFirstUsed hp pages page bound pos
      → Before pos ts
  first_used-Before page ts pos r first =
      let there : Rows hp pages bound pos.page 0 ts =
        subst (λ k. Rows hp pages bound k 0 ts) {x = page + (pos.page - page)} {y = pos.page}
          (omega (arith, first.above))
          (over_pages (pos.page - page) page ts (omega (arith, first.above, first.below))
            (λ k a b. first.skipped k a (omega (arith, first.above))) r) in
      elim (dec_lt pos.page bound) [
        | yes lt ↦
            let slot : Rows hp pages bound pos.page pos.slot ts =
              over_to pos.page 0 pos.slot ts lt (omega arith) (omega (arith, first.in_range lt))
                (λ s a b. first.before lt s b) there in
            at_used pos.page pos.slot ts lt (first.in_range lt) (first.in_use lt) slot
        | no ge ↦
            let stop : pos.page ≡ bound = omega (arith, first.below) in
            subst (Before pos) (sym (past_end pos.page 0 ts (omega arith) there))
              (stop, first.at_end stop)
      ]

  -- Where the next slot in use of the page is, the rows after the slot are before.
  pub next_used-Before :
      (it pos : Iterator) (ts : List Tuple)
      → it.page < bound
      → Rows hp pages bound it.page (suc it.slot) ts
      → IsNextUsed hp (pages it.page) it pos
      → Before pos ts
  next_used-Before it pos ts h r next =
      let used : empty (pages it.page) pos.slot ≡ false = next.in_use in
      let slot : Rows hp pages bound it.page pos.slot ts =
        over_to it.page (suc it.slot) pos.slot ts h (omega (arith, next.after))
          (omega (arith, next.in_range)) (λ s a b. next.between s (omega arith) b) r in
      let there = at_used it.page pos.slot ts h next.in_range used slot in
      subst (λ k. Before (record { page = k; slot = pos.slot }) ts) (sym next.same_page) there

  -- Where no later slot of the page is in use, the rows after the slot are those of the pages after.
  pub next_page-Before :
      (it pos : Iterator) (ts : List Tuple)
      → it.page < bound
      → it.slot < hp.capacity
      → ((s : ℕ) → it.slot < s → s < hp.capacity → empty (pages it.page) s ≡ true)
      → Rows hp pages bound it.page (suc it.slot) ts
      → IsFirstUsed hp pages (suc it.page) bound pos
      → Before pos ts
  next_page-Before it pos ts h k free r first =
      first_used-Before (suc it.page) ts pos
        (over_rest it.page (suc it.slot) ts h (omega arith) (λ s a b. free s (omega arith) b) r)
        first
