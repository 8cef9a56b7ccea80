-- ===== src/BufferPool/Tracking.antt =====
-- The representation of the abstract pool by the fields of `BufferPool`, and how the bookkeeping of
-- `getPage` keeps it.
use mathlib.Core.Option
use cs660_spring2025_pa.Base.{
  ℕ, suc, ◌+◌, ◌≤◌, ◌<◌, ◌≡◌, ◌≢◌, ap, sym, subst, ◌∙◌, true, List, [], ◌∷◌, ◌++◌, map, none, some,
  ite, if_neg, arith, length, All, All-map,
}
use cs660_spring2025_pa.Base.Assoc.{lookup, insert, erase, member, remove}
use cs660_spring2025_pa.Base.Assoc.Laws.{lookup-insert, lookup-erase, member-remove}
use cs660_spring2025_pa.Memory.{Page}
use cs660_spring2025_pa.Database.{PageId, PageId-discrete, num_slots, LruNode, BufferPool}
use cs660_spring2025_pa.BufferPool.{erase_node, push_front}
use cs660_spring2025_pa.BufferPool.Entries.{
  Entry, dec, node_of, without, find, Differ, Distinct, All-without, Distinct-without, All-find,
  find-without, length-without, Differ-without, erase_node-map,
}

-- Slots that are in range, all different, and used by no entry.
abbrev pub Free : List ℕ → List Entry → Type 0
Free [] es = Unit {0}
Free (s ∷ ss) es =
    (s < num_slots) × All (λ (e : Entry). e.slot ≢ s) es × All (λ (t : ℕ). t ≢ s) ss × Free ss es

-- The pool holds the entries `es`, and `held` are slots that a call in progress has in hand.
pub record Tracks (b : BufferPool) (es : List Entry) (held : List ℕ) : Type 0 where
  pub lru_list : b.lru_list ≡ map node_of es
  pub page_table : (q : PageId) → lookup dec q b.page_table ≡ Option.map (λ e. e.slot) (find q es)
  pub lru_map : (q : PageId) → lookup dec q b.lru_map ≡ Option.map (λ e. e.address) (find q es)
  pub distinct : Distinct es
  pub allocated : All (λ (e : Entry). e.address < b.next_address) es
  pub in_bounds : All (λ (e : Entry). e.slot < num_slots) es
  pub free : Free (held ++ b.free_slots) es
  pub full : length es + length (held ++ b.free_slots) ≡ num_slots
  pub dirty : (q : PageId) → member dec q b.dirty_pages ≡ true → find q es ≢ none

pub Free-without :
    (q : PageId) (ss : List ℕ) (es : List Entry) → Free ss es → Free ss (without q es)
Free-without q [] es h = tt
Free-without q (s ∷ ss) es (lt, used, other, rest) =
    (lt, All-without (λ e. e.slot ≢ s) q es used, other, Free-without q ss es rest)

-- The slot of an entry that is removed is free.
pub Free-slot :
    (e : Entry) (q : PageId) (ss : List ℕ) (es : List Entry)
    → find q es ≡ some e
    → Free ss es
    → All (λ (t : ℕ). t ≢ e.slot) ss
Free-slot e q [] es h f = tt
Free-slot e q (s ∷ ss) es h (lt, used, other, rest) =
    (λ p. All-find (λ g. g.slot ≢ s) q es e used h (sym p), Free-slot e q ss es h rest)

pub Free-cons :
    (e : Entry) (ss : List ℕ) (es : List Entry)
    → All (λ (t : ℕ). t ≢ e.slot) ss
    → Free ss es
    → Free ss (e ∷ es)
Free-cons e [] es h f = tt
Free-cons e (s ∷ ss) es h (lt, used, other, rest) =
    (lt, (λ p. h.0 (sym p), used), other, Free-cons e ss es h.1 rest)

All-weaken :
    {n m : ℕ} (es : List Entry)
    → n ≤ m
    → All (λ (e : Entry). e.address < n) es
    → All (λ (e : Entry). e.address < m) es
All-weaken [] h a = tt
All-weaken (e ∷ es) h a = (omega arith, All-weaken es h a.1)

Differ-new :
    (e : Entry) (es : List Entry)
    → find e.pid es ≡ none
    → All (λ (g : Entry). g.slot ≢ e.slot) es
    → All (λ (g : Entry). g.address < e.address) es
    → All (Differ e) es
unfolding find
Differ-new e [] h s a = tt
Differ-new e (g ∷ es) h s a = elim (dec g.pid e.pid) [
  | yes p ↦ absurd (ground arith)
  | no p ↦ ((λ q. p (sym q), λ q. s.0 (sym q), omega arith), Differ-new e es (ground arith) s.1 a.1)
]

pub Free-released :
    (e : Entry) (q : PageId) (ss : List ℕ) (es : List Entry)
    → Distinct es
    → All (λ (g : Entry). g.slot < num_slots) es
    → find q es ≡ some e
    → Free ss es
    → Free (e.slot ∷ ss) (without q es)
Free-released e q ss es d b h f = (
  All-find (λ g. g.slot < num_slots) q es e b h,
  All-map {P = Differ e} {Q = λ g. g.slot ≢ e.slot} (without q es) (λ g k p. k.1 (sym p))
      (Differ-without q es e d h),
  Free-slot e q ss es h f,
  Free-without q ss es f,
)

-- The entry that `push_front` makes.
abbrev pub new_entry : BufferPool → PageId → ℕ → Entry
new_entry b pid slot = record { pid = pid; slot = slot; address = b.next_address }

-- What `push_front pid` needs: the other pages are tracked, and `pid` has its slot in the page table.
pub record Pending (b : BufferPool) (pid : PageId) (slot : ℕ) (es : List Entry) : Type 0 where
  pub lru_list : b.lru_list ≡ map node_of es
  pub page_table :
      (q : PageId)
      → lookup dec q b.page_table
        ≡ ite (dec pid q) (some slot) (Option.map (λ e. e.slot) (find q es))
  pub lru_map :
      (q : PageId) → pid ≢ q → lookup dec q b.lru_map ≡ Option.map (λ e. e.address) (find q es)
  pub absent : find pid es ≡ none
  pub distinct : Distinct es
  pub allocated : All (λ (e : Entry). e.address < b.next_address) es
  pub in_bounds : All (λ (e : Entry). e.slot < num_slots) es
  pub free : Free (slot ∷ b.free_slots) es
  pub full : length es + suc (length b.free_slots) ≡ num_slots
  pub dirty : (q : PageId) → member dec q b.dirty_pages ≡ true → pid ≢ q → find q es ≢ none

pub push_front-Tracks :
    (b : BufferPool) (pid : PageId) (slot : ℕ) (es : List Entry)
    → Pending b pid slot es
    → Tracks (push_front pid b) (new_entry b pid slot ∷ es) []
unfolding push_front find
push_front-Tracks b pid slot es h = record {
  lru_list = ap (◌∷◌ (record { address = b.next_address; value = pid })) h.lru_list;
  page_table = λ q. h.page_table q ∙ ground arith;
  lru_map = λ q. elim (dec pid q) [
    | yes p ↦ lookup-insert dec q pid b.next_address b.lru_map ∙ ground arith
    | no p ↦ lookup-insert dec q pid b.next_address b.lru_map ∙ ground (arith, h.lru_map q p)
  ];
  distinct = (Differ-new (new_entry b pid slot) es h.absent h.free.1 h.allocated, h.distinct);
  allocated = (omega arith, All-weaken es (omega arith) h.allocated);
  in_bounds = (h.free.0, h.in_bounds);
  free = Free-cons (new_entry b pid slot) b.free_slots es h.free.2 h.free.3;
  full = omega (arith, h.full);
  dirty = λ q m. elim (dec pid q) [ yes p ↦ ground arith | no p ↦ rw (if_neg _ p) (h.dirty q m p) ];
}

-- The first branch of `getPage`.
abbrev pub touched : PageId → ℕ → BufferPool → BufferPool
touched pid a b = push_front pid (record b { lru_list = erase_node a b.lru_list })

pub touched-Tracks :
    (b : BufferPool) (es : List Entry) (pid : PageId) (e : Entry)
    → Tracks b es []
    → find pid es ≡ some e
    → Tracks (touched pid e.address b) (new_entry b pid e.slot ∷ without pid es) []
touched-Tracks b es pid e t h =
    push_front-Tracks (record b { lru_list = erase_node e.address b.lru_list }) pid e.slot
      (without pid es)
      (record {
        lru_list = ap (erase_node e.address) t.lru_list ∙ erase_node-map pid es e t.distinct h;
        page_table = λ q. t.page_table q ∙ ground (arith, find-without q pid es, h);
        lru_map = λ q p. t.lru_map q ∙ ground (arith, find-without q pid es);
        absent = find-without pid pid es ∙ ground arith;
        distinct = Distinct-without pid es t.distinct;
        allocated = All-without (λ g. g.address < b.next_address) pid es t.allocated;
        in_bounds = All-without (λ g. g.slot < num_slots) pid es t.in_bounds;
        free = Free-released e pid b.free_slots es t.distinct t.in_bounds h t.free;
        full = omega (arith, t.full, length-without pid es e t.distinct h);
        dirty = λ q m p. rw (find-without q pid es, if_neg _ p) (t.dirty q m);
      })

-- `free_slots_.front()` with `pop_front()`.
pub taken-Tracks :
    (b : BufferPool) (es : List Entry) (slot : ℕ) (rest : List ℕ)
    → Tracks b es []
    → b.free_slots ≡ slot ∷ rest
    → Tracks (record b { free_slots = rest }) es (slot ∷ [])
taken-Tracks b es slot rest t h = record {
  lru_list = t.lru_list;
  page_table = t.page_table;
  lru_map = t.lru_map;
  distinct = t.distinct;
  allocated = t.allocated;
  in_bounds = t.in_bounds;
  free = subst (λ ss. Free ss es) h t.free;
  full = subst (λ (ss : List ℕ). length es + length ss ≡ num_slots) h t.full;
  dirty = t.dirty;
}

-- A page leaves the tables, and its slot is in hand.
abbrev pub removed : PageId → List LruNode → BufferPool → BufferPool
removed pid rest b = record b {
  lru_list = rest;
  lru_map = erase PageId-discrete pid b.lru_map;
  page_table = erase PageId-discrete pid b.page_table;
  dirty_pages = remove PageId-discrete pid b.dirty_pages;
}

pub removed-Tracks :
    (b : BufferPool) (es : List Entry) (pid : PageId) (e : Entry) (rest : List LruNode)
    → Tracks b es []
    → find pid es ≡ some e
    → rest ≡ map node_of (without pid es)
    → Tracks (removed pid rest b) (without pid es) (e.slot ∷ [])
removed-Tracks b es pid e rest t h r = record {
  lru_list = r;
  page_table = λ q.
      lookup-erase dec q pid b.page_table ∙ ground (arith, find-without q pid es, t.page_table q);
  lru_map =
      λ q. lookup-erase dec q pid b.lru_map ∙ ground (arith, find-without q pid es, t.lru_map q);
  distinct = Distinct-without pid es t.distinct;
  allocated = All-without (λ g. g.address < b.next_address) pid es t.allocated;
  in_bounds = All-without (λ g. g.slot < num_slots) pid es t.in_bounds;
  free = Free-released e pid b.free_slots es t.distinct t.in_bounds h t.free;
  full = omega (arith, t.full, length-without pid es e t.distinct h);
  dirty = λ q m.
      ground (arith, member-remove dec q pid b.dirty_pages, find-without q pid es, t.dirty q);
}

-- The page is entered into the tables with the slot in hand.
abbrev pub loaded : PageId → ℕ → (ℕ → Page) → BufferPool → BufferPool
loaded pid slot pages b =
    push_front pid
      (record b { pages = pages; page_table = insert PageId-discrete pid slot b.page_table })

pub loaded-Tracks :
    (b : BufferPool) (es : List Entry) (pid : PageId) (slot : ℕ) (pages : ℕ → Page)
    → Tracks b es (slot ∷ [])
    → find pid es ≡ none
    → Tracks (loaded pid slot pages b) (new_entry b pid slot ∷ es) []
loaded-Tracks b es pid slot pages t h = push_front-Tracks _ pid slot es (record {
  lru_list = t.lru_list;
  page_table = λ q.
      lookup-insert dec q pid slot b.page_table ∙ ap (ite (dec pid q) (some slot)) (t.page_table q);
  lru_map = λ q p. t.lru_map q;
  absent = h;
  distinct = t.distinct;
  allocated = t.allocated;
  in_bounds = t.in_bounds;
  free = t.free;
  full = t.full;
  dirty = λ q m p. t.dirty q m;
})
