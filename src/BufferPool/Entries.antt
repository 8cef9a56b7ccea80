-- ===== src/BufferPool/Entries.antt =====
-- The abstract buffer pool: one list of resident pages, the most recently used first.
use mathlib.Core.Option
use cs660_spring2025_pa.Base.{
  ℕ, ◌+◌, ◌≡◌, ◌≢◌, refl, ap, sym, subst, List, [], ◌∷◌, ◌++◌, map, Option, none, some, ite, if_pos,
  if_neg, arith, length, All,
}
use cs660_spring2025_pa.Base.Assoc.{lookup}
use cs660_spring2025_pa.Database.{PageId, PageId-discrete, LruNode}
use cs660_spring2025_pa.BufferPool.{erase_node, pop_back}

-- A resident page: its id, its slot in `pages_`, and the address of its node in `lru_list_`.
pub record Entry : Type 0 where
  pub pid : PageId
  pub slot : ℕ
  pub address : ℕ

abbrev pub dec : Discrete PageId
dec = PageId-discrete

abbrev pub node_of : Entry → LruNode
node_of e = record { address = e.address; value = e.pid }

abbrev pub assoc : (Entry → ℕ) → List Entry → List (PageId × ℕ)
assoc f = map (λ e. (e.pid, f e))

unfoldable pub without : PageId → List Entry → List Entry
without q [] = []
without q (e ∷ es) = ite (dec e.pid q) (without q es) (e ∷ without q es)

-- Two entries share nothing.
abbrev pub Differ : Entry → Entry → Type 0
Differ e f = (e.pid ≢ f.pid) × (e.slot ≢ f.slot) × (e.address ≢ f.address)

abbrev pub Distinct : List Entry → Type 0
Distinct [] = Unit {0}
Distinct (e ∷ es) = All (Differ e) es × Distinct es

pub All-without {ℓ} :
    (P : Entry → Type ℓ) (q : PageId) (es : List Entry) → All P es → All P (without q es)
unfolding without
All-without P q [] h = tt
All-without P q (e ∷ es) h = elim (dec e.pid q) [
  | yes p ↦ rw (if_pos _ p) (All-without P q es h.1)
  | no p ↦ rw (if_neg _ p) (h.0, All-without P q es h.1)
]

pub Distinct-without : (q : PageId) (es : List Entry) → Distinct es → Distinct (without q es)
unfolding without
Distinct-without q [] h = tt
Distinct-without q (e ∷ es) h = elim (dec e.pid q) [
  | yes p ↦ rw (if_pos _ p) (Distinct-without q es h.1)
  | no p ↦ rw (if_neg _ p) (All-without (Differ e) q es h.0, Distinct-without q es h.1)
]

-- The entry of a page.
unfoldable pub find : PageId → List Entry → Option Entry
find q [] = none
find q (e ∷ es) = ite (dec e.pid q) (some e) (find q es)

pub lookup-find :
    (f : Entry → ℕ) (q : PageId) (es : List Entry)
    → lookup dec q (assoc f es) ≡ Option.map f (find q es)
unfolding lookup find
lookup-find f q [] = refl
lookup-find f q (e ∷ es) = ground (arith, lookup-find f q es)

pub find-pid : (q : PageId) (es : List Entry) (e : Entry) → find q es ≡ some e → e.pid ≡ q
unfolding find
find-pid q [] e h = cc
find-pid q (g ∷ es) e h = ground (arith, find-pid q es e)

pub All-find {ℓ} :
    (P : Entry → Type ℓ) (q : PageId) (es : List Entry) (e : Entry)
    → All P es
    → find q es ≡ some e
    → P e
unfolding find
All-find P q [] e a h = cc
All-find P q (g ∷ es) e a h = elim (dec g.pid q) [
  | yes p ↦ subst P (ground arith) a.0
  | no p ↦ All-find P q es e a.1 (ground arith)
]

pub find-without :
    (r q : PageId) (es : List Entry) → find r (without q es) ≡ ite (dec q r) none (find r es)
unfolding find without
find-without r q [] = ground arith
find-without r q (e ∷ es) = ground (arith, find-without r q es)

pub without_absent : (q : PageId) (es : List Entry) → find q es ≡ none → without q es ≡ es
unfolding find without
without_absent q [] h = refl
without_absent q (e ∷ es) h = ground (arith, without_absent q es)

pub find-eq-none_of_Differ :
    (e : Entry) (es : List Entry) → All (Differ e) es → find e.pid es ≡ none
unfolding find
find-eq-none_of_Differ e [] h = refl
find-eq-none_of_Differ e (g ∷ es) h =
    rw (if_neg _ (λ p. h.0.0 (sym p))) (find-eq-none_of_Differ e es h.1)

pub length-without :
    (q : PageId) (es : List Entry) (e : Entry)
    → Distinct es
    → find q es ≡ some e
    → length (without q es) + 1 ≡ length es
unfolding find without
length-without q [] e d h = cc
length-without q (g ∷ es) e d h = elim (dec g.pid q) [
  | yes p ↦
      rw
        (
          if_pos _ p,
          without_absent q es (subst (λ r. find r es ≡ none) p (find-eq-none_of_Differ g es d.0)),
        )
        (omega arith)
  | no p ↦ rw (if_neg _ p) (omega (arith, length-without q es e d.1 (ground arith)))
]

Differ-sym : {e f : Entry} → Differ e f → Differ f e
Differ-sym d = (λ p. d.0 (sym p), λ p. d.1 (sym p), λ p. d.2 (sym p))

pub Differ-without :
    (q : PageId) (es : List Entry) (e : Entry)
    → Distinct es
    → find q es ≡ some e
    → All (Differ e) (without q es)
unfolding find without
Differ-without q [] e d h = tt
Differ-without q (g ∷ es) e d h = elim (dec g.pid q) [
  | yes p ↦
      let same : g ≡ e = ground arith in rw (if_pos _ p, ← same) (All-without (Differ g) q es d.0)
  | no p ↦
      let found : find q es ≡ some e = ground arith in
      rw (if_neg _ p) (
        Differ-sym {e = g} {f = e} (All-find (Differ g) q es e d.0 found),
        Differ-without q es e d.1 found,
      )
]

-- `erase` through the iterator in `lru_map_` removes the page.
pub erase_node-map :
    (q : PageId) (es : List Entry) (e : Entry)
    → Distinct es
    → find q es ≡ some e
    → erase_node e.address (map node_of es) ≡ map node_of (without q es)
unfolding find without erase_node
erase_node-map q [] e d h = cc
erase_node-map q (g ∷ es) e d h = elim (dec g.pid q) [
  | yes p ↦
      let same : g.address ≡ e.address = ground arith in
      rw
        (
          if_pos _ p,
          without_absent q es (subst (λ r. find r es ≡ none) p (find-eq-none_of_Differ g es d.0)),
        )
        (ground arith)
  | no p ↦
      let found : find q es ≡ some e = ground arith in
      let apart : g.address ≢ e.address = (All-find (Differ g) q es e d.0 found).2 in
      rw (if_neg _ p) (ground (arith, erase_node-map q es e d.1 found))
]

-- The least recently used entry.
unfoldable pub last : Entry → List Entry → Entry
last e [] = e
last e (g ∷ es) = last g es

pub All-last {ℓ} :
    (P : Entry → Type ℓ) (e : Entry) (es : List Entry) → P e → All P es → P (last e es)
unfolding last
All-last P e [] h a = h
All-last P e (g ∷ es) h a = All-last P g es a.0 a.1

pub find-last :
    (e : Entry) (es : List Entry)
    → Distinct (e ∷ es)
    → find (last e es).pid (e ∷ es) ≡ some (last e es)
unfolding find last
find-last e [] d = ground arith
find-last e (g ∷ es) d = rw (if_neg _ (All-last (Differ e) g es d.0.0 d.0.1).0) (find-last g es d.1)

pop_back-cons :
    (n : LruNode) (l : List LruNode) {pid : PageId} {rest : List LruNode}
    → pop_back l ≡ some (pid, rest)
    → pop_back (n ∷ l) ≡ some (pid, n ∷ rest)
unfolding pop_back
pop_back-cons n l h = ground arith

without_other :
    (q : PageId) (e : Entry) (es : List Entry) → e.pid ≢ q → without q (e ∷ es) ≡ e ∷ without q es
unfolding without
without_other q e es h = rw (if_neg _ h)

-- `back` with `pop_back` removes the last entry of the list, and no other.
pub pop_back-map :
    (e : Entry) (es : List Entry)
    → Distinct (e ∷ es)
    → pop_back (map node_of (e ∷ es))
      ≡ some ((last e es).pid, map node_of (without (last e es).pid (e ∷ es)))
unfolding last
pop_back-map e [] d = unfold pop_back without in ground arith
pop_back-map e (g ∷ es) d =
    let apart : e.pid ≢ (last g es).pid = (All-last (Differ e) g es d.0.0 d.0.1).0 in
    rw (without_other (last g es).pid e (g ∷ es) apart)
      (pop_back-cons (node_of e) (map node_of (g ∷ es)) (pop_back-map g es d.1))

-- What is left when the least recently used entry goes is the list before it.
pub without-last :
    (e : Entry) (es : List Entry)
    → Distinct (e ∷ es)
    → without (last e es).pid (e ∷ es) ++ last e es ∷ [] ≡ e ∷ es
unfolding last
without-last e [] d = unfold without in ground arith
without-last e (g ∷ es) d =
    let apart : e.pid ≢ (last g es).pid = (All-last (Differ e) g es d.0.0 d.0.1).0 in
    rw (without_other (last g es).pid e (g ∷ es) apart) (ap (◌∷◌ e) (without-last g es d.1))
