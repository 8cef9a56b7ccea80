-- ===== src/BufferPool/Lru.antt =====
-- The replacement policy: the pool's pages against a list that is cut to the number of slots.
use mathlib.Core.List.{map-append}
use cs660_spring2025_pa.Base.{
  suc, ◌≤◌, ◌≡◌, refl, ap, sym, ◌∙◌, List, [], ◌∷◌, map, length, none, some, arith, take,
  take_of_length-le, take-append,
}
use cs660_spring2025_pa.Base.Assoc.{remove}
use cs660_spring2025_pa.Database.{PageId, num_slots}
use cs660_spring2025_pa.BufferPool.Entries.{
  Entry, dec, without, find, last, Distinct, without_absent, length-without, without-last,
  find-last,
}

-- The resident pages, the most recently used first.
abbrev pub pids : List Entry → List PageId
pids = map (λ e. e.pid)

-- A use of a page: it goes to the front, and only as many pages stay as there are slots.
unfoldable pub use_page : PageId → List PageId → List PageId
use_page q l = take num_slots (q ∷ remove dec q l)

pub pids-without : (q : PageId) (es : List Entry) → pids (without q es) ≡ remove dec q (pids es)
unfolding without remove
pids-without q [] = refl
pids-without q (e ∷ es) = ground (arith, pids-without q es)

length-pids : (es : List Entry) → length (pids es) ≡ length es
length-pids [] = refl
length-pids (e ∷ es) = ap suc (length-pids es)

pub use_page_hit :
    (q : PageId) (es : List Entry) (e : Entry)
    → Distinct es
    → length es ≤ num_slots
    → find q es ≡ some e
    → q ∷ pids (without q es) ≡ use_page q (pids es)
unfolding use_page
use_page_hit q es e d b h =
    sym (
      take_of_length-le (q ∷ pids (without q es)) num_slots
        (omega (arith, length-pids (without q es), length-without q es e d h)))
    ∙ ap (λ l. take num_slots (q ∷ l)) (pids-without q es)

absent_pids : (q : PageId) (es : List Entry) → find q es ≡ none → remove dec q (pids es) ≡ pids es
absent_pids q es h = sym (pids-without q es) ∙ ap pids (without_absent q es h)

pub use_page_room :
    (q : PageId) (es : List Entry)
    → suc (length es) ≤ num_slots
    → find q es ≡ none
    → q ∷ pids es ≡ use_page q (pids es)
unfolding use_page
use_page_room q es b h =
    sym (take_of_length-le (q ∷ pids es) num_slots (omega (arith, length-pids es)))
    ∙ ap (λ l. take num_slots (q ∷ l)) (sym (absent_pids q es h))

pub use_page_full :
    (q : PageId) (e : Entry) (es : List Entry)
    → Distinct (e ∷ es)
    → length (e ∷ es) ≡ num_slots
    → find q (e ∷ es) ≡ none
    → q ∷ pids (without (last e es).pid (e ∷ es)) ≡ use_page q (pids (e ∷ es))
unfolding use_page
use_page_full q e es d b h =
    ap (◌∷◌ q) (
      sym (take-append (pids kept) ((last e es).pid ∷ []) 49 count)
      ∙ ap (take 49) (sym (map-append _ kept (last e es ∷ [])) ∙ ap pids (without-last e es d)))
    ∙ ap (λ l. take num_slots (q ∷ l)) (sym (absent_pids q (e ∷ es) h))
  where
    kept : List Entry
    kept = without (last e es).pid (e ∷ es)

    count : length (pids kept) ≡ 49
    count = omega (
      arith,
      length-pids kept,
      length-without (last e es).pid (e ∷ es) (last e es) d (find-last e es d),
    )
