-- ===== src/HeapFile/Append.antt =====
-- The rows of a heap file after an insertion behind all slots in use.
use cs660_spring2025_pa.Base.{
  ℕ, zero, suc, ◌+◌, ◌≤◌, ◌<◌, ◌≡◌, ◌≢◌, ◌⊎◌, inl, inr, sym, ap, subst, ◌∙◌, true, false, List, [],
  ◌∷◌, ◌++◌, dec_lt, ℕ_discrete, arith,
}
use cs660_spring2025_pa.Memory.{Page}
use cs660_spring2025_pa.Tuple.{Tuple}
use cs660_spring2025_pa.HeapPage.{HeapPage, empty}
use cs660_spring2025_pa.HeapPage.Slots.{SameSlot}
use cs660_spring2025_pa.HeapFile.Rows.{
  HoldsTuple, Rows, at_end, turn, skip, hold, past_end, over_rest,
}

-- No slot from `slot` on is in use.
abbrev pub IsFree : HeapPage → Page → ℕ → Type 0
IsFree hp p slot = (s : ℕ) → slot ≤ s → s < hp.capacity → empty p s ≡ true

module _ (hp : HeapPage) (pages : ℕ → Page) (bound : ℕ) where
  free_tail :
      (n page slot : ℕ)
      → hp.capacity ≤ slot + n
      → suc page ≡ bound
      → IsFree hp (pages page) slot
      → Rows hp pages bound page slot []
  free_tail zero page slot h e free =
      turn page slot [] (omega arith) (omega arith) (at_end (suc page) 0 (omega arith))
  free_tail (suc n) page slot h e free = elim (dec_lt slot hp.capacity) [
    | no past ↦ turn page slot [] (omega arith) (omega arith) (at_end (suc page) 0 (omega arith))
    | yes lt ↦
        skip page slot [] (omega arith) lt (free slot (omega arith) lt)
          (free_tail n page (suc slot) (omega arith) e (λ s a b. free s (omega arith) b))
  ]

  no_rows :
      (page slot : ℕ) (ts : List Tuple)
      → suc page ≡ bound
      → slot ≤ hp.capacity
      → IsFree hp (pages page) slot
      → Rows hp pages bound page slot ts
      → ts ≡ []
  no_rows page slot ts e h free r =
      past_end hp pages bound (suc page) 0 ts (omega arith)
        (over_rest hp pages bound page slot ts (omega arith) h free r)

-- One page more, with no slot in use.
pub Rows-grow :
    (hp : HeapPage) (pages : ℕ → Page) (bound page slot : ℕ) (ts : List Tuple)
    → IsFree hp (pages bound) 0
    → page ≤ bound
    → Rows hp pages bound page slot ts
    → Rows hp pages (suc bound) page slot ts
Rows-grow hp pages bound _ _ _ free h (at_end page slot e) =
    let here : bound ≡ page = omega arith in
    free_tail hp pages (suc bound) hp.capacity page slot (omega arith) (omega arith)
      (λ s a b. subst (λ k. empty (pages k) s ≡ true) here (free s (omega arith) b))
Rows-grow hp pages bound _ _ _ free h (turn page slot ts lt c r) =
    turn page slot ts (omega arith) c
      (Rows-grow hp pages bound (suc page) 0 ts free (omega arith) r)
Rows-grow hp pages bound _ _ _ free h (skip page slot ts lt c e r) =
    skip page slot ts (omega arith) c e (Rows-grow hp pages bound page (suc slot) ts free h r)
Rows-grow hp pages bound _ _ _ free h (hold page slot t ts lt c e r) =
    hold page slot t ts (omega arith) c e (Rows-grow hp pages bound page (suc slot) ts free h r)

module _ (hp : HeapPage) (pages pages' : ℕ → Page) (bound last place : ℕ) (t : Tuple)
    (ends : suc last ≡ bound) (in_page : place < hp.capacity)
    (others : (k : ℕ) → k ≢ last → pages' k ≡ pages k)
    (slots : (s : ℕ) → s < hp.capacity → place ≢ s → SameSlot hp (pages last) (pages' last) s)
    (free : IsFree hp (pages last) place) (stored : HoldsTuple hp (pages' last) place t) where
  HoldsTuple-kept :
      (page slot : ℕ) (u : Tuple)
      → slot < hp.capacity
      → ((page ≢ last) ⊎ (slot ≢ place))
      → HoldsTuple hp (pages page) slot u
      → HoldsTuple hp (pages' page) slot u
  HoldsTuple-kept page slot u lt differs h = elim (ℕ_discrete page last) [
    | no other ↦ subst (λ p. HoldsTuple hp p slot u) (sym (others page other)) h
    | yes here ↦
        let away : place ≢ slot = elim differs [
          | inl n ↦ absurd (n here)
          | inr n ↦ λ e. n (sym e)
        ] in
        let same = slots slot lt away in
        let h' = subst (λ k. HoldsTuple hp (pages k) slot u) here h in
        subst (λ k. HoldsTuple hp (pages' k) slot u) (sym here)
          (record {
            in_use = same.in_use ∙ h'.in_use;
            bytes = same.bytes ∙ h'.bytes;
            typed = h'.typed;
            fits = h'.fits;
          })
  ]

  empty-kept :
      (page slot : ℕ)
      → slot < hp.capacity
      → ((page ≢ last) ⊎ (slot ≢ place))
      → empty (pages' page) slot ≡ empty (pages page) slot
  empty-kept page slot lt differs = elim (ℕ_discrete page last) [
    | no other ↦ ap (λ p. empty p slot) (others page other)
    | yes here ↦
        let away : place ≢ slot = elim differs [
          | inl n ↦ absurd (n here)
          | inr n ↦ λ e. n (sym e)
        ] in
        subst (λ k. empty (pages' k) slot ≡ empty (pages k) slot) (sym here)
          (slots slot lt away).in_use
  ]

  -- The position is not behind the place.
  abbrev IsBefore : ℕ → ℕ → Type 0
  IsBefore page slot = (page < last) ⊎ ((page ≡ last) × (slot ≤ place))

  at_place :
      (ts : List Tuple)
      → Rows hp pages bound last (suc place) ts
      → Rows hp pages' bound last place (ts ++ t ∷ [])
  at_place ts r =
      let none_left : ts ≡ [] =
        no_rows hp pages bound last (suc place) ts ends (omega arith)
          (λ s a b. free s (omega arith) b) r in
      let tail : Rows hp pages' bound last (suc place) [] =
        free_tail hp pages' bound hp.capacity last (suc place) (omega arith) ends
          (λ s a b. empty-kept last s b (inr (omega arith)) ∙ free s (omega arith) b) in
      subst (λ l. Rows hp pages' bound last place (l ++ t ∷ [])) (sym none_left)
        (hold last place t [] (omega arith) in_page stored tail)

  -- A position is the place, or it differs and so does not pass it by a step.
  next_position :
      (page slot : ℕ)
      → IsBefore page slot
      → ((page ≡ last) × (slot ≡ place))
        ⊎ (((page ≢ last) ⊎ (slot ≢ place)) × IsBefore page (suc slot))
  next_position page slot (inl lt) = inr (inl (λ e. omega arith), inl lt)
  next_position page slot (inr (e, le)) = elim (ℕ_discrete slot place) [
    | yes same ↦ inl (e, same)
    | no other ↦ inr (inr other, inr (e, omega arith))
  ]

  next_page :
      (page slot : ℕ)
      → page < bound
      → hp.capacity ≤ slot
      → IsBefore page slot
      → IsBefore (suc page) 0
  next_page page slot lt c (inl h) = elim (dec_lt (suc page) last) [
    | yes less ↦ inl less
    | no ge ↦ inr (omega arith, omega arith)
  ]
  next_page page slot lt c (inr (e, le)) = absurd (omega arith)

  in_use-away : (page slot : ℕ) → empty (pages page) slot ≡ false → page ≡ last → slot ≡ place → ⊥
  in_use-away page slot used e h =
      let there : empty (pages last) place ≡ true = free place (omega arith) in_page in
      let here : empty (pages last) place ≡ false =
        subst (λ k. empty (pages k) place ≡ false) e
          (subst (λ n. empty (pages page) n ≡ false) h used) in
      ground (arith, there, here)

  pub Rows-append :
      (page slot : ℕ) (ts : List Tuple)
      → IsBefore page slot
      → Rows hp pages bound page slot ts
      → Rows hp pages' bound page slot (ts ++ t ∷ [])
  Rows-append _ _ _ h (at_end page slot e) = absurd (ground arith)
  Rows-append _ _ _ h (turn page slot ts lt c r) =
      turn page slot (ts ++ t ∷ []) lt c
        (Rows-append (suc page) 0 ts (next_page page slot lt c h) r)
  Rows-append _ _ _ h (skip page slot ts lt c e r) = elim (next_position page slot h) [
    | inl (here, same) ↦
        subst (λ k. Rows hp pages' bound k slot (ts ++ t ∷ [])) (sym here)
          (subst (λ n. Rows hp pages' bound last n (ts ++ t ∷ [])) (sym same)
            (at_place ts (
              subst (λ n. Rows hp pages bound last (suc n) ts) same
                (subst (λ k. Rows hp pages bound k (suc slot) ts) here r))))
    | inr (away, more) ↦
        skip page slot (ts ++ t ∷ []) lt c (empty-kept page slot c away ∙ e)
          (Rows-append page (suc slot) ts more r)
  ]
  Rows-append _ _ _ h (hold page slot u ts lt c e r) = elim (next_position page slot h) [
    | inl (here, same) ↦ absurd (in_use-away page slot e.in_use here same)
    | inr (away, more) ↦
        hold page slot u (ts ++ t ∷ []) lt c (HoldsTuple-kept page slot u c away e)
          (Rows-append page (suc slot) ts more r)
  ]
