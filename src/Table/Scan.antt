-- ===== src/Table/Scan.antt =====
-- What a loop over a file does, for a file whose iterators visit known rows.
use cs660_spring2025_pa.Base.{
  All, flat_map, append-nil, append_assoc, ℕ, zero, suc, ◌≤◌, ◌≡◌, sym, subst, ◌∙◌, Bool, true,
  false, List, [], ◌∷◌, ◌++◌, length, M, Returns, Returns-bind, ◌>>=◌, refl, arith,
}
use cs660_spring2025_pa.Tuple.{Tuple}
use cs660_spring2025_pa.Iterator.{Iterator, same}
use cs660_spring2025_pa.Table.{Table, round, for_each}

abbrev pub is_empty : {A : Type 0} → List A → Bool
is_empty [] = true
is_empty (x ∷ xs) = false

-- `Inv rows s`: the state `s` is one where `rows` have been inserted into the output.
module _ {S : Type 0} (Inv : List Tuple → S → Type 0) where
  -- A file that holds `rows`, in the order of its iterators: `At it rest` says that `it` has `rest`
  -- before it. No call that reads changes what `Inv` says.
  pub record IsScan (file : Table S) (At : Iterator → List Tuple → Type 0) (rows : List Tuple)
      : Type 0 where
    pub begins :
        (done : List Tuple) (s : S)
        → Inv done s
        → Returns file.begin s (λ it s'. At it rows × Inv done s')
    pub ends :
        (done : List Tuple) (s : S) (it : Iterator) (rest : List Tuple)
        → Inv done s
        → At it rest
        → Returns file.end s (λ last s'. (same it last ≡ is_empty rest) × Inv done s')
    pub reads :
        (done : List Tuple) (s : S) (it : Iterator) (t : Tuple) (rest : List Tuple)
        → Inv done s
        → At it (t ∷ rest)
        → Returns (file.get_tuple it) s (λ t' s'. (t' ≡ t) × Inv done s')
    pub advances :
        (done : List Tuple) (s : S) (it : Iterator) (t : Tuple) (rest : List Tuple)
        → Inv done s
        → At it (t ∷ rest)
        → Returns (file.next it) s (λ it' s'. At it' rest × Inv done s')

  -- A file that takes the tuples of `Accepts`.
  pub record IsSink (file : Table S) (Accepts : Tuple → Type 0) : Type 0 where
    pub inserts :
        (done : List Tuple) (s : S) (t : Tuple)
        → Inv done s
        → Accepts t
        → Returns (file.insert_tuple t) s (λ _ s'. Inv (done ++ t ∷ []) s')

  -- `P rest b done` is kept by the body, for the rows left, what is collected and what is inserted.
  module _ {B : Type 0} (file : Table S) (At : Iterator → List Tuple → Type 0) (rows : List Tuple)
      (scan : IsScan file At rows) (body : Tuple → B → M S B)
      (P : List Tuple → B → List Tuple → Type 0)
      (keeps : (t : Tuple) (rest : List Tuple) (b : B) (done : List Tuple) (s : S)
        → P (t ∷ rest) b done
        → Inv done s
        → Returns (body t b) s (λ b' s'. (more : List Tuple) × P rest b' more × Inv more s')) where
    round_lem :
        (t : Tuple) (rest : List Tuple) (it : Iterator) (b : B) (done : List Tuple) (s : S)
        → At it (t ∷ rest)
        → P (t ∷ rest) b done
        → Inv done s
        → Returns
            (round file body it b)
            s
            (λ x s'. At (x.0) rest × ((more : List Tuple) × P rest (x.1) more × Inv more s'))
    unfolding round
    round_lem t rest it b done s at p inv =
        let (t', s1, run1, (same_t, inv1)) = scan.reads done s it t rest inv at in
        let (b', s2, run2, (more, p', inv2)) = keeps t rest b done s1 p inv1 in
        let (it', s3, run3, (at', inv3)) = scan.advances more s2 it t rest inv2 at in
        ((it', b'), s3, rw (◌>>=◌, run1, same_t, run2, run3), (at', (more, p', inv3)))

    pub for_each_lem :
        (fuel : ℕ) (rest : List Tuple) (it : Iterator) (b : B) (done : List Tuple) (s : S)
        → length rest ≤ fuel
        → At it rest
        → P rest b done
        → Inv done s
        → Returns
            (for_each file body fuel it b)
            s
            (λ b' s'. (more : List Tuple) × P [] b' more × Inv more s')
    unfolding for_each
    for_each_lem zero [] it b done s enough at p inv =
        Returns-bind file.end _ s (scan.ends done s it [] inv at)
          λ last s1 q. rw (q.0) (b, s1, refl, (done, p, q.1))
    for_each_lem zero (t ∷ rest) it b done s enough at p inv = absurd (omega arith)
    for_each_lem (suc fuel) [] it b done s enough at p inv =
        Returns-bind file.end _ s (scan.ends done s it [] inv at)
          λ last s1 q. rw (q.0) (b, s1, refl, (done, p, q.1))
    for_each_lem (suc fuel) (t ∷ rest) it b done s enough at p inv =
        Returns-bind file.end _ s (scan.ends done s it (t ∷ rest) inv at) λ last s1 q. rw (q.0) (
          Returns-bind (round file body it b) _ s1 (round_lem t rest it b done s1 at p q.1)
            λ x s2 (at', (more, p', inv')).
              for_each_lem fuel rest (x.0) (x.1) more s2 (omega arith) at' p' inv')

  -- A loop whose body inserts `emits t` for a row `t`, over rows of which `Ok` holds.
  module _ (file : Table S) (At : Iterator → List Tuple → Type 0) (rows : List Tuple)
      (scan : IsScan file At rows) (body : Tuple → Unit {0} → M S (Unit {0}))
      (emits : Tuple → List Tuple) (Ok : Tuple → Type 0)
      (inserts : (t : Tuple) (done : List Tuple) (s : S)
        → Ok t
        → Inv done s
        → Returns (body t tt) s (λ _ s'. Inv (done ++ emits t) s')) where
    pub for_each-flat_map :
        (fuel : ℕ) (done : List Tuple) (s : S)
        → length rows ≤ fuel
        → All Ok rows
        → Inv done s
        → Returns
            (file.begin >>= λ it. for_each file body fuel it tt)
            s
            (λ _ s'. Inv (done ++ flat_map emits rows) s')
    for_each-flat_map fuel done s enough fine inv =
        let P : List Tuple → Unit {0} → List Tuple → Type 0 = λ rest _ more.
          All Ok rest × (more ++ flat_map emits rest ≡ done ++ flat_map emits rows) in
        let (it, s1, run, (at, inv1)) = scan.begins done s inv in
        let (b, s2, run2, (more, (fine', same_list), inv2)) =
          for_each_lem file At rows scan body P
            (λ t rest _ behind s p i.
              let (b, s', run', i') = inserts t behind s (p.0.0) i in
              (
                b,
                s',
                run',
                (
                  behind ++ emits t,
                  (p.0.1, append_assoc behind (emits t) (flat_map emits rest) ∙ p.1),
                  i',
                ),
              ))
            fuel rows it tt done s1 enough at (fine, refl) inv1 in
        (
          b,
          s2,
          rw (◌>>=◌, run) run2,
          subst (λ l. Inv l s2) (sym (append-nil more) ∙ same_list) inv2,
        )
