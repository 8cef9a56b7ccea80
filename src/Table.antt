-- ===== src/Table.antt =====
-- A `DbFile` as the query operators use it: the virtual methods of include/db/DbFile.hpp on a state
-- `S`, and a loop over a file.
pub mod Scan
pub mod Files
pub mod Output
pub mod HeapScan
pub mod HeapSink
pub mod HeapLaws
use cs660_spring2025_pa.Base.{ℕ, zero, suc, Bool, if◌then◌else◌, M, ◌>>=◌, pure, fail, out_of_fuel}
use cs660_spring2025_pa.Tuple.{Tuple, TupleDesc}
use cs660_spring2025_pa.Iterator.{Iterator, same}

pub record Table (S : Type 0) : Type 0 where
  pub td : TupleDesc
  pub begin : M S Iterator
  pub end : M S Iterator
  pub next : Iterator → M S Iterator
  pub get_tuple : Iterator → M S Tuple
  pub insert_tuple : Tuple → M S (Unit {0})

-- One round of a loop over a file: the body is given the tuple and what is collected so far.
unfoldable pub round :
    {S B : Type 0} → Table S → (Tuple → B → M S B) → Iterator → B → M S (Iterator × B)
round file body it b = do t ← file.get_tuple it; b' ← body t b; it' ← file.next it; pure (it', b')

-- `for (; it != file.end(); file.next(it))`, in at most `fuel` rounds.
unfoldable pub for_each : {S B : Type 0} → Table S → (Tuple → B → M S B) → ℕ → Iterator → B → M S B
unfolding round
for_each file body zero it b = do last ← file.end; if same it last then pure b else fail out_of_fuel
for_each file body (suc fuel) it b = do
  last ← file.end
  if same it last
      then pure b
      else (do (it', b') ← round file body it b; for_each file body fuel it' b')
