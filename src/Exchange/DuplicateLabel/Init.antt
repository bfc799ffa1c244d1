-- ===== src/Exchange/DuplicateLabel/Init.antt =====
-- execution/exchange/duplicate_label.go: init, which finds the series of equal labels and makes the
-- words of occupancy. The map from hashes to output ids is a list of pairs; the hash of labels is a
-- parameter.
use promql_engine.Prelude.{
  ℕ, zero, suc, ◌-◌, ltb, List, [], ◌∷◌, ◌++◌, length, set, take, replicate, Option, none, some,
  if◌then◌else◌, ◌==◌,
}
use mathlib.Core.Option
use promql_engine.Exchange.DuplicateLabel.{DuplicateLabelCheck}

-- The variables of the loop: the map outputIDs, the field d.outputIDs and the field d.series.
pub record InitState (L : Type 0) : Type 0 where
  pub by_hash : List (ℕ × ℕ)
  pub output_ids : Option (List ℕ)
  pub series : List L

unfoldable pub lookup_output : ℕ → List (ℕ × ℕ) → Option ℕ
lookup_output hash [] = none
lookup_output hash (p ∷ ps) = if p.0 == hash then some p.1 else lookup_output hash ps

-- The ids below n, in order.
unfoldable pub identity_ids : ℕ → List ℕ
identity_ids zero = []
identity_ids (suc n) = identity_ids n ++ n ∷ []

module _ {L : Type 0} (hash : L → ℕ) (input : List L) where
  -- The first alias, at the position i: every earlier id is its own output id.
  unfoldable pub start_aliases : ℕ → InitState L → InitState L
  start_aliases i s = record s {
    output_ids = some (identity_ids i ++ replicate (length input - i) 0);
    series = take i input;
  }

  -- A new hash at the position i: its output id and the state with it.
  unfoldable pub add_output : ℕ → L → InitState L → ℕ × InitState L
  add_output i metric s = elim s.output_ids [
    | none ↦ (i, record s { by_hash = (hash metric, i) ∷ s.by_hash })
    | some ids ↦ (
      length s.series,
      record s {
        by_hash = (hash metric, length s.series) ∷ s.by_hash;
        series = s.series ++ metric ∷ [];
      },
    )
  ]

  unfoldable pub find_output : ℕ → L → InitState L → ℕ × InitState L
  find_output i metric s = elim (lookup_output (hash metric) s.by_hash) [
    | none ↦ add_output i metric s
    | some output_id ↦ (output_id, elim s.output_ids [ none ↦ start_aliases i s | some ids ↦ s ])
  ]

  unfoldable pub assign : ℕ → ℕ × InitState L → InitState L
  assign i found = record found.1 {
    output_ids = Option.map (λ ids. set ids i found.0) found.1.output_ids;
  }

  unfoldable pub init_loop : ℕ → List L → InitState L → InitState L
  init_loop i [] s = s
  init_loop i (metric ∷ rest) s = init_loop (suc i) rest (assign i (find_output i metric s))

  -- init, on the series of the operator below; fewer than two need no check.
  unfoldable pub init_check : ℕ → DuplicateLabelCheck × List L
  init_check step =
      let s = init_loop 0 input (record { by_hash = []; output_ids = none; series = input }) in
      if ltb (length input) 2
      then (record { output_ids = none; seen = []; step = step; origin = none }, input)
      else (
        record {
          output_ids = s.output_ids;
          seen = elim s.output_ids [ none ↦ [] | some ids ↦ replicate (length s.series) 0 ];
          step = step;
          origin = none;
        },
        s.series,
      )
