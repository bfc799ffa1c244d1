-- ===== src/Exchange/DuplicateLabel/Tests.antt =====
-- Three series, of which the first and the third have equal labels, at the third step of a batch.
use promql_engine.Prelude.{
  ℕ, ◌≡◌, refl, arith, ℤ, ◌-ℤ◌, List, [], ◌∷◌, ok, err, duplicate_label_set, test_bit, set_bit,
  shift_right, true, none, some,
}
use promql_engine.Model.Vector.{StepVector}
use promql_engine.Exchange.DuplicateLabel.{mark_ids, misses_steps, check_vector, advance}
use promql_engine.Exchange.DuplicateLabel.Init.{
  lookup_output, identity_ids, start_aliases, add_output, find_output, assign, init_loop,
  init_check,
}
use promql_engine.Exchange.DuplicateLabel.Marks.{bit_at, mark_all, mark_ids_lem, mark_all-bits}
use promql_engine.Exchange.DuplicateLabel.Vectors.{check_vector_lem}

abbrev output_ids : List ℕ
output_ids = 0 ∷ 1 ∷ 0 ∷ []

abbrev seen : List ℕ
seen = 1 ∷ 0 ∷ []

-- A float of the third series and a histogram of the second one.
abbrev vector : StepVector ℕ ℕ
vector = record {
  t = ℤ.pos 120;
  sample_ids = 2 ∷ [];
  samples = 7 ∷ [];
  histogram_ids = 1 ∷ [];
  histograms = 8 ∷ [];
}

check_vector_lem_example :
    check_vector output_ids 10 (ℤ.pos 100) vector seen
    ≡ ok (record vector { sample_ids = 0 ∷ []; histogram_ids = 1 ∷ [] }, 5 ∷ 4 ∷ [])
unfolding misses_steps ◌-ℤ◌ test_bit set_bit
check_vector_lem_example =
    check_vector_lem output_ids 10 (ℤ.pos 100) vector seen refl ((0, refl, omega arith), tt)
      ((1, refl, omega arith), tt)

-- A float of the first series and a histogram of the third one clash.
abbrev clash : StepVector ℕ ℕ
clash = record {
  t = ℤ.pos 120;
  sample_ids = 0 ∷ [];
  samples = 7 ∷ [];
  histogram_ids = 2 ∷ [];
  histograms = 8 ∷ [];
}

clash_refused : check_vector output_ids 10 (ℤ.pos 100) clash seen ≡ err duplicate_label_set
unfolding misses_steps ◌-ℤ◌ test_bit set_bit
clash_refused =
    check_vector_lem output_ids 10 (ℤ.pos 100) clash seen refl ((0, refl, omega arith), tt)
      ((0, refl, omega arith), tt)

mark_ids_lem_example : mark_ids output_ids 2 (2 ∷ 1 ∷ []) seen ≡ ok (0 ∷ 1 ∷ [], 5 ∷ 4 ∷ [])
unfolding test_bit set_bit
mark_ids_lem_example =
    mark_ids_lem output_ids 2 (2 ∷ 1 ∷ []) seen
      ((0, refl, omega arith), ((1, refl, omega arith), tt))

marked : bit_at (mark_all 2 (1 ∷ []) seen) 1 2 ≡ true
unfolding test_bit
marked = mark_all-bits 2 (1 ∷ []) seen 1 2 (omega arith, tt)

-- Two steps later the mark of the second step is the first bit.
advance_shifts : advance 10 (some (ℤ.pos 100)) (ℤ.pos 120) (5 ∷ 4 ∷ []) ≡ ok (1 ∷ 1 ∷ [])
unfolding advance misses_steps ◌-ℤ◌ shift_right
advance_shifts = refl

-- The labels 5, 6, 5, 7: the third series is an alias of the first one.
init_runs : init_check (λ l. l) (5 ∷ 6 ∷ 5 ∷ 7 ∷ []) 10 ≡ (
  record {
    output_ids = some (0 ∷ 1 ∷ 0 ∷ 2 ∷ []);
    seen = 0 ∷ 0 ∷ 0 ∷ [];
    step = 10;
    origin = none;
  },
  5 ∷ 6 ∷ 7 ∷ [],
)
unfolding init_check init_loop assign find_output add_output start_aliases identity_ids
    lookup_output
init_runs = refl
