-- ===== src/Binary/Tests.antt =====
-- Binary operators on concrete vectors: numbers for floats, histograms and label sets; the signature is the number itself.
use promql_engine.Prelude.{
  ℕ, String, if◌then◌else◌, ◌+◌, ◌-◌, ◌*◌, ◌/◌, ◌%◌, ◌≡◌, ◌↔◌, refl, get_elem?, get_or, arith, ltb,
  leb, ◌==◌, pos, negsuc, true, false, List, [], ◌∷◌, none, some, eq_ℤ, ok, err, many_to_many_match,
}
use text.Mathlib.Text.{◌==◌ as str_eq}
use promql_engine.LogicalPlan.Nodes.{Card, many_to_one, one_to_many, VectorMatching}
use promql_engine.Model.Vector.{StepVector}
use promql_engine.Binary.Ops.{
  BinaryOp, sub, mul, eqlc, land, lor, Arithmetic, Combined, float_op, should_drop_metric_name,
  is_comparison_operator,
}
use promql_engine.Binary.Buckets.{
  JoinBucket, VectorOperator, first_of, rest_of, write, exec_binary_and, exec_binary_or,
  exec_binary_unless,
}
use promql_engine.Binary.Vector.{
  Pairing, is_one_to_one, is_one_to_many, load_samples, pair_sample, pair_sample_histogram,
  exec_binary_arithmetic,
}
use promql_engine.Binary.Join.{
  LabelOps, lookup_key, bucket_for, assign_buckets, signature_func, included_pairs,
  included_labels_hash, set_included, result_metric, lookup_list, append, append_block,
  append_blocks, rank_one, rank_all, output_tables, init_join_tables,
}
use promql_engine.Binary.Marks.{bucket_of}
use promql_engine.Binary.Sets.{Fits, filled, exec_binary_and-unless, exec_binary_or_lem}
use promql_engine.Binary.Matching.{
  IsClear, filled_step, exec_binary_arithmetic-joined, exec_binary_arithmetic-shared,
}
use promql_engine.Binary.Histograms.{load_samples-stale}
use promql_engine.Binary.GroupRight.{IsMixed, exec_binary_arithmetic-group_right}
use promql_engine.Binary.Signatures.{init_join_tables-bucket_of}
use promql_engine.Binary.Series.{metrics, all_metrics}
use promql_engine.Binary.Tables.{init_join_tables-result_metric}

abbrev sum_of : ℕ → ℕ → Combined ℕ
sum_of a b = record { result = a + b; collision = false; reconciled = false; error = none }

abbrev numbers : Arithmetic ℕ ℕ
numbers = record {
  zero_f = 0;
  one_f = 1;
  plus = λ a b. a + b;
  minus = λ a b. a - b;
  times = λ a b. a * b;
  divide = λ a b. a / b;
  power = λ a b. a;
  modulo = λ a b. a % b;
  arctan2 = λ a b. a;
  equal = λ a b. a == b;
  less = λ a b. ltb a b;
  less_equal = λ a b. leb a b;
  multiply = λ h f. h * f;
  divide_by = λ h f. h / f;
  trim_buckets = λ h f b. h;
  compact = λ h. h;
  add_histograms = sum_of;
  sub_histograms = sum_of;
  as_gauge = λ h. h;
  equals = λ a b. a == b;
}

abbrev label_ops : LabelOps ℕ
label_ops = record {
  hash = λ l. l;
  get = λ l n. "";
  keep = λ ns l. l;
  del = λ ns l. l;
  set_label = λ n v l. l;
  sum_with = λ ns l. l / 10;
  sum_without = λ ns l. l;
  sum_pairs = λ ps. 0;
  sort_names = λ ns. ns;
}

abbrev on_tens : Card → VectorMatching
on_tens c = record { card = c; on = true; matching_labels = "job" ∷ []; include = [] }

-- The series 11, 12 and 31 on the side of high cardinality, 10, 20 and 35 on the other.
abbrev operator : Card → BinaryOp → VectorOperator ℕ ℕ ℕ
operator c o = record {
  card = c;
  op = o;
  return_bool = false;
  series = 11 ∷ 12 ∷ 31 ∷ [];
  hc_output_base = 0 ∷ 1 ∷ 2 ∷ [];
  lc_output_base = 0 ∷ 1 ∷ 2 ∷ [];
  lc_output_offset = 0 ∷ 0 ∷ 0 ∷ [];
  lc_join_buckets = 0 ∷ 1 ∷ 2 ∷ [];
  hc_join_buckets = 0 ∷ 0 ∷ 2 ∷ [];
  buckets = λ p. record { ats = negsuc 0; bts = negsuc 0; sid = 0; val = 0; histogram_val = none };
}

init_test :
    init_join_tables {H = ℕ} label_ops
      (0)
      (on_tens many_to_one)
      sub
      false
      (11 ∷ 12 ∷ 31 ∷ [])
      (10 ∷ 20 ∷ 35 ∷ [])
    ≡ ok (record (operator many_to_one sub) { lc_output_base = [] })
unfolding init_join_tables output_tables append_blocks append_block append signature_func
    assign_buckets bucket_for lookup_key lookup_list rank_all rank_one included_labels_hash
    included_pairs result_metric set_included should_drop_metric_name is_one_to_one
init_test = refl

-- A label set is ten times its job plus a digit for its name: 1 for u, 2 for v.
abbrev name_of : ℕ → String
name_of l = if l % 10 == 1 then "u" else if l % 10 == 2 then "v" else ""

abbrev digit_of : String → ℕ
digit_of v = if str_eq v "u" then 1 else 2

abbrev digit_sum : List (String × String) → ℕ
digit_sum [] = 0
digit_sum ((n, v) ∷ ps) = digit_of v + digit_sum ps

abbrev named_ops : LabelOps ℕ
named_ops = record {
  hash = λ l. l;
  get = λ l n. name_of l;
  keep = λ ns l. l;
  del = λ ns l. l - l % 10;
  set_label = λ n v l. (l - l % 10) + digit_of v;
  sum_with = λ ns l. l / 10;
  sum_without = λ ns l. l / 10;
  sum_pairs = digit_sum;
  sort_names = λ ns. ns;
}

-- `w == bool on (job) group_left (__name__) {job="1"}` with series u and v on the right: both give the output series without
-- a name, which is appended once, and yet v has the offset 1.
name_included_test :
    init_join_tables {F = ℕ} {H = ℕ} named_ops
      (0)
      (record {
        card = many_to_one;
        on = true;
        matching_labels = "job" ∷ [];
        include = "__name__" ∷ [];
      })
      eqlc
      true
      (13 ∷ [])
      (11 ∷ 12 ∷ [])
    ≡ ok (record {
      card = many_to_one;
      op = eqlc;
      return_bool = true;
      series = 10 ∷ [];
      hc_output_base = 0 ∷ [];
      lc_output_base = [];
      lc_output_offset = 0 ∷ 1 ∷ [];
      lc_join_buckets = 0 ∷ 0 ∷ [];
      hc_join_buckets = 0 ∷ [];
      buckets =
          λ p. record { ats = negsuc 0; bts = negsuc 0; sid = 0; val = 0; histogram_val = none };
    })
unfolding init_join_tables output_tables append_blocks append_block append signature_func
    assign_buckets bucket_for lookup_key lookup_list rank_all rank_one included_labels_hash
    included_pairs result_metric set_included should_drop_metric_name is_comparison_operator
    is_one_to_one
name_included_test = refl

abbrev vector : List ℕ → List ℕ → StepVector ℕ ℕ
vector ids vals = record {
  t = pos 60;
  sample_ids = ids;
  samples = vals;
  histogram_ids = [];
  histograms = [];
}

fresh : (c : Card) (o : BinaryOp) (q : ℕ) → eq_ℤ ((operator c o).buckets q).ats (pos 60) ≡ false
fresh c o q = refl

clear : (c : Card) (o : BinaryOp) (q : ℕ) → IsClear (pos 60) ((operator c o).buckets q)
clear c o q = record { no_sample = refl; no_match = refl; no_histogram = refl }

abbrev left : StepVector ℕ ℕ
left = vector (0 ∷ 2 ∷ []) (7 ∷ 9 ∷ [])

abbrev right : StepVector ℕ ℕ
right = vector (0 ∷ 1 ∷ []) (4 ∷ 5 ∷ [])

Fits-left : Fits (0 ∷ 0 ∷ 2 ∷ []) (0 ∷ 1 ∷ 2 ∷ []) left
Fits-left = record {
  samples_in = omega arith;
  samples_out = omega arith;
  samples_paired = refl;
  histograms_in = tt;
  histograms_out = tt;
  histograms_paired = refl;
}

Fits-right : Fits (0 ∷ 1 ∷ 2 ∷ []) (0 ∷ 1 ∷ 2 ∷ []) right
Fits-right = record {
  samples_in = omega arith;
  samples_out = omega arith;
  samples_paired = refl;
  histograms_in = tt;
  histograms_out = tt;
  histograms_paired = refl;
}

exec_binary_and-unless_example :
    (filled (exec_binary_and left right (vector [] []) (operator many_to_one land))
      ≡ ok (vector (0 ∷ []) (7 ∷ [])))
    × (filled (exec_binary_unless left right (vector [] []) (operator many_to_one land))
        ≡ ok (vector (2 ∷ []) (9 ∷ [])))
exec_binary_and-unless_example =
    exec_binary_and-unless left right (vector [] []) (operator many_to_one land) Fits-left
      (omega arith) tt (fresh many_to_one land)

exec_binary_or_lem_example :
    filled (exec_binary_or left right (vector [] []) (operator many_to_one lor))
    ≡ ok (vector (0 ∷ 2 ∷ 1 ∷ []) (7 ∷ 9 ∷ 5 ∷ []))
exec_binary_or_lem_example =
    exec_binary_or_lem left right (vector [] []) (operator many_to_one lor) Fits-left Fits-right
      (fresh many_to_one lor)

exec_binary_arithmetic-joined_example :
    filled_step numbers
      (operator many_to_one sub)
      (exec_binary_arithmetic numbers left right (vector [] []) (operator many_to_one sub))
    ≡ ok (vector (0 ∷ []) (3 ∷ []))
unfolding float_op is_one_to_many is_one_to_one
exec_binary_arithmetic-joined_example =
    exec_binary_arithmetic-joined numbers (operator many_to_one sub) left right (vector [] [])
      (λ e. absurd (cc e)) (clear many_to_one sub)
      (record { ids_in = omega arith; paired = refl; no_ids = refl; no_histograms = refl })
      (omega arith)
      (record { ids_in = omega arith; paired = refl; no_ids = refl; no_histograms = refl })
      (omega arith) refl refl

exec_binary_arithmetic-shared_example :
    (a : ℕ) × (b : ℕ) × (filled_step numbers (operator many_to_one sub) (
        exec_binary_arithmetic numbers left
          (vector (0 ∷ 0 ∷ []) (4 ∷ 5 ∷ []))
          (vector [] [])
          (operator many_to_one sub))
      ≡ err (many_to_many_match false a b))
unfolding is_one_to_many
exec_binary_arithmetic-shared_example =
    exec_binary_arithmetic-shared numbers (operator many_to_one sub) left
      (vector (0 ∷ 0 ∷ []) (4 ∷ 5 ∷ [])) (vector [] []) (λ e. absurd (cc e)) refl
      (record { ids_in = omega arith; paired = refl; no_ids = refl; no_histograms = refl }) refl

-- The histogram 6 of the first series on the left.
abbrev only_histograms : StepVector ℕ ℕ
only_histograms = record {
  t = pos 60;
  sample_ids = [];
  samples = [];
  histogram_ids = 0 ∷ [];
  histograms = 6 ∷ [];
}

IsMixed-example :
    IsMixed (operator one_to_many mul) only_histograms (vector (0 ∷ 1 ∷ 2 ∷ []) (7 ∷ 9 ∷ 4 ∷ []))
IsMixed-example = record {
  no_samples = refl;
  left_in = omega arith;
  left_out = omega arith;
  left_paired = refl;
  apart = refl;
  no_histograms = refl;
  right_in = omega arith;
  right_out = omega arith;
  right_paired = refl;
}

exec_binary_arithmetic-group_right_example :
    filled_step numbers (operator one_to_many mul) (
      exec_binary_arithmetic numbers only_histograms
        (vector (0 ∷ 1 ∷ 2 ∷ []) (7 ∷ 9 ∷ 4 ∷ []))
        (vector [] [])
        (operator one_to_many mul))
    ≡ ok (record (vector [] []) { histogram_ids = 0 ∷ 1 ∷ []; histograms = 0 ∷ 0 ∷ [] })
exec_binary_arithmetic-group_right_example =
    exec_binary_arithmetic-group_right numbers (operator one_to_many mul) only_histograms
      (vector (0 ∷ 1 ∷ 2 ∷ []) (7 ∷ 9 ∷ 4 ∷ [])) (vector [] []) refl refl IsMixed-example
      (fresh one_to_many mul)

-- A bucket that held the histogram 8 at an earlier step.
abbrev held : ℕ → JoinBucket ℕ ℕ
held p = record { ats = pos 30; bts = pos 30; sid = 0; val = 0; histogram_val = some 8 }

abbrev empty_pairing : Pairing ℕ ℕ
empty_pairing = record { step = vector [] []; buckets = held; notes = [] }

load_samples-stale_example :
    pair_sample numbers
      (operator many_to_one mul)
      1
      0
      (write held 0 (record (held 0) { sid = 0; val = 4; ats = pos 60 }) 0)
      7
      empty_pairing
    ≡ pair_sample_histogram numbers
        (operator many_to_one mul)
        1
        0
        (write held 0 (record (held 0) { sid = 0; val = 4; ats = pos 60 }) 0)
        7
        8
        empty_pairing
unfolding load_samples first_of rest_of
load_samples-stale_example =
    load_samples-stale numbers (operator many_to_one mul) (pos 60) (0 ∷ []) (4 ∷ []) held
      (write held 0 (record (held 0) { sid = 0; val = 4; ats = pos 60 })) 0 1 0 7 8 empty_pairing
      refl refl

init_join_tables-bucket_of_example :
    (o : VectorOperator ℕ ℕ ℕ) × (init_join_tables label_ops 0
        (on_tens many_to_one)
        sub
        false
        (11 ∷ 12 ∷ 31 ∷ [])
        (10 ∷ 20 ∷ 35 ∷ [])
      ≡ ok o)
    × ((bucket_of o.lc_join_buckets 2 ≡ bucket_of o.hc_join_buckets 2) ↔ (
        signature_func label_ops (on_tens many_to_one) 35
        ≡ signature_func label_ops (on_tens many_to_one) 31))
init_join_tables-bucket_of_example =
    init_join_tables-bucket_of label_ops 0 (on_tens many_to_one) sub false (11 ∷ 12 ∷ 31 ∷ [])
      (10 ∷ 20 ∷ 35 ∷ []) 2 2 35 31 refl refl

-- The series 11, 12 and 31 with 10, 20 and 35: the pair of 31 and 35 is the third output series.
init_join_tables-result_metric_example :
    (o : VectorOperator ℕ ℕ ℕ) × (init_join_tables label_ops 0
        (on_tens many_to_one)
        sub
        false
        (11 ∷ 12 ∷ 31 ∷ [])
        (10 ∷ 20 ∷ 35 ∷ [])
      ≡ ok o)
    × (k : ℕ) × (c : ℕ) × (get_elem? (10 ∷ 20 ∷ 35 ∷ []) k ≡ some c)
    × (signature_func label_ops (on_tens many_to_one) c
        ≡ signature_func label_ops (on_tens many_to_one) 35)
    × (included_labels_hash label_ops (on_tens many_to_one) c
        ≡ included_labels_hash label_ops (on_tens many_to_one) 35)
    × (get_elem? o.series (get_or o.hc_output_base 2 0 + get_or o.lc_output_offset 2 0)
        ≡ some (result_metric label_ops (on_tens many_to_one) sub false 31 c))
unfolding all_metrics metrics result_metric set_included should_drop_metric_name
    is_comparison_operator is_one_to_one signature_func lookup_list rank_all rank_one lookup_key
    included_labels_hash included_pairs
init_join_tables-result_metric_example =
    init_join_tables-result_metric label_ops 0 (on_tens many_to_one) sub false (11 ∷ 12 ∷ 31 ∷ [])
      (10 ∷ 20 ∷ 35 ∷ []) 2 2 35 31 refl ((refl, (refl, tt)), ((refl, tt), (tt, tt))) refl refl refl
