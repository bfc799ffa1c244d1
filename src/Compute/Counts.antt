-- ===== src/Compute/Counts.antt =====
-- compute/aggregators.go: GroupAcc, CountAcc and LastAcc, which do not look at the values they count.
use promql_engine.Prelude.{
  ℕ, Bool, true, false, List, [], length, Option, none, some, if◌then◌else◌, Error,
}
use promql_engine.Compute.Float64.{Float64}
use promql_engine.Compute.Accumulator.{ValueType, no_value, single_type_value, Accumulator}

-- GroupAcc and CountAcc have the same fields.
pub record CountAcc (F : Type 0) : Type 0 where
  pub count : F
  pub has_value : Bool

pub record LastAcc (F H : Type 0) : Type 0 where
  pub last : F
  pub hist : Option H
  pub has_value : Bool

unfoldable pub type_of_value : Bool → ValueType
type_of_value has_value = if has_value then single_type_value else no_value

module _ {F : Type 0} (fl : Float64 F) where
  unfoldable pub new_count : CountAcc F
  new_count = record { count = fl.zero_f; has_value = false }

  unfoldable pub reset_count : F → CountAcc F → CountAcc F
  reset_count arg c = record { count = fl.zero_f; has_value = false }

module _ {F H : Type 0} (fl : Float64 F) (of_nat : ℕ → F) where
  unfoldable pub add_count : F → Option H → CountAcc F → CountAcc F × Option Error
  add_count v h c = (record { count = fl.plus c.count fl.one_f; has_value = true }, none)

  unfoldable pub add_count_vector : List F → List H → CountAcc F → CountAcc F × Option Error
  add_count_vector [] [] c = (c, none)
  add_count_vector vs hs c = (
    record {
      count = fl.plus c.count (fl.plus (of_nat (length vs)) (of_nat (length hs)));
      has_value = true;
    },
    none,
  )

  unfoldable pub count_value : CountAcc F → F × Option H
  count_value c = (c.count, none)

  unfoldable pub count_accumulator : Accumulator F H (CountAcc F)
  count_accumulator = record {
    add = add_count;
    value = count_value;
    value_type = λ c. type_of_value c.has_value;
    warnings = λ c. 0;
    reset = reset_count fl;
  }

  unfoldable pub add_group : F → Option H → CountAcc F → CountAcc F × Option Error
  add_group v h c = (record { count = fl.one_f; has_value = true }, none)

  unfoldable pub add_group_vector : List F → List H → CountAcc F → CountAcc F × Option Error
  add_group_vector [] [] c = (c, none)
  add_group_vector vs hs c = (record { count = fl.one_f; has_value = true }, none)

  unfoldable pub group_accumulator : Accumulator F H (CountAcc F)
  group_accumulator = record {
    add = add_group;
    value = count_value;
    value_type = λ c. type_of_value c.has_value;
    warnings = λ c. 0;
    reset = reset_count fl;
  }

  unfoldable pub new_last : LastAcc F H
  new_last = record { last = fl.zero_f; hist = none; has_value = false }

  unfoldable pub add_last : F → Option H → LastAcc F H → LastAcc F H × Option Error
  add_last v none l = (record { last = v; hist = none; has_value = true }, none)
  add_last v (some h) l = (record { last = fl.zero_f; hist = some h; has_value = true }, none)

  unfoldable pub last_value : LastAcc F H → F × Option H
  last_value l = elim l.hist [ none ↦ (l.last, none) | some h ↦ (fl.zero_f, some h) ]

  unfoldable pub reset_last : F → LastAcc F H → LastAcc F H
  reset_last arg l = record { last = fl.zero_f; hist = none; has_value = false }

  unfoldable pub last_accumulator : Accumulator F H (LastAcc F H)
  last_accumulator = record {
    add = add_last;
    value = last_value;
    value_type = λ l. type_of_value l.has_value;
    warnings = λ l. 0;
    reset = reset_last;
  }
