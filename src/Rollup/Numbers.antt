-- ===== src/Rollup/Numbers.antt =====
-- `aggregateNumeric`, `rollupNumeric` and `toFloat64` of pkg/consumer/data/rollup.go.
use harns.Prelude.{ℕ, ◌+◌, Bool, Option, none, some, List, [], ◌∷◌, if◌then◌else◌, length, get_or}
use harns.Prelude.Int.{ℤ, pos}
use harns.Prelude.Outcome.{Outcome, ok, panic, ◌>>=◌}
use harns.Rollup.{Value, truth, float64, int64, int, text, Field}

-- The operations of float64 that the code uses; `square` is `math.Pow(x, 2)`.
pub record Floats (F : Type 0) : Type 0 where
  pub zero_float : F
  pub lt : F → F → Bool
  pub add : F → F → F
  pub sub : F → F → F
  pub mul : F → F → F
  pub div : F → F → F
  pub square : F → F
  pub sqrt : F → F
  pub of_int : ℤ → F

pub record RollupNumericItem (F : Type 0) : Type 0 where
  pub first_time : ℕ
  pub first_value : Value F
  pub last_time : ℕ
  pub last_value : Value F
  pub min_time : ℕ
  pub min_value : Value F
  pub max_time : ℕ
  pub max_value : Value F
  pub avg : F
  pub sum : F
  pub sd : F
  pub good_cnt : ℕ
  pub bad_cnt : ℕ
  pub uncertain_cnt : ℕ

-- The variables of the loops over the values.
pub record Extremes (F : Type 0) : Type 0 where
  pub least : F
  pub least_index : ℕ
  pub greatest : F
  pub greatest_index : ℕ
  pub total : F

abbrev pub last_or {ℓ} : {A : Type ℓ} → A → List A → A
last_or a [] = a
last_or a (b ∷ bs) = last_or b bs

module _ {F : Type 0} (fl : Floats F) where
  unfoldable pub to_float64 : Value F → F
  to_float64 (float64 x) = x
  to_float64 (int64 n) = fl.of_int n
  to_float64 (int n) = fl.of_int n
  to_float64 (truth b) = fl.zero_float
  to_float64 text = fl.zero_float

  -- The loop, from index `i` on; `low`, `high` and `part` are what it reads of an entry.
  unfoldable pub extremes :
      {A : Type 0} → (A → F) → (A → F) → (A → F) → Extremes F → ℕ → List A → Extremes F
  extremes low high part s i [] = s
  extremes low high part s i (x ∷ xs) =
      let below = fl.lt (low x) s.least in
      let above = fl.lt s.greatest (high x) in
      extremes low high part
        (record {
          least = if below then low x else s.least;
          least_index = if below then i else s.least_index;
          greatest = if above then high x else s.greatest;
          greatest_index = if above then i else s.greatest_index;
          total = fl.add s.total (part x);
        })
        (i + 1) xs

  abbrev pub start_extremes : {A : Type 0} → (A → F) → (A → F) → A → Extremes F
  start_extremes low high x = record {
    least = low x;
    least_index = 0;
    greatest = high x;
    greatest_index = 0;
    total = fl.zero_float;
  }

  abbrev pub number : Field F → F
  number f = to_float64 f.value

  -- The sum of the squares of the distances from the mean.
  unfoldable pub sum_squares : F → F → List (Field F) → F
  sum_squares mean sq [] = sq
  sum_squares mean sq (f ∷ fs) =
      sum_squares mean (fl.add sq (fl.square (fl.sub (number f) mean))) fs

  -- `aggregateNumeric` on at least one field.
  unfoldable pub aggregate_fields : Field F → List (Field F) → RollupNumericItem F
  unfolding to_float64 extremes sum_squares
  aggregate_fields d ds =
      let data_ = d ∷ ds in
      let cnt = length data_ in
      let last = last_or d ds in
      let e = extremes number number number (start_extremes number number d) 0 data_ in
      let least = get_or data_ e.least_index d in
      let greatest = get_or data_ e.greatest_index d in
      let avg = fl.div e.total (fl.of_int (pos cnt)) in
      record {
        first_time = d.time;
        first_value = d.value;
        last_time = last.time;
        last_value = last.value;
        min_time = least.time;
        min_value = least.value;
        max_time = greatest.time;
        max_value = greatest.value;
        avg = avg;
        sum = e.total;
        sd = fl.sqrt (fl.div (sum_squares avg fl.zero_float data_) (fl.of_int (pos cnt)));
        good_cnt = cnt;
        bad_cnt = 0;
        uncertain_cnt = 0;
      }

  -- `aggregateNumeric`; `none` is nil.
  unfoldable pub aggregate_numeric : List (Field F) → Option (RollupNumericItem F)
  aggregate_numeric [] = none
  aggregate_numeric (d ∷ ds) = some (aggregate_fields d ds)

  abbrev pub cnt_of : RollupNumericItem F → ℕ
  cnt_of f = f.good_cnt + f.bad_cnt + f.uncertain_cnt

  -- The sums of the three counters.
  unfoldable pub sum_cnts : (RollupNumericItem F → ℕ) → List (RollupNumericItem F) → ℕ
  sum_cnts cnt [] = 0
  sum_cnts cnt (f ∷ fs) = cnt f + sum_cnts cnt fs

  unfoldable pub pooled_squares : F → F → List (RollupNumericItem F) → F
  pooled_squares mean sq [] = sq
  pooled_squares mean sq (f ∷ fs) =
      pooled_squares mean
        (fl.add sq (
          fl.mul (fl.of_int (pos (cnt_of f)))
            (fl.add (fl.square f.sd) (fl.square (fl.sub f.avg mean)))))
        fs

  abbrev pub low_of : RollupNumericItem F → F
  low_of f = to_float64 f.min_value

  abbrev pub high_of : RollupNumericItem F → F
  high_of f = to_float64 f.max_value

  -- `rollupNumeric` on at least one item.
  unfoldable pub rollup_items :
      RollupNumericItem F → List (RollupNumericItem F) → RollupNumericItem F
  unfolding to_float64 extremes sum_cnts pooled_squares
  rollup_items d ds =
      let items = d ∷ ds in
      let last = last_or d ds in
      let e = extremes low_of high_of (λ f. f.sum) (start_extremes low_of high_of d) 0 items in
      let least = get_or items e.least_index d in
      let greatest = get_or items e.greatest_index d in
      let good = sum_cnts (λ f. f.good_cnt) items in
      let bad = sum_cnts (λ f. f.bad_cnt) items in
      let uncertain = sum_cnts (λ f. f.uncertain_cnt) items in
      let all = fl.of_int (pos (good + bad + uncertain)) in
      let avg = fl.div e.total all in
      record {
        first_time = d.first_time;
        first_value = d.first_value;
        last_time = last.last_time;
        last_value = last.last_value;
        min_time = least.min_time;
        min_value = least.min_value;
        max_time = greatest.max_time;
        max_value = greatest.max_value;
        avg = avg;
        sum = e.total;
        sd = fl.sqrt (fl.div (pooled_squares avg fl.zero_float items) all);
        good_cnt = good;
        bad_cnt = bad;
        uncertain_cnt = uncertain;
      }

  -- The items of the columns; one that cannot be read stays nil, and the function panics on it.
  unfoldable pub items_of :
      List (Option (RollupNumericItem F)) → Outcome (List (RollupNumericItem F))
  items_of [] = ok []
  items_of (none ∷ os) = panic
  items_of (some x ∷ os) = do xs ← items_of os; ok (x ∷ xs)

  abbrev pub rollup_or_nil : List (RollupNumericItem F) → Option (RollupNumericItem F)
  rollup_or_nil [] = none
  rollup_or_nil (x ∷ xs) = some (rollup_items x xs)

  -- `rollupNumeric`, on what `json.Unmarshal` gives for the columns.
  unfoldable pub rollup_numeric :
      List (Option (RollupNumericItem F)) → Outcome (Option (RollupNumericItem F))
  unfolding items_of rollup_items
  rollup_numeric columns = do items ← items_of columns; ok (rollup_or_nil items)
