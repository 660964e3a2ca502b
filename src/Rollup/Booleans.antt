-- ===== src/Rollup/Booleans.antt =====
-- `aggregateBool` of pkg/consumer/data/rollup.go.
use harns.Prelude.{
  ℕ, ◌+◌, Bool, true, false, not, Option, none, some, List, [], ◌∷◌, ◌++◌, if◌then◌else◌, ◌==◌,
}
use harns.Prelude.Int.{ℤ, pos, diff, quot, ◌+ℤ◌}
use harns.Prelude.Outcome.{Outcome, ok, panic, ◌>>=◌}
use harns.Rollup.{truth, float64, int64, int, text, Field, RollupBoolItem}

-- A field whose value is asserted to be a `bool`.
pub record Sample : Type 0 where
  pub value : Bool
  pub time : ℕ

-- `f.value.(bool)` of every field; the function panics as a whole if one is not a `bool`.
unfoldable pub samples : {F : Type 0} → List (Field F) → Outcome (List Sample)
samples [] = ok []
samples (f ∷ fs) = do
  b ← elim f.value [
    | truth b ↦ ok b
    | float64 x ↦ panic
    | int64 n ↦ panic
    | int n ↦ panic
    | text ↦ panic
  ]
  rest ← samples fs
  ok (record { value = b; time = f.time } ∷ rest)

abbrev pub same : Bool → Bool → Bool
same true b = b
same false b = not b

-- An assignment to a Go map with `bool` keys.
abbrev pub update {ℓ} : {A : Type ℓ} → (Bool → A) → Bool → A → Bool → A
update f b a c = if same b c then a else f c

-- The maps of `aggregateBool`; `times` holds `trues` and `falses`.
pub record Scan : Type 0 where
  pub sentry : Bool
  pub firsts : Bool → ℕ
  pub durations : Bool → ℤ
  pub cnts : Bool → ℕ
  pub times : Bool → List ℕ

-- The first statement of the loop's body, on a change of the value.
abbrev pub change : Scan → Sample → Scan
change s f = if same f.value s.sentry then s else record s {
  firsts = update s.firsts f.value f.time;
  durations =
      update s.durations (not f.value)
        (s.durations (not f.value) +ℤ diff f.time (s.firsts (not f.value)));
  sentry = f.value;
}

abbrev pub count : Scan → Sample → Scan
count s f = record s {
  cnts = update s.cnts f.value (s.cnts f.value + 1);
  times = update s.times f.value (s.times f.value ++ f.time ∷ []);
}

unfoldable pub scan : Scan → List Sample → Scan
scan s [] = s
scan s (f ∷ fs) = scan (count (change s f) f) fs

abbrev pub start_scan : Sample → ℕ → Scan
start_scan f start = record {
  sentry = f.value;
  firsts = update (λ b. 0) f.value f.time;
  durations = update (λ b. pos 0) f.value (diff f.time start);
  cnts = λ b. 0;
  times = λ b. [];
}

abbrev pub head_time : List ℕ → Option ℕ
head_time [] = none
head_time (t ∷ ts) = some t

abbrev pub last_time : List ℕ → Option ℕ
last_time [] = none
last_time (t ∷ []) = some t
last_time (t ∷ u ∷ ts) = last_time (u ∷ ts)

abbrev pub last_of : Sample → List Sample → Bool
last_of f [] = f.value
last_of f (g ∷ gs) = last_of g gs

-- `Milliseconds()`
abbrev pub milliseconds : ℤ → ℤ
milliseconds d = quot d 1000000

-- `durations` after the loop, with the time up to the end.
abbrev pub finished : Scan → Bool → ℕ → Bool → ℤ
finished s last end = update s.durations last (s.durations last +ℤ diff end (s.firsts last))

-- The item that the scan gives.
unfoldable pub item_of : Scan → Bool → ℕ → ℕ → RollupBoolItem
item_of s last start end =
    let whole = milliseconds (diff end start) in
    let spent : Bool → ℤ = λ b. milliseconds (finished s last end b) in
    record {
      first_true_time = head_time (s.times true);
      first_false_time = head_time (s.times false);
      last_true_time = last_time (s.times true);
      last_false_time = last_time (s.times false);
      last_value = last;
      true_cnt = s.cnts true;
      true_duration =
          if s.cnts true == 0 then pos 0 else if s.cnts false == 0 then whole else spent true;
      false_cnt = s.cnts false;
      false_duration =
          if s.cnts true == 0 then whole else if s.cnts false == 0 then pos 0 else spent false;
    }

-- `aggregateBool` on the asserted values; `none` is nil.
unfoldable pub aggregate_samples : List Sample → ℕ → ℕ → Option RollupBoolItem
unfolding scan item_of
aggregate_samples [] start end = none
aggregate_samples (f ∷ fs) start end =
    some (item_of (scan (start_scan f start) (f ∷ fs)) (last_of f fs) start end)

unfoldable pub aggregate_bool :
    {F : Type 0} → List (Field F) → ℕ → ℕ → Outcome (Option RollupBoolItem)
unfolding samples aggregate_samples
aggregate_bool fields start end = do fs ← samples fields; ok (aggregate_samples fs start end)
