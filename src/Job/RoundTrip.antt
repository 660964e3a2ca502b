-- ===== src/Job/RoundTrip.antt =====
-- pkg/consumer/job/job.go: `Of` reads what `String` writes.
use harns.Prelude.{
  ℕ, ◌^◌, ◌<◌, ◌≡◌, ◌≢◌, ◌↔◌, ◌⊎◌, Option, none, refl, ap, List, [], ◌∷◌, ◌++◌, some, arith, length,
  length-append, take, drop, ltb, false, take-append_self, lt-or-le, lt→ltb, Option-cases, inl, inr,
  length-drop, length-take, drop-append_self,
}
use mathlib.Core.List.{append_assoc}
use harns.Prelude.Int.{ℤ, pos}
use harns.Prelude.Decimal.{print_padded, parse_int, length-pad, parse_int-print_padded}
use harns.Prelude.Outcome.{ok, panic, bind-ne-panic}
use harns.Job.{OperationType, TimeBlockUnit, Job, rollup, operation_to_string, unit_to_string}
use harns.Job.Text.{
  operation_from_string, unit_from_string, block_string, split_last, block_of, job_string, job_of,
  slice_to, block_rest,
}

operation_from-to_string :
    (op : OperationType) → operation_from_string (operation_to_string op) ≡ some op
unfolding operation_from_string
operation_from-to_string OperationType.time_series_rollup = refl
operation_from-to_string _ = refl

unit_from-to_string : (u : TimeBlockUnit) → unit_from_string (unit_to_string u) ≡ some u
unfolding unit_from_string
unit_from-to_string TimeBlockUnit.second = refl
unit_from-to_string _ = refl

split_last-snoc : (s : List ℕ) (c : ℕ) → split_last (s ++ c ∷ []) ≡ ok (s, c)
unfolding split_last
split_last-snoc [] c = refl
split_last-snoc (x ∷ []) c = refl
split_last-snoc (x ∷ y ∷ s) c = rw (split_last-snoc (y ∷ s) c)

length-print_padded : (n : ℕ) → n < 10 ^ 10 → length (print_padded 10 (pos n)) ≡ 10
unfolding print_padded
length-print_padded n h = length-pad 9 n h

-- A time block whose index has at most ten digits is read back.
pub block_of-block_string :
    (n : ℕ) (u : TimeBlockUnit)
    → n < 10 ^ 10
    → block_of (block_string (record { index = pos n; unit = u }))
      ≡ ok (record { index = pos n; unit = u })
unfolding block_of block_string
block_of-block_string n u h = rw (
  split_last-snoc (print_padded 10 (pos n)) (unit_to_string u),
  parse_int-print_padded 9 n h (omega arith),
  unit_from-to_string u,
)

length-operation : (op : OperationType) → length (operation_to_string op) ≡ 3
length-operation OperationType.time_series_rollup = refl
length-operation _ = refl

length-block_string :
    (n : ℕ) (u : TimeBlockUnit)
    → n < 10 ^ 10
    → length (block_string (record { index = pos n; unit = u })) ≡ 11
unfolding block_string
length-block_string n u h = rw length-append (omega (arith, length-print_padded n h))

slice_to-append : (n : ℕ) (xs ys : List ℕ) → length xs ≡ n → slice_to n (xs ++ ys) ≡ ok xs
slice_to-append n xs ys h =
    let long : ltb (length (xs ++ ys)) n ≡ false = ground (arith, length-append xs ys) in
    rw (long, take-append_self n xs ys h)

-- What `Of` reads from a text in its three parts.
job_of-parts :
    (op : OperationType) (n : ℕ) (u : TimeBlockUnit) (key : List ℕ)
    → n < 10 ^ 10
    → job_of (operation_to_string op ++ block_string (record { index = pos n; unit = u }) ++ key)
      ≡ ok (record {
        group = rollup;
        proc_time_sec = 0;
        consumer_id = 0;
        operation = op;
        time_block = record { index = pos n; unit = u };
        key = key;
      })
unfolding job_of
job_of-parts op n u key h =
    let code = operation_to_string op in
    let block = block_string (record { index = pos n; unit = u }) in
    let len : length (code ++ block) ≡ 14 =
      rw length-append (omega (arith, length-operation op, length-block_string n u h)) in
    let first : slice_to 3 (code ++ block ++ key) ≡ ok code =
      rw append_assoc (slice_to-append 3 code (block ++ key) (length-operation op)) in
    rw (
      first,
      operation_from-to_string op,
      slice_to-append 14 (code ++ block) key len,
      drop-append_self 3 code block (length-operation op),
      block_of-block_string n u h,
      drop-append_self 14 (code ++ block) key len,
    )

-- `Of` reads back the operation, the time block and the key of every job whose block index is not
-- negative and has at most ten digits; the other fields get their zero values.
pub job_of-job_string :
    (j : Job) (n : ℕ)
    → j.time_block.index ≡ pos n
    → n < 10 ^ 10
    → job_of (job_string j) ≡ ok (record j { group = rollup; proc_time_sec = 0; consumer_id = 0 })
unfolding job_string
job_of-job_string j n e h =
    let block : j.time_block ≡ record { index = pos n; unit = j.time_block.unit } =
      ap (λ (i : ℤ). record { index = i; unit = j.time_block.unit }) e in
    rw block (job_of-parts j.operation n j.time_block.unit j.key h)

split_last_ok : (s : List ℕ) → 0 < length s → (r : List ℕ × ℕ) × (split_last s ≡ ok r)
unfolding split_last
split_last_ok [] h = elim h [ ]
split_last_ok (c ∷ []) h = (([], c), refl)
split_last_ok (c ∷ d ∷ cs) h =
    let (r, e) = split_last_ok (d ∷ cs) (omega arith) in ((c ∷ r.0, r.1), rw e)

block_rest-ne-panic : (o : Option ℤ) (u : Option TimeBlockUnit) → block_rest o u ≢ panic
unfolding block_rest
block_rest-ne-panic none u = ground arith
block_rest-ne-panic (some i) none = ground arith
block_rest-ne-panic (some i) (some u) = ground arith

block_of-ne-panic : (s : List ℕ) → 0 < length s → block_of s ≢ panic
unfolding block_of
block_of-ne-panic s h =
    let (r, e) = split_last_ok s h in
    rw e (block_rest-ne-panic (parse_int r.0) (unit_from_string r.1))

-- `Of` panics on the texts below three bytes, and on those below fourteen that begin with the code of
-- an operation, and on no others.
pub job_of-panic_iff :
    (s : List ℕ)
    → (job_of s ≡ panic)
      ↔ ((length s < 3) ⊎ ((length s < 14) × (operation_from_string (take 3 s) ≢ none)))
unfolding job_of
job_of-panic_iff s = elim (lt-or-le (length s) 3) [
  | inl short ↦ rw (lt→ltb _ _ short) (λ e. inl short, λ e. refl)
  | inr long ↦
      let three : ltb (length s) 3 ≡ false = ground arith in
      elim (Option-cases (operation_from_string (take 3 s))) [
        | inl e ↦ rw (three, e) (λ h. cc, λ h. ground (arith, e))
        | inr (op, e) ↦ elim (lt-or-le (length s) 14) [
          | inl short ↦ rw (three, e, lt→ltb _ _ short) (λ h. inr (short, λ q. cc), λ h. refl)
          | inr longer ↦
              let fourteen : ltb (length s) 14 ≡ false = ground arith in
              let whole : 0 < length (drop 3 (take 14 s)) =
                rw (length-drop, length-take) (omega arith) in
              rw (three, e, fourteen)
                (
                  λ h. absurd (
                      bind-ne-panic (block_of (drop 3 (take 14 s))) _ (block_of-ne-panic _ whole)
                        (λ tb. ground arith) h),
                  λ h. ground arith,
                )
        ]
      ]
]
