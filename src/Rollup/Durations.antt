-- ===== src/Rollup/Durations.antt =====
-- What the durations of `aggregateBool` in pkg/consumer/data/rollup.go add up to.
use harns.Prelude.{
  ℕ, ◌+◌, ◌-◌, ◌/◌, ◌≤◌, ◌≡◌, refl, sym, ap, ◌∙◌, arith, Bool, true, false, not, Bool-cases, inl,
  inr, some, List, [], ◌∷◌, if◌then◌else◌, ◌==◌,
}
use harns.Prelude.Int.{ℤ, pos, diff, diff_pos, quot, ◌+ℤ◌}
use harns.Rollup.{RollupBoolItem}
use harns.Rollup.Booleans.{
  Sample, Scan, same, update, change, count, scan, start_scan, last_of, finished, item_of,
  aggregate_samples,
}

-- The time that the value `v` lasts from `t` to `end`, where the value is `cur` until the first
-- sample and then that of the sample before.
unfoldable pub spent : Bool → ℕ → Bool → List Sample → ℕ → ℕ
spent v t cur [] end = if same cur v then end - t else 0
spent v t cur (f ∷ fs) end = (if same cur v then f.time - t else 0) + spent v f.time f.value fs end

-- The samples are in the order of their times, between `t` and `end`.
abbrev pub InOrder : ℕ → List Sample → ℕ → Type 0
InOrder t [] end = t ≤ end
InOrder t (f ∷ fs) end = (t ≤ f.time) × InOrder f.time fs end

-- How many samples have the value `v`.
unfoldable pub occurrences : Bool → List Sample → ℕ
occurrences v [] = 0
occurrences v (f ∷ fs) = (if same f.value v then 1 else 0) + occurrences v fs

abbrev last_from : Bool → List Sample → Bool
last_from b [] = b
last_from b (f ∷ fs) = last_from f.value fs

last_from-last_of : (f : Sample) (fs : List Sample) → last_from f.value fs ≡ last_of f fs
last_from-last_of f [] = refl
last_from-last_of f (g ∷ gs) = last_from-last_of g gs

same_eq : (a b : Bool) → same a b ≡ true → a ≡ b
same_eq true true h = refl
same_eq true false h = ground arith
same_eq false true h = ground arith
same_eq false false h = refl

not_eq : (a b : Bool) → same a b ≡ false → not a ≡ b
not_eq true true h = ground arith
not_eq true false h = refl
not_eq false true h = refl
not_eq false false h = ground arith

same_self : (a : Bool) → same a a ≡ true
same_self true = refl
same_self false = refl

-- What the scan has added up for `v` at the time `t`.
abbrev at_time : Scan → (Bool → ℕ) → ℕ → Bool → ℕ
at_time s d t v = d v + (if same s.sentry v then t - s.firsts s.sentry else 0)

finished-sentry :
    (s : Scan) (end : ℕ) (d : Bool → ℕ) (v : Bool)
    → ((b : Bool) → s.durations b ≡ pos (d b))
    → s.firsts s.sentry ≤ end
    → finished s s.sentry end v ≡ pos (at_time s d end v)
finished-sentry s end d v h le =
    let e = diff_pos end (s.firsts s.sentry) le in
    elim (Bool-cases (same s.sentry v)) [
      | inl q ↦
          rw (q, h, e) (ap (λ b. pos (d b + (end - s.firsts s.sentry))) (same_eq s.sentry v q))
      | inr q ↦ rw (q, h) (ap pos (omega arith))
    ]

change_kept : (s : Scan) (f : Sample) → same f.value s.sentry ≡ true → change s f ≡ s
change_kept s f h = rw h

-- The maps after a change of the value.
abbrev changed : Scan → Sample → Scan
changed s f = record s {
  firsts = update s.firsts f.value f.time;
  durations =
      update s.durations (not f.value)
        (s.durations (not f.value) +ℤ diff f.time (s.firsts (not f.value)));
  sentry = f.value;
}

change_moved : (s : Scan) (f : Sample) → same f.value s.sentry ≡ false → change s f ≡ changed s f
change_moved s f h = rw h

abbrev added : Scan → (Bool → ℕ) → Sample → Bool → ℕ
added s d f = update d (not f.value) (d (not f.value) + (f.time - s.firsts (not f.value)))

changed-durations :
    (s : Scan) (f : Sample) (d : Bool → ℕ) (b : Bool)
    → ((c : Bool) → s.durations c ≡ pos (d c))
    → s.firsts (not f.value) ≤ f.time
    → (changed s f).durations b ≡ pos (added s d f b)
changed-durations s f d b h le =
    let e = diff_pos f.time (s.firsts (not f.value)) le in
    elim (Bool-cases (same (not f.value) b)) [
      | inl q ↦ rw (q, h (not f.value), e) refl
      | inr q ↦ rw q (h b)
    ]

-- Adding up at a change is the same as adding up at every sample.
added-at_time :
    (s : Scan) (f : Sample) (d : Bool → ℕ) (t : ℕ) (v : Bool)
    → not f.value ≡ s.sentry
    → s.firsts s.sentry ≤ t
    → t ≤ f.time
    → at_time (changed s f) (added s d f) f.time v
      ≡ at_time s d t v + (if same s.sentry v then f.time - t else 0)
added-at_time s f d t v e le le' = elim (Bool-cases (same s.sentry v)) [
  | inl q ↦
      let same_v : v ≡ s.sentry = sym (same_eq s.sentry v q) in
      let moved : d v ≡ d s.sentry = ap d same_v in
      rw (same_self, e, q) (ground (arith, moved, le, le'))
  | inr q ↦ rw (same_self, e, q) (ground arith)
]

scan-durations :
    (s : Scan) (fs : List Sample) (t end : ℕ) (d : Bool → ℕ) (v cur : Bool)
    → cur ≡ s.sentry
    → ((b : Bool) → s.durations b ≡ pos (d b))
    → s.firsts s.sentry ≤ t
    → InOrder t fs end
    → finished (scan s fs) (last_from cur fs) end v ≡ pos (at_time s d t v + spent v t cur fs end)
unfolding scan spent
scan-durations s [] t end d v cur c h le ord =
    rw c (finished-sentry s end d v h (omega (arith, le, ord)) ∙ ap pos (ground (arith, le, ord)))
scan-durations s (f ∷ fs) t end d v cur c h le ord = elim (Bool-cases (same f.value s.sentry)) [
  | inl q ↦
      let e : f.value ≡ s.sentry = same_eq f.value s.sentry q in
      let step : scan s (f ∷ fs) ≡ scan (count s f) fs =
        ap (λ s'. scan (count s' f) fs) (change_kept s f q) in
      let ih =
        scan-durations (count s f) fs f.time end d v f.value e h (omega (arith, le, ord.0)) ord.1 in
      ap (λ s'. finished s' (last_from f.value fs) end v) step
      ∙ ih
      ∙ ap pos (rw c (ground (arith, le, ord.0)))
  | inr q ↦
      let e : not f.value ≡ s.sentry = not_eq f.value s.sentry q in
      let step : scan s (f ∷ fs) ≡ scan (count (changed s f) f) fs =
        ap (λ s'. scan (count s' f) fs) (change_moved s f q) in
      let early : s.firsts (not f.value) ≤ f.time = rw e (omega (arith, le, ord.0)) in
      let ih =
        scan-durations (count (changed s f) f) fs f.time end (added s d f) v f.value refl
          (λ b. changed-durations s f d b h early) (rw same_self (omega arith)) ord.1 in
      ap (λ s'. finished s' (last_from f.value fs) end v) step
      ∙ ih
      ∙ ap pos (rw c (omega (arith, added-at_time s f d t v e le ord.0)))
]

count_same :
    (n : Bool → ℕ) (a v : Bool) (m : ℕ)
    → (if same a v then n a + 1 else n v) + m ≡ n v + ((if same a v then 1 else 0) + m)
count_same n true true m = omega arith
count_same n true false m = omega arith
count_same n false true m = omega arith
count_same n false false m = omega arith

cnts-scan :
    (s : Scan) (fs : List Sample) (v : Bool) → (scan s fs).cnts v ≡ s.cnts v + occurrences v fs
unfolding scan occurrences
cnts-scan s [] v = omega arith
cnts-scan s (f ∷ fs) v =
    let kept : (change s f).cnts ≡ s.cnts = ground arith in
    cnts-scan (count (change s f) f) fs v ∙ rw kept (count_same s.cnts f.value v (occurrences v fs))

spent_none :
    (v cur : Bool) (t : ℕ) (fs : List Sample) (end : ℕ)
    → same cur v ≡ false
    → occurrences v fs ≡ 0
    → spent v t cur fs end ≡ 0
unfolding spent occurrences
spent_none v cur t [] end h o = rw h refl
spent_none v cur t (f ∷ fs) end h o = elim (Bool-cases (same f.value v)) [
  | inl q ↦ ground (arith)
  | inr q ↦ rw h (ground (arith, spent_none v f.value f.time fs end q))
]

InOrder-le : (t : ℕ) (fs : List Sample) (end : ℕ) → InOrder t fs end → t ≤ end
InOrder-le t [] end o = o
InOrder-le t (f ∷ fs) end o = omega (arith, o.0, InOrder-le f.time fs end o.1)

-- The two values last the whole time.
spent_both :
    (t : ℕ) (cur : Bool) (fs : List Sample) (end : ℕ)
    → InOrder t fs end
    → spent true t cur fs end + spent false t cur fs end ≡ end - t
unfolding spent
spent_both t true [] end o = ground arith
spent_both t false [] end o = ground arith
spent_both t true (f ∷ fs) end o =
    ground (arith, spent_both f.time f.value fs end o.1, o.0, InOrder-le f.time fs end o.1)
spent_both t false (f ∷ fs) end o =
    ground (arith, spent_both f.time f.value fs end o.1, o.0, InOrder-le f.time fs end o.1)

true_choice :
    (ct cf a b whole : ℕ) (x : ℤ)
    → x ≡ pos (a / 1000000)
    → (ct ≡ 0 → a ≡ 0)
    → (cf ≡ 0 → b ≡ 0)
    → a + b ≡ whole
    → (if ct == 0 then pos 0 else if cf == 0 then pos (whole / 1000000) else x) ≡ pos (a / 1000000)
true_choice ct cf a b whole x e h h' sum = ground (arith, e, h, h', sum)

false_choice :
    (ct cf a b whole : ℕ) (x : ℤ)
    → x ≡ pos (b / 1000000)
    → (ct ≡ 0 → a ≡ 0)
    → (cf ≡ 0 → b ≡ 0)
    → a + b ≡ whole
    → (if ct == 0 then pos (whole / 1000000) else if cf == 0 then pos 0 else x) ≡ pos (b / 1000000)
false_choice ct cf a b whole x e h h' sum = ground (arith, e, h, h', sum)

module _ (f : Sample) (fs : List Sample) (start end : ℕ) (o : InOrder start (f ∷ fs) end) where
  abbrev scanned : Scan
  scanned = scan (start_scan f start) (f ∷ fs)

  start_durations :
      (b : Bool)
      → (start_scan f start).durations b ≡ pos (update (λ c. 0) f.value (f.time - start) b)
  start_durations b = elim (Bool-cases (same f.value b)) [
    | inl q ↦ rw q (diff_pos f.time start o.0)
    | inr q ↦ rw q refl
  ]

  finished-spent :
      (v : Bool) → finished scanned (last_of f fs) end v ≡ pos (spent v start f.value (f ∷ fs) end)
  unfolding spent
  finished-spent v = rw (← last_from-last_of f fs) (
      scan-durations (start_scan f start) (f ∷ fs) f.time end
        (update (λ c. 0) f.value (f.time - start)) v f.value refl start_durations
        (rw same_self (omega arith)) (omega arith, o.1)
      ∙ ap pos (rw same_self (ground arith)))

  spent_unseen : (v : Bool) → occurrences v (f ∷ fs) ≡ 0 → spent v start f.value (f ∷ fs) end ≡ 0
  unfolding occurrences
  spent_unseen v h = spent_none v f.value start (f ∷ fs) end (ground arith) h

  cnts-scanned : (v : Bool) → scanned.cnts v ≡ occurrences v (f ∷ fs)
  cnts-scanned v = cnts-scan (start_scan f start) (f ∷ fs) v ∙ omega arith

-- On at least one sample, with the samples in order within the block, `aggregateBool` returns an
-- item that counts the samples of each value and whose two durations are, in milliseconds rounded
-- down, how long each value lasted: each sample lasts until the next one, the first one also from
-- the start and the last one until the end.
pub aggregate_samples_lem :
    (f : Sample) (fs : List Sample) (start end : ℕ)
    → InOrder start (f ∷ fs) end
    → (r : RollupBoolItem) × (aggregate_samples (f ∷ fs) start end ≡ some r)
      × (r.true_cnt ≡ occurrences true (f ∷ fs))
      × (r.false_cnt ≡ occurrences false (f ∷ fs))
      × (r.true_duration ≡ pos (spent true start f.value (f ∷ fs) end / 1000000))
      × (r.false_duration ≡ pos (spent false start f.value (f ∷ fs) end / 1000000))
unfolding aggregate_samples item_of quot
aggregate_samples_lem f fs start end o =
    let whole = diff_pos end start (InOrder-le start (f ∷ fs) end o) in
    let both = spent_both start f.value (f ∷ fs) end o in
    (
      item_of (scan (start_scan f start) (f ∷ fs)) (last_of f fs) start end,
      refl,
      cnts-scanned f fs start end o true,
      cnts-scanned f fs start end o false,
      rw (cnts-scanned f fs start end o true, cnts-scanned f fs start end o false, whole)
          (true_choice (occurrences true (f ∷ fs)) (occurrences false (f ∷ fs)) _
            (spent false start f.value (f ∷ fs) end) (end - start) _
            (rw (finished-spent f fs start end o true) refl) (spent_unseen f fs start end o true)
            (spent_unseen f fs start end o false) both),
      rw (cnts-scanned f fs start end o true, cnts-scanned f fs start end o false, whole)
          (false_choice (occurrences true (f ∷ fs)) (occurrences false (f ∷ fs))
            (spent true start f.value (f ∷ fs) end) _ (end - start) _
            (rw (finished-spent f fs start end o false) refl) (spent_unseen f fs start end o true)
            (spent_unseen f fs start end o false) both),
    )
