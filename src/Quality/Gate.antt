-- ===== src/Quality/Gate.antt =====
-- What the quality report counts and when its gate passes (src/quality.py).
use shelf_life_copilot.Prelude.{
  ◌&&◌, not, same_ok, ℕ, ◌+◌, ◌≤◌, ◌<◌, String, ◌≡◌, ◌↔◌, refl, sym, ◌∙◌, ap, inl, inr, Bool, true,
  false, Option, none, some, is_some, List, [], ◌∷◌, ◌++◌, map, DateTime, Result, ok, >>=-eq-ok,
  guard-eq-ok, value_error, arith, ltb, length, length-append, Bool-cases, Option-cases,
}
use shelf_life_copilot.Prelude.Table.{All, count_where}
use shelf_life_copilot.Prelude.Int.{ℤ}
use shelf_life_copilot.Prelude.Sorting.{sort_by, filter, sum_of, sort_by-sum, sort_by-All}
use shelf_life_copilot.Models.Floats.{Floats}
use shelf_life_copilot.Models.Action.{Amount}
use shelf_life_copilot.Models.Decision.{Decision}
use shelf_life_copilot.Models.Suggestion.{Suggestion}
use shelf_life_copilot.Quality.{
  OutcomeObservation, Group, QualitySegment, OutcomeQualityReport, Observed, verified, observed_one,
  observe, same_group, add_to, grouped, sorts_before, segment, exceeds, few, exceeding, has_none,
  report, build_outcome_quality_report, is_negative, size_of,
}

-- the decisions of the customer that have actual savings
abbrev pub is_verified : String → Decision → Bool
is_verified customer d = is_some (verified customer d)

module _ (suggestion_for_batch : String → String → DateTime → Result (Option Suggestion))
    (customer : String) where
  observed_one-count :
      (d : Decision) (actual : Amount) (rest : Observed) (s : Option Suggestion)
      → length (observed_one d actual rest s).0 + (observed_one d actual rest s).1
        ≡ length rest.0 + rest.1 + 1
  observed_one-count d actual rest none = omega arith
  observed_one-count d actual rest (some s) = omega arith

  observe-count :
      (ds : List Decision) {seen : Observed}
      → observe suggestion_for_batch customer ds ≡ ok seen
      → length seen.0 + seen.1 ≡ count_where (is_verified customer) ds
  unfolding observe count_where
  observe-count [] {seen} h =
      ap (λ (x : Observed). length x.0 + x.1) (same_ok (sym h)) ∙ omega arith
  observe-count (d ∷ ds) {seen} h = elim (Option-cases (verified customer d)) [
    | inl e ↦ rw e (omega (arith, observe-count ds (rw (observe, e) at h)))
    | inr (actual, e) ↦
        (let (s, found, h2) =
            >>=-eq-ok (suggestion_for_batch customer d.batch_id d.decided_at) _
              (rw (observe, e) at h) in
          let (rest, more, h3) = >>=-eq-ok (observe suggestion_for_batch customer ds) _ h2 in
          let here : length seen.0 + seen.1 ≡ length rest.0 + rest.1 + 1 =
            ap (λ (x : Observed). length x.0 + x.1) (same_ok (sym h3))
            ∙ observed_one-count d actual rest s in
          rw e (omega (arith, here, observe-count ds more)))
  ]

abbrev size : Group → ℕ
size g = length g.values

add_to-size :
    (o : OutcomeObservation) (gs : List Group) → sum_of size (add_to o gs) ≡ sum_of size gs + 1
unfolding add_to sum_of
add_to-size o [] = omega arith
add_to-size o (g ∷ gs) = elim (Bool-cases (same_group o g)) [
  | inl e ↦ rw e (omega (arith, length-append g.values (o ∷ [])))
  | inr e ↦ rw e (omega (arith, add_to-size o gs))
]

add_to-All :
    (o : OutcomeObservation) (gs : List Group)
    → All (λ g. 0 < length g.values) gs
    → All (λ g. 0 < length g.values) (add_to o gs)
unfolding add_to
add_to-All o [] h = (omega arith, tt)
add_to-All o (g ∷ gs) h = elim (Bool-cases (same_group o g)) [
  | inl e ↦ rw e (omega (arith, length-append g.values (o ∷ [])), h.1)
  | inr e ↦ rw e (h.0, add_to-All o gs h.1)
]

grouped-size :
    (gs : List Group) (seen : List OutcomeObservation)
    → sum_of size (grouped gs seen) ≡ sum_of size gs + length seen
unfolding grouped
grouped-size gs [] = omega arith
grouped-size gs (o ∷ seen) = omega (arith, grouped-size (add_to o gs) seen, add_to-size o gs)

grouped-All :
    (gs : List Group) (seen : List OutcomeObservation)
    → All (λ g. 0 < length g.values) gs
    → All (λ g. 0 < length g.values) (grouped gs seen)
unfolding grouped
grouped-All gs [] h = h
grouped-All gs (o ∷ seen) h = grouped-All (add_to o gs) seen (add_to-All o gs h)

abbrev samples : QualitySegment → ℕ
samples s = s.sample_count

segments-size :
    (F : Floats) (unit : Amount) (gs : List Group)
    → sum_of samples (map (segment F unit) gs) ≡ sum_of size gs
unfolding sum_of segment
segments-size F unit [] = refl
segments-size F unit (g ∷ gs) = ap (λ n. length g.values + n) (segments-size F unit gs)

segments-All :
    (F : Floats) (unit : Amount) (gs : List Group)
    → All (λ g. 0 < length g.values) gs
    → All (λ s. 0 < s.sample_count) (map (segment F unit) gs)
unfolding segment
segments-All F unit [] h = tt
segments-All F unit (g ∷ gs) h = (h.0, segments-All F unit gs h.1)

none_selected :
    (p : QualitySegment → Bool) (xs : List QualitySegment)
    → filter p xs ≡ []
    → All (λ s. p s ≡ false) xs
unfolding filter
none_selected p [] h = tt
none_selected p (x ∷ xs) h = elim (Bool-cases (p x)) [
  | inl e ↦ absurd (cc (rw (filter, e) at h))
  | inr e ↦ (e, none_selected p xs (rw (filter, e) at h))
]

selects_none :
    (p : QualitySegment → Bool) (xs : List QualitySegment)
    → All (λ s. p s ≡ false) xs
    → filter p xs ≡ []
unfolding filter
selects_none p [] h = refl
selects_none p (x ∷ xs) h = rw (h.0) (selects_none p xs h.1)

no_reason :
    (n minimum : ℕ) (found : List QualitySegment)
    → (has_none (few n minimum ++ exceeding found) ≡ true) ↔ ((minimum ≤ n) × (found ≡ []))
no_reason n minimum [] = (λ h. (ground arith, refl), λ h. ground arith)
no_reason n minimum (s ∷ rest) = (λ h. absurd (ground arith), λ h. absurd (cc (h.1)))

-- What a report says.
pub record IsReport (minimum : ℕ) (limit : ℕ) (customer : String) (decisions : List Decision)
    (r : OutcomeQualityReport) : Type 0 where
  pub counted : r.verified_count + r.unmatched_count ≡ count_where (is_verified customer) decisions
  pub shared : sum_of samples r.segments ≡ r.verified_count
  pub no_empty : All (λ s. 0 < s.sample_count) r.segments
  pub gate :
      (r.gate_passed ≡ true)
      ↔ ((minimum ≤ r.verified_count) × All (λ s. exceeds limit s ≡ false) r.segments)

reported-IsReport :
    (F : Floats) (unit : Amount) (minimum : ℕ) (limit : ℕ) (customer : String)
    (decisions : List Decision) (seen : Observed)
    → length seen.0 + seen.1 ≡ count_where (is_verified customer) decisions
    → IsReport minimum limit customer decisions (report F unit customer minimum limit seen)
reported-IsReport F unit minimum limit customer decisions seen h =
    let groups = sort_by sorts_before (grouped [] seen.0) in
    let segments = map (segment F unit) groups in
    let (forth, back) = no_reason (length seen.0) minimum (filter (exceeds limit) segments) in
    record {
      counted = h;
      shared =
          segments-size F unit groups
          ∙ sort_by-sum size sorts_before (grouped [] seen.0)
          ∙ grouped-size [] seen.0
          ∙ unfold sum_of in omega arith;
      no_empty = segments-All F unit groups (
          sort_by-All (λ g. 0 < length g.values) sorts_before (grouped [] seen.0)
            (grouped-All [] seen.0 tt));
      gate = (
        λ passed. ((forth passed).0, none_selected (exceeds limit) segments ((forth passed).1)),
        λ good. back (good.0, selects_none (exceeds limit) segments good.1),
      );
    }

accepted : (a b : Bool) → (a && not b) ≡ true → b ≡ false
accepted a b h = ground arith

-- A report counts every decision of the customer with actual savings, as verified or as unmatched.
-- Its segments share the verified ones among them, and none of them is empty, so that every mean is
-- defined. The gate passes exactly when the verified ones reach the minimum and no segment's
-- normalized error exceeds the threshold, which is not negative when a report is returned.
pub build_outcome_quality_report-IsReport :
    (F : Floats) (unit : Amount)
    (suggestion_for_batch : String → String → DateTime → Result (Option Suggestion)) (minimum : ℕ)
    (limit : ℤ) (customer : String) (decisions : List Decision) {r : OutcomeQualityReport}
    → build_outcome_quality_report F unit suggestion_for_batch minimum limit customer decisions
      ≡ ok r
    → (is_negative limit ≡ false) × IsReport minimum (size_of limit) customer decisions r
unfolding build_outcome_quality_report
build_outcome_quality_report-IsReport F unit suggestion_for_batch minimum limit customer decisions
      h =
    let (positive, h2) = guard-eq-ok (ltb 0 minimum && not (is_negative limit)) value_error _ h in
    let (seen, found, h3) = >>=-eq-ok (observe suggestion_for_batch customer decisions) _ h2 in
    (
      accepted (ltb 0 minimum) (is_negative limit) positive,
      rw (← same_ok h3) (
          reported-IsReport F unit minimum (size_of limit) customer decisions seen
            (observe-count suggestion_for_batch customer decisions found)),
    )
