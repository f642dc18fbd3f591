-- ===== src/Persistence/RevisionStore/Rounds/Once.antt =====
-- A suggestion is revised once, and an operator has one open revision (src/persistence/revision_store.py).
use shelf_life_copilot.Prelude.{
  ℕ, ◌+◌, ◌≤◌, String, ◌≡◌, ◌∙◌, ap, inl, inr, Bool, true, false, ◌||◌, Option, none, some, List,
  [], ◌∷◌, DateTime, Result, ok, err, value_error, ◌==◌, arith, eq_refl, Bool-cases,
}
use shelf_life_copilot.Prelude.Table.{All, All-append, All-map, find, contains}
use shelf_life_copilot.Prelude.Distinct.{
  Distinct-append, All-contains-false, contains-append_true, contains-append_last,
}
use shelf_life_copilot.Persistence.RevisionStore.{
  RevisionSession, Sessions, awaits, revises, has_session_id, new_session, added, open_session,
  with_feedback, attach_to, attach_feedback, completed_session, complete, failed_session, fail,
}
use shelf_life_copilot.Persistence.RevisionStore.Rounds.{
  IsSound, sessions_conflict, both_pending, Call, opening, attaching, completing, failing, apply,
  run, Settles-feedback, Settles-completed, Settles-failed, update-IsSound, update-revises,
}

or_false : (a b : Bool) → (a || b) ≡ false → (a ≡ false) × (b ≡ false)
or_false a b h = (ground arith, ground arith)

new_free :
    (n : ℕ) (operator customer batch : String) (g : ℕ) (rows : List RevisionSession)
    → All (λ s. s.session_id ≤ n) rows
    → All (λ s. revises customer batch g s ≡ false) rows
    → All (λ s. sessions_conflict s (new_session (n + 1) operator customer batch g) ≡ false) rows
new_free n operator customer batch g [] a b = tt
new_free n operator customer batch g (s ∷ rows) a b =
    (ground arith, new_free n operator customer batch g rows a.1 b.1)

new_pending :
    (n : ℕ) (operator customer batch : String) (g : ℕ) (rows : List RevisionSession)
    → All (λ s. awaits operator s ≡ false) rows
    → All (λ s. both_pending s (new_session n operator customer batch g) ≡ false) rows
new_pending n operator customer batch g [] a = tt
new_pending n operator customer batch g (s ∷ rows) a =
    (ground arith, new_pending n operator customer batch g rows a.1)

added-IsSound :
    (operator customer batch : String) (g : ℕ) (t : Sessions)
    → IsSound t
    → contains (revises customer batch g) t.rows ≡ false
    → contains (awaits operator) t.rows ≡ false
    → IsSound (added t (new_session (t.last_id + 1) operator customer batch g))
added-IsSound operator customer batch g t s a b =
    let new = new_session (t.last_id + 1) operator customer batch g in
    record {
      keyed = Distinct-append sessions_conflict t.rows new s.keyed (
          new_free t.last_id operator customer batch g t.rows s.ids_bounded
            (All-contains-false (revises customer batch g) t.rows a));
      one_pending = Distinct-append both_pending t.rows new s.one_pending (
          new_pending (t.last_id + 1) operator customer batch g t.rows
            (All-contains-false (awaits operator) t.rows b));
      ids_bounded =
          All-append (λ z. z.session_id ≤ t.last_id + 1) t.rows (new ∷ [])
            (All-map (λ z. z.session_id ≤ t.last_id) (λ z. z.session_id ≤ t.last_id + 1)
              (λ z h. omega arith) t.rows s.ids_bounded)
            (omega arith, tt);
    }

open-IsSound :
    (operator customer batch : String) (generated : DateTime) (t : Sessions)
    → IsSound t
    → IsSound (open_session operator customer batch generated t).1
unfolding open_session
open-IsSound operator customer batch generated t s =
    elim (Bool-cases (
      contains (revises customer batch generated.instant) t.rows
      || contains (awaits operator) t.rows)) [
        | inl taken ↦ rw taken s
        | inr new ↦
            (let (a, b) =
                or_false (contains (revises customer batch generated.instant) t.rows)
                  (contains (awaits operator) t.rows) new in
              rw new (added-IsSound operator customer batch generated.instant t s a b))
      ]

attach_to-IsSound :
    (feedback event_id : String) (t : Sessions) (m : Option RevisionSession)
    → IsSound t
    → IsSound (attach_to feedback event_id t m).1
attach_to-IsSound feedback event_id t none s = s
attach_to-IsSound feedback event_id t (some z) s =
    update-IsSound (has_session_id z.session_id) (with_feedback feedback event_id)
      (Settles-feedback feedback event_id) t s

attach-IsSound :
    (strip : String → String) (operator feedback event_id : String) (t : Sessions)
    → IsSound t
    → IsSound (attach_feedback strip operator feedback event_id t).1
unfolding attach_feedback
attach-IsSound strip operator feedback event_id t s = elim (Bool-cases (strip feedback == "")) [
  | inl blank ↦ rw blank s
  | inr given ↦ rw given (attach_to-IsSound feedback event_id t (find (awaits operator) t.rows) s)
]

-- Every call keeps the constraints: unique ids, one session for a suggestion, and at most one pending
-- session for an operator.
pub apply-IsSound :
    (strip : String → String) (c : Call) (t : Sessions) → IsSound t → IsSound (apply strip c t)
unfolding apply complete fail
apply-IsSound strip (opening operator customer batch generated) t s =
    open-IsSound operator customer batch generated t s
apply-IsSound strip (attaching operator feedback event_id) t s =
    attach-IsSound strip operator feedback event_id t s
apply-IsSound strip (completing id revised) t s =
    update-IsSound (has_session_id id) (completed_session revised.instant)
      (Settles-completed revised.instant) t s
apply-IsSound strip (failing id) t s =
    update-IsSound (has_session_id id) failed_session Settles-failed t s

module _ (customer batch : String) (g : ℕ) where
  abbrev Revised : Sessions → Type 0
  Revised t = contains (revises customer batch g) t.rows ≡ true

  open-revises :
      (operator c2 b2 : String) (generated : DateTime) (t : Sessions)
      → Revised t
      → Revised (open_session operator c2 b2 generated t).1
  unfolding open_session
  open-revises operator c2 b2 generated t h =
      elim (Bool-cases
        (contains (revises c2 b2 generated.instant) t.rows || contains (awaits operator) t.rows)) [
          | inl taken ↦ rw taken h
          | inr new ↦ rw new (contains-append_true (revises customer batch g) t.rows _ h)
        ]

  attach_to-revises :
      (feedback event_id : String) (t : Sessions) (m : Option RevisionSession)
      → Revised t
      → Revised (attach_to feedback event_id t m).1
  attach_to-revises feedback event_id t none h = h
  attach_to-revises feedback event_id t (some z) h =
      update-revises (has_session_id z.session_id) (with_feedback feedback event_id)
        (Settles-feedback feedback event_id) customer batch g t.rows
      ∙ h

  attach-revises :
      (strip : String → String) (operator feedback event_id : String) (t : Sessions)
      → Revised t
      → Revised (attach_feedback strip operator feedback event_id t).1
  unfolding attach_feedback
  attach-revises strip operator feedback event_id t h = elim (Bool-cases (strip feedback == "")) [
    | inl blank ↦ rw blank h
    | inr given ↦ rw given (attach_to-revises feedback event_id t (find (awaits operator) t.rows) h)
  ]

  apply-revises :
      (strip : String → String) (c : Call) (t : Sessions) → Revised t → Revised (apply strip c t)
  unfolding apply complete fail
  apply-revises strip (opening operator c2 b2 generated) t h =
      open-revises operator c2 b2 generated t h
  apply-revises strip (attaching operator feedback event_id) t h =
      attach-revises strip operator feedback event_id t h
  apply-revises strip (completing id revised) t h =
      update-revises (has_session_id id) (completed_session revised.instant)
        (Settles-completed revised.instant) customer batch g t.rows
      ∙ h
  apply-revises strip (failing id) t h =
      update-revises (has_session_id id) failed_session Settles-failed customer batch g t.rows ∙ h

  run-revises :
      (strip : String → String) (cs : List Call) (t : Sessions)
      → Revised t
      → Revised (run strip cs t)
  unfolding run
  run-revises strip [] t h = h
  run-revises strip (c ∷ cs) t h =
      run-revises strip cs (apply strip c t) (apply-revises strip c t h)

new_revises :
    (n : ℕ) (operator customer batch : String) (g : ℕ)
    → revises customer batch g (new_session n operator customer batch g) ≡ true
new_revises n operator customer batch g = rw (eq_refl customer, eq_refl batch) (ground arith)

opened :
    (operator customer batch : String) (generated : DateTime) (t : Sessions) {s : RevisionSession}
    {t' : Sessions}
    → open_session operator customer batch generated t ≡ (ok s, t')
    → contains (revises customer batch generated.instant) t'.rows ≡ true
unfolding open_session
opened operator customer batch generated t {s} {t'} h =
    elim (Bool-cases (
      contains (revises customer batch generated.instant) t.rows
      || contains (awaits operator) t.rows)) [
        | inl taken ↦ absurd (cc (rw taken at h))
        | inr new ↦ rw (← ap (λ (x : Result RevisionSession × Sessions). x.1) (rw new at h)) (
            contains-append_last (revises customer batch generated.instant) t.rows _
              (new_revises (t.last_id + 1) operator customer batch generated.instant))
      ]

-- Once a revision of a suggestion was opened, no operator opens a second one, whatever calls of the
-- store come in between and whatever became of the first: the attempt raises ValueError and changes
-- nothing.
pub one_round :
    (strip : String → String) (operator customer batch : String) (generated : DateTime)
    (t : Sessions) {s : RevisionSession} {t' : Sessions}
    → open_session operator customer batch generated t ≡ (ok s, t')
    → (cs : List Call) (operator2 : String) (generated2 : DateTime)
    → generated2.instant ≡ generated.instant
    → open_session operator2 customer batch generated2 (run strip cs t')
      ≡ (err value_error, run strip cs t')
unfolding open_session
one_round strip operator customer batch generated t {s} {t'} h cs operator2 generated2 same = rw (
  same,
  run-revises customer batch generated.instant strip cs t'
      (opened operator customer batch generated t h),
)
