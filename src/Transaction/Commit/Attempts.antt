-- ===== src/Transaction/Commit/Attempts.antt =====
-- The commit loop as a step relation: how attempts follow each other, and how the loop ends.
use ducklake_sdk.Common.{ℕ, zero, suc, ◌+◌, ◌≡◌, true, false, List}
use ducklake_sdk.Common.Int.{int_eq}
use ducklake_sdk.Common.Error.{
  ◌>>=◌, Result-split, Result, ok, err, DucklakeError, retries_exceeded,
}
use ducklake_sdk.Spec.Entities.{DucklakeSnapshot}
use ducklake_sdk.Caches.Snapshot.{SnapshotInfo}
use ducklake_sdk.Typedefs.Regex.{RegexCrate}
use ducklake_sdk.Transaction.Change.{Change}
use ducklake_sdk.Transaction.CommitState.{CommitState}
use ducklake_sdk.Transaction.Attempt.{World, apply_changes}
use ducklake_sdk.Common.{◌-◌, ◌↔◌, refl, sym, ap, ◌∙◌, subst, inl, inr, arith, Bool-cases, ◌≤◌}
use ducklake_sdk.Transaction.Commit.{
  Transaction, Committed, max_retry_count, is_retryable, refresh, start, after, attempts,
}

module _ {V B : Type 0} (regexes : RegexCrate) (world : World V B) (tx : Transaction V B)
    (changes : List (Change V B)) where
  -- The attempts that can come up, by number and the snapshot that they are based on.
  pub data Reached : ℕ → SnapshotInfo → Type 0 where
    first : Reached 0 tx.snapshot
    retried :
        (i : ℕ) (base next : SnapshotInfo) (state failed : CommitState V) (e : DucklakeError)
        → Reached i base
        → start regexes world tx changes i base ≡ ok state
        → apply_changes world i changes state ≡ (err e, failed)
        → is_retryable i e ≡ true
        → refresh regexes world tx changes i failed ≡ ok next
        → Reached (suc i) next

  -- How the loop ends.
  pub data Ends : Result Committed → Type 0 where
    written :
        (i : ℕ) (base : SnapshotInfo) (state after_state : CommitState V)
        (snapshot : DucklakeSnapshot)
        → Reached i base
        → i ≤ max_retry_count
        → start regexes world tx changes i base ≡ ok state
        → apply_changes world i changes state ≡ (ok snapshot, after_state)
        → Ends (ok (record { attempt = i; base = base; written = snapshot }))
    not_started :
        (i : ℕ) (base : SnapshotInfo) (e : DucklakeError)
        → Reached i base
        → i ≤ max_retry_count
        → start regexes world tx changes i base ≡ err e
        → Ends (err e)
    failed :
        (i : ℕ) (base : SnapshotInfo) (state after_state : CommitState V) (e : DucklakeError)
        → Reached i base
        → i ≤ max_retry_count
        → start regexes world tx changes i base ≡ ok state
        → apply_changes world i changes state ≡ (err e, after_state)
        → is_retryable i e ≡ false
        → Ends (err e)
    stopped :
        (i : ℕ) (base : SnapshotInfo) (state after_state : CommitState V) (e cause : DucklakeError)
        → Reached i base
        → i ≤ max_retry_count
        → start regexes world tx changes i base ≡ ok state
        → apply_changes world i changes state ≡ (err e, after_state)
        → is_retryable i e ≡ true
        → refresh regexes world tx changes i after_state ≡ err cause
        → Ends (err cause)
    exhausted :
        (base : SnapshotInfo) → Reached (suc max_retry_count) base → Ends (err retries_exceeded)

  -- What one round of the loop comes to.
  round_failed :
      (fuel i : ℕ) (base : SnapshotInfo) (e : DucklakeError)
      → start regexes world tx changes i base ≡ err e
      → attempts regexes world tx changes (suc fuel) i base ≡ err e
  unfolding attempts
  round_failed fuel i base e h = rw (h) refl

  round :
      (fuel i : ℕ) (base : SnapshotInfo) (state : CommitState V)
      → start regexes world tx changes i base ≡ ok state
      → attempts regexes world tx changes (suc fuel) i base
        ≡ after regexes world tx changes i base
            (apply_changes world i changes state)
            (attempts regexes world tx changes fuel (suc i))
  unfolding attempts
  round fuel i base state h = rw (h) refl

  after_retry :
      (i : ℕ) (base : SnapshotInfo) (e : DucklakeError) (state : CommitState V)
      (again : SnapshotInfo → Result Committed)
      → is_retryable i e ≡ true
      → after regexes world tx changes i base (err e, state) again
        ≡ (refresh regexes world tx changes i state >>= again)
  after_retry i base e state again h = ground arith

  after_failure :
      (i : ℕ) (base : SnapshotInfo) (e : DucklakeError) (state : CommitState V)
      (again : SnapshotInfo → Result Committed)
      → is_retryable i e ≡ false
      → after regexes world tx changes i base (err e, state) again ≡ err e
  after_failure i base e state again h = ground arith

  -- From an attempt that can come up, the loop ends in one of the ways of `Ends`.
  Ends-from :
      (fuel i : ℕ) (base : SnapshotInfo)
      → Reached i base
      → i + fuel ≡ 11
      → Ends (attempts regexes world tx changes fuel i base)
  unfolding attempts
  Ends-from zero i base h e = exhausted base (subst (λ n. Reached n base) (omega (arith, e)) h)
  Ends-from (suc fuel) i base h e = elim (Result-split (start regexes world tx changes i base)) [
    | inl (state, s) ↦ subst Ends (sym (round fuel i base state s)) (
        body state s (apply_changes world i changes state) refl
          (λ next k. Ends-from fuel (suc i) next k (omega (arith, e))))
    | inr (cause, s) ↦
        subst Ends (sym (round_failed fuel i base cause s))
          (not_started i base cause h (omega (arith, e)) s)
  ]
    where
      body :
          (state : CommitState V)
          → start regexes world tx changes i base ≡ ok state
          → (p : Result DucklakeSnapshot × CommitState V) → apply_changes world i changes state ≡ p
          → ((next : SnapshotInfo)
              → Reached (suc i) next
              → Ends (attempts regexes world tx changes fuel (suc i) next))
          → Ends (
              after regexes world tx changes i base p
                (attempts regexes world tx changes fuel (suc i)))
      body state s (ok snapshot, t) a ih = written i base state t snapshot h (omega (arith, e)) s a
      body state s (err cause, t) a ih = elim (Bool-cases (is_retryable i cause)) [
        | inr n ↦
            subst Ends
              (sym
                (after_failure i base cause t (attempts regexes world tx changes fuel (suc i)) n))
              (failed i base state t cause h (omega (arith, e)) s a n)
        | inl y ↦
            subst Ends
              (sym (after_retry i base cause t (attempts regexes world tx changes fuel (suc i)) y))
              (elim (Result-split (refresh regexes world tx changes i t)) [
                | inl (next, r) ↦
                    subst (λ z. Ends (z >>= attempts regexes world tx changes fuel (suc i))) (sym r)
                      (ih next (retried i base next state t cause h s a y r))
                | inr (d, r) ↦
                    subst (λ z. Ends (z >>= attempts regexes world tx changes fuel (suc i))) (sym r)
                      (stopped i base state t cause d h (omega (arith, e)) s a y r)
              ])
      ]

  -- The loop comes to every attempt that can come up.
  comes_to :
      (k i : ℕ) (base : SnapshotInfo)
      → Reached i base
      → i + k ≡ 11
      → attempts regexes world tx changes 11 0 tx.snapshot
        ≡ attempts regexes world tx changes k i base
  comes_to k i base first e =
      ap (λ n. attempts regexes world tx changes n 0 tx.snapshot) (omega (arith, e))
  comes_to k n next (retried i base next' state t cause h s a y r) e =
      comes_to (suc k) i base h (omega (arith, e))
      ∙ round k i base state s
      ∙ ap
          (λ p.
            after regexes world tx changes i base p (attempts regexes world tx changes k (suc i)))
          a
      ∙ after_retry i base cause t (attempts regexes world tx changes k (suc i)) y
      ∙ ap (λ z. z >>= attempts regexes world tx changes k (suc i)) r

  abbrev rest : ℕ → SnapshotInfo → Result Committed
  rest i = attempts regexes world tx changes (10 - i) (suc i)

  -- At an attempt that can come up and has started, the loop goes on from what the attempt gave.
  at_attempt :
      (i : ℕ) (base : SnapshotInfo) (state : CommitState V)
      (p : Result DucklakeSnapshot × CommitState V)
      → Reached i base
      → i ≤ max_retry_count
      → start regexes world tx changes i base ≡ ok state
      → apply_changes world i changes state ≡ p
      → attempts regexes world tx changes 11 0 tx.snapshot
        ≡ after regexes world tx changes i base p (rest i)
  at_attempt i base state p h le s a =
      comes_to (suc (10 - i)) i base h (omega (arith, le))
      ∙ round (10 - i) i base state s
      ∙ ap (λ z. after regexes world tx changes i base z (rest i)) a

  Ends-so : (r : Result Committed) → Ends r → attempts regexes world tx changes 11 0 tx.snapshot ≡ r
  unfolding attempts
  Ends-so r (written i base state t snapshot h le s a) =
      at_attempt i base state (ok snapshot, t) h le s a
  Ends-so r (not_started i base e h le s) =
      comes_to (suc (10 - i)) i base h (omega (arith, le)) ∙ round_failed (10 - i) i base e s
  Ends-so r (failed i base state t e h le s a n) =
      at_attempt i base state (err e, t) h le s a ∙ after_failure i base e t (rest i) n
  Ends-so r (stopped i base state t e d h le s a y q) =
      at_attempt i base state (err e, t) h le s a
      ∙ after_retry i base e t (rest i) y
      ∙ ap (λ z. z >>= rest i) q
  Ends-so r (exhausted base h) = comes_to 0 11 base h (omega arith)

  -- The commit loop returns exactly the results that the step relation ends with: the snapshot of
  -- an attempt that can come up and is written, an error that is not retried, the error met or the
  -- conflict found between two attempts, and `RetriesExceeded` after eleven failed attempts.
  pub attempts-Ends :
      (r : Result Committed)
      → (attempts regexes world tx changes (suc max_retry_count) 0 tx.snapshot ≡ r) ↔ Ends r
  attempts-Ends r =
      ((λ e. subst Ends e (Ends-from 11 0 tx.snapshot first (omega arith))), Ends-so r)
