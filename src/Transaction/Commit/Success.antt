-- ===== src/Transaction/Commit/Success.antt =====
-- What a successful commit has checked.
use ducklake_sdk.Common.{refl, ℕ, zero, suc, ◌+◌, ◌≡◌, true, false, List, [], ◌∷◌, some}
use ducklake_sdk.Common.Int.{int_eq}
use ducklake_sdk.Common.Error.{◌>>=◌, >>=-ok, ok_inj, Result, ok, err, DucklakeError}
use ducklake_sdk.Spec.Entities.{DucklakeSnapshot}
use ducklake_sdk.Catalog.Entities.{Catalog}
use ducklake_sdk.Caches.Snapshot.{SnapshotInfo}
use ducklake_sdk.Typedefs.Regex.{RegexCrate}
use ducklake_sdk.Transaction.Change.{Change}
use ducklake_sdk.Transaction.ChangeSet.{new, is_empty}
use ducklake_sdk.Transaction.CommitState.{CommitState}
use ducklake_sdk.Transaction.Record.{applied_change_set}
use ducklake_sdk.Transaction.Applied.{AppliedChange}
use ducklake_sdk.Transaction.Applied.Conflict.{check_sets}
use ducklake_sdk.Transaction.Attempt.{World, apply_changes}
use ducklake_sdk.Common.{sym, ap, ◌∙◌, subst, ◌⊎◌, inl, inr, arith, Elem, Bool-cases, ◌<◌, ◌≤◌}
use ducklake_sdk.Transaction.Applied.Footprint.{Conflicts}
use ducklake_sdk.Transaction.Applied.Resolution.Sets.{check_sets-no_conflict}
use ducklake_sdk.Transaction.Commit.{
  Transaction, Committed, max_retry_count, is_retryable, get_snapshot_changes, check_snapshots,
  refresh, start, after, attempts, commit,
}

module _ {V B : Type 0} (regexes : RegexCrate) (world : World V B) where
  -- No change of the transaction conflicts with one of the snapshots that were checked.
  check_snapshots-no_conflict :
      (catalog : Catalog V) (applied : List AppliedChange) (snapshots : List (List AppliedChange))
      → check_snapshots regexes world catalog applied snapshots ≡ ok tt
      → (l r : AppliedChange) (snapshot : List AppliedChange) → Elem snapshot snapshots
      → Elem l applied
      → Elem r snapshot
      → ¬ Conflicts regexes catalog l r
  unfolding check_snapshots
  check_snapshots-no_conflict catalog applied [] h l r snapshot i j k = absurd i
  check_snapshots-no_conflict catalog applied (s ∷ snapshots) h l r snapshot (inl e) j k =
      let (u, a, b) =
        >>=-ok (check_sets regexes catalog applied s)
          (λ z. check_snapshots regexes world catalog applied snapshots) tt h in
      check_sets-no_conflict regexes catalog applied s l r a j (subst (Elem r) e k)
  check_snapshots-no_conflict catalog applied (s ∷ snapshots) h l r snapshot (inr i) j k =
      let (u, a, b) =
        >>=-ok (check_sets regexes catalog applied s)
          (λ z. check_snapshots regexes world catalog applied snapshots) tt h in
      check_snapshots-no_conflict catalog applied snapshots b l r snapshot i j k

  module _ (tx : Transaction V B) (changes : List (Change V B)) where
    -- The snapshot that an attempt is based on: that of the transaction, or the latest one after the
    -- attempt before.
    abbrev pub IsBase : ℕ → SnapshotInfo → Type 0
    IsBase zero latest = latest ≡ tx.snapshot
    IsBase (suc i) latest = world.get_latest i ≡ ok latest

    -- The attempt before the one that went through failed with an error that is retried; then the
    -- changes of all snapshots up to the new base were read, and those that the transaction records
    -- with the IDs of the failed attempt were checked against them.
    pub record IsChecked (c : Committed) : Type 0 where
      pub before : ℕ
      pub is_next : c.attempt ≡ suc before
      pub previous : SnapshotInfo
      pub is_base : IsBase before previous
      pub started : CommitState V
      pub is_started : start regexes world tx changes before previous ≡ ok started
      pub failed : CommitState V
      pub error : DucklakeError
      pub is_failed : apply_changes world before changes started ≡ (err error, failed)
      pub is_retried : is_retryable before error ≡ true
      pub is_latest : world.get_latest before ≡ ok c.base
      pub others : List (List AppliedChange)
      pub applied : List AppliedChange
      pub read : get_snapshot_changes regexes world before tx.snapshot.id c.base.id ≡ ok others
      pub recorded : (applied_change_set changes failed).0 ≡ ok applied
      pub passed : check_snapshots regexes world tx.catalog applied others ≡ ok tt

    after_ok :
        (i : ℕ) (latest : SnapshotInfo) (r : Result DucklakeSnapshot × CommitState V)
        (again : SnapshotInfo → Result Committed) (c : Committed)
        → after regexes world tx changes i latest r again ≡ ok c
        → ((c.attempt ≡ i) × (c.base ≡ latest))
          ⊎ ((l : SnapshotInfo) × (state : CommitState V) × (e : DucklakeError) × (r
                ≡ (err e, state))
              × (is_retryable i e ≡ true)
              × (refresh regexes world tx changes i state ≡ ok l)
              × (again l ≡ ok c))
    after_ok i latest (ok written, state) again c h =
        let e = ok_inj (record { attempt = i; base = latest; written = written }) c h in
        inl (ap (λ z. z.attempt) (sym e), ap (λ z. z.base) (sym e))
    after_ok i latest (err e, state) again c h = elim (Bool-cases (is_retryable i e)) [
      | inl q ↦
          let (l, f, g) = >>=-ok (refresh regexes world tx changes i state) again c (retried q h) in
          inr (l, state, e, refl, q, f, g)
      | inr q ↦ absurd (given_up q h)
    ]
      where
        retried :
            is_retryable i e ≡ true
            → after regexes world tx changes i latest (err e, state) again ≡ ok c
            → (refresh regexes world tx changes i state >>= again) ≡ ok c
        retried q h = ground arith

        given_up :
            is_retryable i e ≡ false
            → after regexes world tx changes i latest (err e, state) again ≡ ok c
            → ⊥
        given_up q h = ground arith

    refresh_ok :
        (i : ℕ) (latest : SnapshotInfo) (started failed : CommitState V) (e : DucklakeError)
        (l : SnapshotInfo) (c : Committed)
        → IsBase i latest
        → start regexes world tx changes i latest ≡ ok started
        → apply_changes world i changes started ≡ (err e, failed)
        → is_retryable i e ≡ true
        → refresh regexes world tx changes i failed ≡ ok l
        → c.attempt ≡ suc i
        → c.base ≡ l
        → IsChecked c
    unfolding refresh
    refresh_ok i latest started failed e l c base st f q h a b =
        let (l1, e1, h1) = >>=-ok (world.get_latest i) _ l h in
        let (others, e2, h2) =
          >>=-ok (get_snapshot_changes regexes world i tx.snapshot.id l1.id) _ l h1 in
        let (applied, e3, h3) = >>=-ok ((applied_change_set changes failed).0) _ l h2 in
        let (u, e4, h4) = >>=-ok (check_snapshots regexes world tx.catalog applied others) _ l h3 in
        let same : c.base ≡ l1 = b ∙ sym (ok_inj l1 l h4) in
        record {
          before = i;
          is_next = a;
          previous = latest;
          is_base = base;
          started = started;
          is_started = st;
          failed = failed;
          error = e;
          is_failed = f;
          is_retried = q;
          is_latest = e1 ∙ ap ok (sym same);
          others = others;
          applied = applied;
          read = ap (λ z. get_snapshot_changes regexes world i tx.snapshot.id z.id) same ∙ e2;
          recorded = e3;
          passed = e4;
        }

    refresh_latest :
        (i : ℕ) (state : CommitState V) (l : SnapshotInfo)
        → refresh regexes world tx changes i state ≡ ok l
        → world.get_latest i ≡ ok l
    unfolding refresh
    refresh_latest i state l h =
        let (l1, e1, h1) = >>=-ok (world.get_latest i) _ l h in
        let (others, e2, h2) =
          >>=-ok (get_snapshot_changes regexes world i tx.snapshot.id l1.id) _ l h1 in
        let (applied, e3, h3) = >>=-ok ((applied_change_set changes state).0) _ l h2 in
        let (u, e4, h4) = >>=-ok (check_snapshots regexes world tx.catalog applied others) _ l h3 in
        e1 ∙ h4

    attempts_ok :
        (fuel i : ℕ) (latest : SnapshotInfo) (c : Committed)
        → IsBase i latest
        → attempts regexes world tx changes fuel i latest ≡ ok c
        → (c.attempt < i + fuel) × (((c.attempt ≡ i) × (c.base ≡ latest)) ⊎ IsChecked c)
    unfolding attempts
    attempts_ok zero i latest c base h = cc
    attempts_ok (suc fuel) i latest c base h =
        let (state, st, g) = >>=-ok (start regexes world tx changes i latest) _ c h in
        elim (after_ok i latest (apply_changes world i changes state)
          (attempts regexes world tx changes fuel (suc i)) c g) [
            | inl (a, b) ↦ (omega (arith, a), inl (a, b))
            | inr (l, failed, e, f, q, r, k) ↦
                let (lt, rest) = attempts_ok fuel (suc i) l c (refresh_latest i failed l r) k in
                (
                  omega (arith, lt),
                  inr (elim rest [
                    | inl (a, b) ↦ refresh_ok i latest state failed e l c base st f q r a b
                    | inr checked ↦ checked
                  ]),
                )
          ]

  -- A commit that went through was the attempt that its number says, of at most eleven. It was the
  -- first, based on the snapshot of the transaction; or the attempt before it, on the base that the
  -- loop gave it, failed with an error that is retried, and it is based on the latest snapshot after
  -- that. Then the recorded changes of every snapshot after that of the transaction, up to its base, had
  -- been read and checked, and no change that the transaction records, with the IDs that the failed
  -- attempt gave out, conflicts with any of them in the sense of the conflict matrix.
  pub commit-no_conflict :
      (tx : Transaction V B) (c : Committed)
      → commit regexes world tx ≡ ok (some c)
      → (c.attempt ≤ max_retry_count)
        × (((c.attempt ≡ 0) × (c.base ≡ tx.snapshot))
            ⊎ ((before : ℕ) × (previous : SnapshotInfo) × (started : CommitState V)
                × (failed : CommitState V) × (e : DucklakeError) × (others : List
                    (List AppliedChange))
                × (applied : List AppliedChange) × (c.attempt ≡ suc before)
                × IsBase tx (new tx.changes) before previous
                × (start regexes world tx (new tx.changes) before previous ≡ ok started)
                × (apply_changes world before (new tx.changes) started ≡ (err e, failed))
                × (is_retryable before e ≡ true)
                × (world.get_latest before ≡ ok c.base)
                × (get_snapshot_changes regexes world before tx.snapshot.id c.base.id ≡ ok others)
                × ((applied_change_set (new tx.changes) failed).0 ≡ ok applied)
                × ((l r : AppliedChange) (snapshot : List AppliedChange)
                    → Elem snapshot others
                    → Elem l applied
                    → Elem r snapshot
                    → ¬ Conflicts regexes tx.catalog l r)))
  unfolding commit
  commit-no_conflict tx c h = elim (Bool-cases (is_empty (new tx.changes))) [
    | inl e ↦ absurd (nothing e h)
    | inr e ↦
        let (d, f, g) =
          >>=-ok (attempts regexes world tx (new tx.changes) 11 0 tx.snapshot) (λ z. ok (some z))
            (some c) (something e h) in
        let q = inner d c (ok_inj (some d) (some c) g) in
        let (lt, cases) = attempts_ok tx (new tx.changes) 11 0 tx.snapshot c refl (f ∙ ap ok q) in
        (
          omega (arith, lt),
          elim cases [
            | inl a ↦ inl a
            | inr k ↦ inr (
              k.before,
              k.previous,
              k.started,
              k.failed,
              k.error,
              k.others,
              k.applied,
              k.is_next,
              k.is_base,
              k.is_started,
              k.is_failed,
              k.is_retried,
              k.is_latest,
              k.read,
              k.recorded,
              check_snapshots-no_conflict tx.catalog k.applied k.others k.passed,
            )
          ],
        )
  ]
    where
      inner : (d c : Committed) → some d ≡ some c → d ≡ c
      inner d c q = ground arith

      nothing : is_empty (new tx.changes) ≡ true → commit regexes world tx ≡ ok (some c) → ⊥
      nothing e h = ground arith

      something :
          is_empty (new tx.changes) ≡ false
          → commit regexes world tx ≡ ok (some c)
          → (attempts regexes world tx (new tx.changes) 11 0 tx.snapshot >>= λ z. ok (some z))
            ≡ ok (some c)
      something e h = ground arith
