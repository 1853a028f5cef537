-- ===== src/Transaction/ChangeSet/Exact.antt =====
-- Which changes `ChangeSet::new` keeps, exactly.
use ducklake_sdk.Common.{sym, subst, ◌⊎◌, inl, inr, ◌↔◌, List, nat_eq, Elem}
use ducklake_sdk.Common.Unique.KeepLast.{IsLast}
use ducklake_sdk.Transaction.Change.{Change, hashable, hashable_change_eq}
use ducklake_sdk.Transaction.ChangeSet.{new}
use ducklake_sdk.Common.Unique.KeepLast.{Elem-keep_last}
use ducklake_sdk.Transaction.ChangeSet.Cancel.{Cancelled}
use ducklake_sdk.Transaction.ChangeSet.Stages.{new-passes}
use ducklake_sdk.Transaction.ChangeSet.Kept.{table_pass, macro_pass, view_pass, schema_pass}

module _ {V B : Type 0} where
  -- A change survives `ChangeSet::new` exactly when it is the last one with its key and is not
  -- cancelled: it deletes nothing that was created, and neither touches a table nor creates a
  -- view, a macro or a schema that is deleted.
  pub Elem-new :
      (cs : List (Change V B)) (c : Change V B)
      → Elem c (new cs) ↔ (IsLast hashable c cs × (¬ Cancelled c cs))
  Elem-new cs c = (to, from)
    where
      to : Elem c (new cs) → IsLast hashable c cs × (¬ Cancelled c cs)
      to i =
          let (i3, n4) = (schema_pass cs c).0 (subst (Elem c) (new-passes cs) i) in
          let (i2, n3) = (view_pass cs c).0 i3 in
          let (i1, n2) = (macro_pass cs c).0 i2 in
          let (i0, n1) = (table_pass cs c).0 i1 in
          ((Elem-keep_last hashable cs c).0 i0, not_any n1 n2 n3 n4)
        where
          not_any : {P Q R S : Type 0} → (¬ P) → (¬ Q) → (¬ R) → (¬ S) → ¬ (P ⊎ Q ⊎ R ⊎ S)
          not_any a b d e (inl p) = a p
          not_any a b d e (inr (inl q)) = b q
          not_any a b d e (inr (inr (inl r))) = d r
          not_any a b d e (inr (inr (inr s))) = e s

      from : IsLast hashable c cs × (¬ Cancelled c cs) → Elem c (new cs)
      from (l, n) =
          let i0 = (Elem-keep_last hashable cs c).1 l in
          let i1 = (table_pass cs c).1 (i0, λ z. n (inl z)) in
          let i2 = (macro_pass cs c).1 (i1, λ z. n (inr (inl z))) in
          let i3 = (view_pass cs c).1 (i2, λ z. n (inr (inr (inl z)))) in
          subst (Elem c) (sym (new-passes cs))
            ((schema_pass cs c).1 (i3, λ z. n (inr (inr (inr z)))))
