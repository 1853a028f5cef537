-- ===== src/Primitives/DiffIterator.antt =====
-- crates/ducklake/src/primitives/diff_iterator.rs: the difference of two lists by key. Keys are texts,
-- whose order is that of their code points; `sorted_by_key` of the itertools crate sorts stably.
use ducklake_sdk.Common.{Bool, true, false, List, [], ◌∷◌, ltb, if◌then◌else◌}
use ducklake_sdk.Common.Text.{Text}

-- `Ord for String`: whether a text is smaller.
unfoldable pub less : Text → Text → Bool
less [] [] = false
less [] (d ∷ t) = true
less (c ∷ s) [] = false
less (c ∷ s) (d ∷ t) =
    let rest = less s t in if ltb c d then true else if ltb d c then false else rest

-- `EitherOrBoth`.
pub data EitherOrBoth (A : Type 0) : Type 0 where
  both : A → A → EitherOrBoth A
  left right : A → EitherOrBoth A

module _ {A : Type 0} (key : A → Text) where
  insert_sorted : A → List A → List A
  unfolding less
  insert_sorted x [] = x ∷ []
  insert_sorted x (y ∷ ys) =
      let rest = insert_sorted x ys in if less (key y) (key x) then y ∷ rest else x ∷ y ∷ ys

  -- `sorted_by_key`.
  unfoldable pub sorted_by_key : List A → List A
  unfolding insert_sorted
  sorted_by_key [] = []
  sorted_by_key (x ∷ xs) = insert_sorted x (sorted_by_key xs)

  -- `merge_join_by`.
  unfoldable pub merge_join : List A → List A → List (EitherOrBoth A)
  unfolding less
  merge_join [] [] = []
  merge_join [] (r ∷ rs) = right r ∷ merge_join [] rs
  merge_join (l ∷ ls) [] = left l ∷ merge_join ls []
  merge_join (l ∷ ls) (r ∷ rs) =
      let smaller = merge_join ls (r ∷ rs) in
      let larger = merge_join (l ∷ ls) rs in
      let equal = merge_join ls rs in
      if less (key l) (key r)
      then left l ∷ smaller
      else if less (key r) (key l)
      then right r ∷ larger
      else both l r ∷ equal

  -- `iter_vec_diff`, and `iter_index_map_diff` where the keys are those of a map.
  unfoldable pub iter_vec_diff : List A → List A → List (EitherOrBoth A)
  unfolding sorted_by_key merge_join
  iter_vec_diff lhs rhs = merge_join (sorted_by_key lhs) (sorted_by_key rhs)
