-- ===== src/Typedefs/Tags.antt =====
-- crates/ducklake/src/typedefs/tag.rs: a collection of tags indexed by key. The hash map is an
-- association list with distinct keys; its iteration order is not specified.
use ducklake_sdk.Common.{
  ◌≡◌, refl, List, [], ◌∷◌, Option, none, some, arith, if◌then◌else◌, list_beq, list_beq_iff,
  nat_eq,
}
use ducklake_sdk.Common.Text.{Text}

-- `Tag`.
pub record Tag : Type 0 where
  pub key : Text
  pub value : Text

-- `Tags`.
abbrev pub Tags : Type 0
Tags = List (Text × Text)

-- `Tags::get`.
unfoldable pub get : Tags → Text → Option Text
get [] key = none
get ((k, v) ∷ tags) key = if list_beq k key then some v else get tags key

-- `Tags::insert`: a later value replaces an earlier one.
unfoldable pub insert : Tags → Tag → Tags
insert [] tag = (tag.key, tag.value) ∷ []
insert ((k, v) ∷ tags) tag =
    if list_beq k tag.key then (k, tag.value) ∷ tags else (k, v) ∷ insert tags tag

-- `Tags::remove`: the map without the key; the removed value is `get`.
unfoldable pub remove : Tags → Text → Tags
remove [] key = []
remove ((k, v) ∷ tags) key = if list_beq k key then tags else (k, v) ∷ remove tags key

pub get-insert :
    (tags : Tags) (tag : Tag) (key : Text)
    → get (insert tags tag) key ≡ (if list_beq tag.key key then some tag.value else get tags key)
unfolding get insert
get-insert [] tag key = refl
get-insert ((k, v) ∷ tags) tag key = ground (
  arith,
  list_beq_iff tag.key key,
  list_beq_iff k tag.key,
  list_beq_iff k key,
  get-insert tags tag key,
)
