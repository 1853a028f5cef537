-- ===== src/Typedefs/Path.antt =====
-- `DucklakePath` of crates/ducklake/src/io/path.rs: paths of files in the catalog. Absolute paths are
-- URLs, which the url crate takes apart.
use ducklake_sdk.Common.{
  ℕ, ◌≡◌, ◌≢◌, refl, ap, Bool, true, false, ◌&&◌, [], ◌∷◌, ◌++◌, Option, none, some, if◌then◌else◌,
  nat_beq, append_assoc, Bool-cases, inl, inr,
}
use ducklake_sdk.Common.Options.{◌>>=◌}
use ducklake_sdk.Common.Text.{Text, codes}
use ducklake_sdk.Common.Error.{Result, ok, err, panicked, parsing}
use ducklake_sdk.Typedefs.Layout.{DucklakePath, absolute, relative}

-- What the paths need of `url::Url`, a URL being its serialisation: `join`, `path` and `set_path`.
pub record UrlLibrary : Type 0 where
  pub join : Text → Text → Option Text
  pub path : Text → Text
  pub set_path : Text → Text → Text

-- `ends_with('/')`.
unfoldable pub ends_with_slash : Text → Bool
ends_with_slash [] = false
ends_with_slash (c ∷ []) = nat_beq c 47
ends_with_slash (c ∷ d ∷ t) = ends_with_slash (d ∷ t)

-- `Display for DucklakePath`.
abbrev pub path_text : DucklakePath → Text
path_text (absolute url) = url
path_text (relative path) = path

-- `DucklakePath::is_relative`.
abbrev pub is_relative : DucklakePath → Bool
is_relative (absolute url) = false
is_relative (relative path) = true

abbrev absolute_option : Option Text → Option DucklakePath
absolute_option none = none
absolute_option (some url) = some (absolute url)

module _ (urls : UrlLibrary) where
  -- `DucklakePath::join`. `none` stands for a panic.
  unfoldable pub join : DucklakePath → DucklakePath → Option DucklakePath
  unfolding ends_with_slash
  join base (absolute other) = some (absolute other)
  join (absolute base) (relative other) = absolute_option (urls.join base other)
  join (relative base) (relative other) =
      if ends_with_slash base then some (relative (base ++ other)) else none

  -- `DucklakePath::join_str`.
  abbrev pub join_str : DucklakePath → Text → Option DucklakePath
  join_str base other = join base (relative other)

  -- `DucklakePath::ensure_directory`.
  unfoldable pub ensure_directory : DucklakePath → DucklakePath
  unfolding ends_with_slash
  ensure_directory (absolute url) =
      if ends_with_slash (urls.path url)
      then absolute url
      else absolute (urls.set_path url (urls.path url ++ codes "/"))
  ensure_directory (relative path) =
      if ends_with_slash path then relative path else relative (path ++ codes "/")

  -- The path of a directory ends with a slash.
  abbrev pub IsDirectory : DucklakePath → Type 0
  IsDirectory (absolute url) = ends_with_slash (urls.path url) ≡ true
  IsDirectory (relative path) = ends_with_slash path ≡ true

-- The last character of two texts is that of the second, where it has one.
ends_with_slash-append :
    (s : Text) (c : ℕ) (t : Text) → ends_with_slash (s ++ (c ∷ t)) ≡ ends_with_slash (c ∷ t)
unfolding ends_with_slash
ends_with_slash-append [] c t = refl
ends_with_slash-append (d ∷ []) c t = refl
ends_with_slash-append (d ∷ e ∷ s) c t = ends_with_slash-append (e ∷ s) c t

ends_with_slash-slash : (s : Text) → ends_with_slash (s ++ codes "/") ≡ true
unfolding ends_with_slash
ends_with_slash-slash s = ends_with_slash-append s 47 []

-- Three relative paths behind each other, where the first two are directories.
abbrev pub joined : Text → Text → Text → Option DucklakePath
joined a b c =
    if ends_with_slash a && ends_with_slash b then some (relative (a ++ (b ++ c))) else none

module _ (urls : UrlLibrary) where
  -- Three relative paths, the one in the middle not empty, are joined from either end with the same
  -- result: one behind the other where the first two end with a slash, and a panic otherwise.
  pub join_assoc :
      (a b c : Text)
      → b ≢ []
      → ((join urls (relative a) (relative b) >>= λ ab. join urls ab (relative c)) ≡ joined a b c)
        × ((join urls (relative b) (relative c) >>= λ bc. join urls (relative a) bc) ≡ joined a b c)
  unfolding join
  join_assoc a [] c h = absurd (h refl)
  join_assoc a (d ∷ b) c h = elim (Bool-cases (ends_with_slash a)) [
    | inl p ↦ elim (Bool-cases (ends_with_slash (d ∷ b))) [
      | inl q ↦ (
        rw (p, q, ends_with_slash-append a d b, q)
            (ap (λ t. some (relative t)) (append_assoc a (d ∷ b) c)),
        rw (p, q, p) refl,
      )
      | inr q ↦ (rw (p, q, ends_with_slash-append a d b, q) refl, rw (p, q) refl)
    ]
    | inr p ↦ elim (Bool-cases (ends_with_slash (d ∷ b))) [
      | inl q ↦ (rw p refl, rw (p, q, p) refl)
      | inr q ↦ (rw p refl, rw (p, q) refl)
    ]
  ]

  ensure_directory-unchanged : (q : DucklakePath) → IsDirectory urls q → ensure_directory urls q ≡ q
  unfolding ensure_directory
  ensure_directory-unchanged (absolute url) h = rw h refl
  ensure_directory-unchanged (relative path) h = rw h refl

  ensure_directory_made :
      (q : DucklakePath)
      → ((url path : Text)
          → ends_with_slash path ≡ true
          → ends_with_slash (urls.path (urls.set_path url path)) ≡ true)
      → IsDirectory urls (ensure_directory urls q)
  unfolding ensure_directory
  ensure_directory_made (absolute url) law = elim (Bool-cases (ends_with_slash (urls.path url))) [
    | inl h ↦ rw (h, h) refl
    | inr h ↦ rw h (law url (urls.path url ++ codes "/") (ends_with_slash-slash (urls.path url)))
  ]
  ensure_directory_made (relative path) law = elim (Bool-cases (ends_with_slash path)) [
    | inl h ↦ rw (h, h) refl
    | inr h ↦ rw h (ends_with_slash-slash path)
  ]

  -- A path that is made a directory is one, and to make it a directory again changes nothing, if the
  -- url crate sets a path that ends with a slash where it is given one.
  pub ensure_directory-IsDirectory :
      (p : DucklakePath)
      → ((url path : Text)
          → ends_with_slash path ≡ true
          → ends_with_slash (urls.path (urls.set_path url path)) ≡ true)
      → IsDirectory urls (ensure_directory urls p)
        × (ensure_directory urls (ensure_directory urls p) ≡ ensure_directory urls p)
  ensure_directory-IsDirectory p law =
      let d = ensure_directory_made p law in
      (d, ensure_directory-unchanged (ensure_directory urls p) d)

-- What `Url::parse` gives.
pub data ParsedUrl : Type 0 where
  url : Text → ParsedUrl
  relative_url_without_base : ParsedUrl
  invalid_url : ParsedUrl

-- What the parsing of paths needs of `std::path::Path` and `url::Url`.
pub record UrlParser : Type 0 where
  pub is_absolute : Text → Bool
  pub from_file_path : Text → Option Text
  pub parse_url : Text → ParsedUrl

-- `FromStr for DucklakePath`.
module _ (p : UrlParser) where
  unfoldable pub parse_path : Text → Result DucklakePath
  parse_path s =
      let other : Result DucklakePath = elim (p.parse_url s) [
        | url u ↦ ok (absolute u)
        | relative_url_without_base ↦ ok (relative s)
        | invalid_url ↦ err (parsing s)
      ] in
      let file : Result DucklakePath = elim (p.from_file_path s) [
        | none ↦ err panicked
        | some u ↦ ok (absolute u)
      ] in
      if p.is_absolute s then file else other
