-- ===== src/Tests/Paths.antt =====
-- Paths of a schema, a table and a file.
use ducklake_sdk.Common.{◌≡◌, ◌≢◌, refl, true, ◌++◌, [], some}
use ducklake_sdk.Common.Options.{◌>>=◌}
use ducklake_sdk.Common.Text.{Text, codes}
use ducklake_sdk.Typedefs.Layout.{absolute, relative}
use ducklake_sdk.Typedefs.Path.{
  UrlLibrary, ends_with_slash, IsDirectory, join, joined, join_assoc, ensure_directory,
  ensure_directory-IsDirectory,
}

-- URLs that are nothing but a path.
abbrev plain_urls : UrlLibrary
plain_urls = record {
  join = λ base other. some (base ++ other);
  path = λ url. url;
  set_path = λ url path. path;
}

joined_once :
    join plain_urls (relative (codes "main/")) (relative (codes "t/"))
    ≡ some (relative (codes "main/t/"))
unfolding join ends_with_slash
joined_once = refl

not_empty : codes "t/" ≢ []
not_empty h = cc

join_assoc_example :
    ((join plain_urls (relative (codes "main/")) (relative (codes "t/")) >>= λ ab.
    join plain_urls ab (relative (codes "f.parquet")))
      ≡ joined (codes "main/") (codes "t/") (codes "f.parquet"))
    × ((join plain_urls (relative (codes "t/")) (relative (codes "f.parquet")) >>= λ bc.
          join plain_urls (relative (codes "main/")) bc)
        ≡ joined (codes "main/") (codes "t/") (codes "f.parquet"))
join_assoc_example =
    join_assoc plain_urls (codes "main/") (codes "t/") (codes "f.parquet") not_empty

keeps_slash :
    (url path : Text)
    → ends_with_slash path ≡ true
    → ends_with_slash (plain_urls.path (plain_urls.set_path url path)) ≡ true
keeps_slash url path h = h

ensure_directory-IsDirectory_example :
    IsDirectory plain_urls (ensure_directory plain_urls (absolute (codes "/data")))
    × (ensure_directory plain_urls (ensure_directory plain_urls (absolute (codes "/data")))
        ≡ ensure_directory plain_urls (absolute (codes "/data")))
ensure_directory-IsDirectory_example =
    ensure_directory-IsDirectory plain_urls (absolute (codes "/data")) keeps_slash
