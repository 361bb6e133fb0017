-- ===== src/FileUtils.antt =====
-- src/utils/file_utils.cpp: `getParentDirectory`, `getFileName`, `isDirExists` and `isFileExists`.
pub mod Paths
use neo_group_captcha_bot.Common.{
  ℕ, suc, ◌+◌, ◌≡◌, ◌++◌, Bool, true, false, ◌&&◌, not, List, [], ◌∷◌, Option, none, some, Bytes,
  is_empty, take, drop, ◌==◌, if◌then◌else◌,
}

-- '/'
abbrev pub path_separator : ℕ
path_separator = 47

-- `path.find_last_of(kPathSeparator)`.
unfoldable pub find_last_of : Bytes → ℕ → Option ℕ
find_last_of [] c = none
find_last_of (x ∷ xs) c = elim (find_last_of xs c) [
  | some pos ↦ some (suc pos)
  | none ↦ if x == c then some 0 else none
]

unfoldable pub get_parent_directory : Bytes → Bytes
get_parent_directory path =
    if is_empty path
    then []
    else elim (find_last_of path path_separator) [ none ↦ [] | some pos ↦ take pos path ]

unfoldable pub get_file_name : Bytes → Bytes
get_file_name path =
    if is_empty path
    then []
    else elim (find_last_of path path_separator) [ none ↦ path | some pos ↦ drop (pos + 1) path ]

-- What `stat` says of a path, if it succeeds.
pub data FileKind : Type 0 where
  directory regular_file other_file : FileKind

unfoldable pub is_dir_exists : Option FileKind → Bool
is_dir_exists (some directory) = true
is_dir_exists _ = false

unfoldable pub is_file_exists : Option FileKind → Bool
is_file_exists (some regular_file) = true
is_file_exists _ = false
