-- ===== src/FileUtils/Paths.antt =====
-- src/utils/file_utils.cpp: a path against its directory and its name.
use neo_group_captcha_bot.Common.{
  ℕ, zero, suc, ◌+◌, ◌≡◌, refl, ap, ◌++◌, Bool, true, false, ◌||◌, [], ◌∷◌, none, some, Bytes,
  is_empty, take, drop, ◌==◌, if◌then◌else◌, arith, Option-cases, inl, inr,
}
use neo_group_captcha_bot.FileUtils.{
  path_separator, find_last_of, get_parent_directory, get_file_name,
}

abbrev pub contains : Bytes → ℕ → Bool
contains [] c = false
contains (x ∷ xs) c = x == c || contains xs c

last-none : (s : Bytes) (c : ℕ) → find_last_of s c ≡ none → contains s c ≡ false
unfolding find_last_of
last-none [] c h = refl
last-none (x ∷ xs) c h = ground (arith, h, last-none xs c)

-- The place that is found holds the byte, and none after it does.
last-some :
    (s : Bytes) (c pos : ℕ)
    → find_last_of s c ≡ some pos
    → (s ≡ take pos s ++ (c ∷ drop (suc pos) s))
      × (contains (drop (suc pos) s) c ≡ false)
      × (contains s c ≡ true)
unfolding find_last_of
last-some [] c pos h = absurd (ground (arith, h))
last-some (x ∷ xs) c zero h = ground (arith, h, last-none xs c)
last-some (x ∷ xs) c (suc pos) h =
    let later : find_last_of xs c ≡ some pos = ground (arith, h) in
    ground (arith, last-some xs c pos later)

-- The directory, then the separator if the path has one, then the name give the path again; the
-- name holds no separator; the path of an entry with no separator has the empty directory.
path_splits :
    (path : Bytes)
    → (path
        ≡ get_parent_directory path
          ++ (if contains path path_separator
              then path_separator ∷ get_file_name path
              else get_file_name path))
      × (contains (get_file_name path) path_separator ≡ false)
      × ((contains path path_separator || is_empty (get_parent_directory path)) ≡ true)
unfolding get_parent_directory get_file_name
path_splits [] = (refl, refl, refl)
path_splits (x ∷ xs) = elim (Option-cases (find_last_of (x ∷ xs) path_separator)) [
  | inl f ↦ ground (arith, f, last-none (x ∷ xs) path_separator f)
  | inr (k, f) ↦
      let n : suc k ≡ k + 1 = omega arith in
      let (whole, after, has) = last-some (x ∷ xs) path_separator k f in
      let there : drop (suc k) (x ∷ xs) ≡ drop (k + 1) (x ∷ xs) = ap (λ m. drop m (x ∷ xs)) n in
      ground (arith, f, has, whole, after, there)
]
