-- ===== src/ProcessUtils/Info.antt =====
-- src/utils/ProcessUtils.cpp: what `getProcessInfo` reads from well-formed files.
use neo_group_captcha_bot.Common.{
  ℕ, zero, suc, ◌+◌, ◌≤◌, ◌<◌, ◌≡◌, refl, ap, sym, ◌∙◌, ◌++◌, append_assoc, true, false, List, [],
  ◌∷◌, none, some, ℤ, Bytes, codes, starts_with, is_empty, length, concat, All, ge→ltb, ◌==◌, arith,
  take-all, take_length-append, drop_add-append, length-append,
}
use neo_group_captcha_bot.TextUtils.{find, split_loop, split_string}
use neo_group_captcha_bot.TextUtils.Split.{glue}
use neo_group_captcha_bot.FileUtils.{find_last_of}
use neo_group_captcha_bot.ProcessUtils.Numbers.{stoi}
use neo_group_captcha_bot.ProcessUtils.{
  ProcessInfo, lines, uid_of_line, uid_in, read_all, without_last_nul, set_cmdline, c_string,
  linked, last_part, set_exe, get_process_info,
}

abbrev pub HasNo : ℕ → Bytes → Type 0
HasNo c = All (λ x. (x == c) ≡ false)

lines-line : (l after : Bytes) → HasNo 10 l → lines (l ++ (10 ∷ after)) ≡ l ∷ lines after
unfolding lines
lines-line [] after h = refl
lines-line (c ∷ cs) after (h, hs) = rw (h, lines-line cs after hs) refl

-- Lines, each with the byte that ends it.
abbrev pub IsOtherLine : Bytes → Type 0
IsOtherLine l = HasNo 10 l × (starts_with (codes "Uid:") l ≡ false)

uid_of_line_lem : (value : Bytes) → uid_of_line (codes "Uid:\t" ++ value) ≡ stoi value
unfolding uid_of_line
uid_of_line_lem value = rw (ge→ltb (length (codes "Uid:\t" ++ value)) 5 (omega arith)) refl

uid_in-line :
    (before : List Bytes) (value after : Bytes)
    → All IsOtherLine before
    → HasNo 10 value
    → uid_in (lines (glue (10 ∷ []) before ++ (codes "Uid:\t" ++ (value ++ (10 ∷ after)))))
      ≡ stoi value
unfolding uid_in starts_with
uid_in-line [] value after h k =
    rw (lines-line (codes "Uid:\t" ++ value) after (refl, (refl, (refl, (refl, (refl, k))))))
      (uid_of_line_lem value)
uid_in-line (l ∷ ls) value after ((n, s), hs) k =
    rw
      (
        append_assoc l (10 ∷ glue (10 ∷ []) ls) (codes "Uid:\t" ++ (value ++ (10 ∷ after))),
        lines-line l (glue (10 ∷ []) ls ++ (codes "Uid:\t" ++ (value ++ (10 ∷ after)))) n,
        s,
      )
      (uid_in-line ls value after hs k)

read_all-concat :
    (chunks : List Bytes) → All (λ c. 0 < length c) chunks → read_all chunks ≡ concat chunks
unfolding read_all
read_all-concat [] h = refl
read_all-concat ([] ∷ cs) (h, hs) = absurd (omega (arith, h))
read_all-concat ((x ∷ xs) ∷ cs) (h, hs) = ap (λ r. (x ∷ xs) ++ r) (read_all-concat cs hs)

without_last_nul_lem : (s : Bytes) → without_last_nul (s ++ (0 ∷ [])) ≡ s
unfolding without_last_nul
without_last_nul_lem [] = refl
without_last_nul_lem (c ∷ []) = refl
without_last_nul_lem (c ∷ d ∷ rest) = ap (◌∷◌ c) (without_last_nul_lem (d ∷ rest))

-- The arguments with a 0 after each end with a 0, and what stands before it starts with the first.
glue_last :
    (first : Bytes) (rest : List Bytes)
    → (s : Bytes) × (glue (0 ∷ []) (first ∷ rest) ≡ first ++ (s ++ (0 ∷ [])))
glue_last first [] = ([], refl)
glue_last first (a ∷ rest) =
    let (s, e) = glue_last a rest in (0 ∷ (a ++ s), rw (e, append_assoc a s (0 ∷ [])) refl)

find_lem : (s after : Bytes) → HasNo 0 s → find (s ++ (0 ∷ after)) (0 ∷ []) ≡ some (length s)
unfolding find starts_with
find_lem [] after h = refl
find_lem (c ∷ cs) after (h, hs) = ground (arith, h, find_lem cs after hs)

split_loop-glue :
    (fuel : ℕ) (args : List Bytes)
    → All (HasNo 0) args
    → length (glue (0 ∷ []) args) < fuel
    → split_loop fuel (glue (0 ∷ []) args) (0 ∷ []) ≡ some args
unfolding split_loop find
split_loop-glue zero args h k = absurd (omega (arith, k))
split_loop-glue (suc fuel) [] h k = refl
split_loop-glue (suc fuel) (a ∷ args) (h, hs) k =
    rw
      (
        split_loop,
        find_lem a (glue (0 ∷ []) args) h,
        drop_add-append a 1 (0 ∷ glue (0 ∷ []) args),
        take_length-append a (0 ∷ glue (0 ∷ []) args),
        split_loop-glue fuel args hs (omega (arith, k, length-append a (0 ∷ glue (0 ∷ []) args))),
      )
      refl

c_string_lem : (s : Bytes) → HasNo 0 s → c_string s ≡ s
unfolding c_string
c_string_lem [] h = refl
c_string_lem (c ∷ cs) (h, hs) = rw h (ap (◌∷◌ c) (c_string_lem cs hs))

find_last_of-none : (name : Bytes) → HasNo 47 name → find_last_of name 47 ≡ none
unfolding find_last_of
find_last_of-none [] h = refl
find_last_of-none (c ∷ cs) (h, hs) = rw (find_last_of-none cs hs, h) refl

find_last_of_lem :
    (dir name : Bytes) → HasNo 47 name → find_last_of (dir ++ (47 ∷ name)) 47 ≡ some (length dir)
unfolding find_last_of
find_last_of_lem [] name h = rw (find_last_of-none name h) refl
find_last_of_lem (c ∷ cs) name h = rw (find_last_of_lem cs name h) refl

append-not_empty : (s t : Bytes) → is_empty s ≡ false → is_empty (s ++ t) ≡ false
append-not_empty [] t h = absurd (ground (arith, h))
append-not_empty (x ∷ xs) t h = refl

-- The arguments are read as they were given: from chunks that hold each argument with a 0 after it,
-- if the first is not empty and none has a 0.
set_cmdline_lem :
    (info : ProcessInfo) (chunks : List Bytes) (first : Bytes) (rest : List Bytes)
    → All (λ c. 0 < length c) chunks
    → is_empty first ≡ false
    → All (HasNo 0) (first ∷ rest)
    → concat chunks ≡ glue (0 ∷ []) (first ∷ rest)
    → set_cmdline info chunks ≡ some (record info { cmdline = first ∷ rest; argv0 = first })
unfolding set_cmdline split_string
set_cmdline_lem info chunks first rest c e n g =
    let args : List Bytes = first ∷ rest in
    let (s, last) = glue_last first rest in
    let whole : glue (0 ∷ []) args ≡ (first ++ s) ++ (0 ∷ []) =
      last ∙ sym (append_assoc first s (0 ∷ [])) in
    let bytes : without_last_nul (read_all chunks) ≡ first ++ s =
      rw (read_all-concat chunks c, g, whole) (without_last_nul_lem (first ++ s)) in
    let there : is_empty (first ++ s) ≡ false = append-not_empty first s e in
    let parts : split_loop (suc (length ((first ++ s) ++ (0 ∷ [])))) ((first ++ s) ++ (0 ∷ []))
          (0 ∷ [])
        ≡ some args =
      rw (sym whole) (split_loop-glue (suc (length (glue (0 ∷ []) args))) args n (omega arith)) in
    rw (bytes, there, parts) refl

last_part_lem : (dir name : Bytes) → HasNo 47 name → last_part (dir ++ (47 ∷ name)) ≡ name
unfolding last_part
last_part_lem dir name k =
    let e : suc (length dir) ≡ length dir + 1 = omega arith in
    rw (last_part, find_last_of_lem dir name k, e) (drop_add-append dir 1 (47 ∷ name))

set_exe_lem :
    (info : ProcessInfo) (dir name : Bytes)
    → HasNo 0 (dir ++ (47 ∷ name))
    → HasNo 47 name
    → length (dir ++ (47 ∷ name)) ≤ 255
    → set_exe info (dir ++ (47 ∷ name)) ≡ record info { exe = dir ++ (47 ∷ name); name = name }
unfolding set_exe linked
set_exe_lem info dir name h k l =
    let path : Bytes = dir ++ (47 ∷ name) in
    let e : linked path ≡ path = rw (take-all 255 path l) (c_string_lem path h) in
    let there : is_empty path ≡ false = ground (arith, length-append dir (47 ∷ name)) in
    rw (e, there, last_part_lem dir name k) refl

-- What `getProcessInfo` gives of a process whose files are well formed: true and the process id, the
-- number in the first line of `status` that starts with "Uid:", the arguments as they were given,
-- the first of them, the path of the executable and its part after the last slash. The arguments
-- are read in chunks that are not empty; the first argument is not empty, no argument and no path
-- has a 0, the path has a slash, and it is not longer than 255 bytes.
pub get_process_info-found :
    (pid uid : ℤ) (info : ProcessInfo) (before : List Bytes) (value after : Bytes)
    (chunks : List Bytes) (first : Bytes) (rest : List Bytes) (dir name : Bytes)
    → All IsOtherLine before
    → HasNo 10 value
    → stoi value ≡ some uid
    → All (λ c. 0 < length c) chunks
    → concat chunks ≡ glue (0 ∷ []) (first ∷ rest)
    → is_empty first ≡ false
    → All (HasNo 0) (first ∷ rest)
    → HasNo 0 (dir ++ (47 ∷ name))
    → HasNo 47 name
    → length (dir ++ (47 ∷ name)) ≤ 255
    → get_process_info pid info (record {
      status = some (glue (10 ∷ []) before ++ (codes "Uid:\t" ++ (value ++ (10 ∷ after))));
      cmdline_reads = chunks;
      exe_link = some (dir ++ (47 ∷ name));
    })
      ≡ some (
        true,
        record {
          pid = pid;
          uid = uid;
          name = name;
          exe = dir ++ (47 ∷ name);
          cmdline = first ∷ rest;
          argv0 = first;
        },
      )
unfolding get_process_info
get_process_info-found pid uid info before value after chunks first rest dir name b v u c g e n z s
      l =
    rw
      (
        uid_in-line before value after b v,
        u,
        set_cmdline_lem info chunks first rest c e n g,
        set_exe_lem
            (record {
              pid = pid;
              uid = uid;
              name = info.name;
              exe = info.exe;
              cmdline = first ∷ rest;
              argv0 = first;
            })
            dir name z s l,
      )
      refl
