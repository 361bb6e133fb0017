-- ===== src/ProcessUtils/Listing.antt =====
-- src/utils/ProcessUtils.cpp: which processes `getRunningProcessInfo` lists.
use neo_group_captcha_bot.Common.{
  ◌≡◌, refl, ap, sym, inl, inr, ◌++◌, Bool, true, false, ◌&&◌, List, [], ◌∷◌, Option, none, some, ℤ,
  Bytes, is_empty, length, map, All, if◌then◌else◌, arith, Bool-cases, length-append,
}
use neo_group_captcha_bot.TextUtils.{split_string}
use neo_group_captcha_bot.TextUtils.Split.{glue, split_string_covers}
use neo_group_captcha_bot.ProcessUtils.Numbers.{stoi}
use neo_group_captcha_bot.ProcessUtils.{
  ProcessInfo, ProcessFiles, Entry, round_with_pid, listed_uid, all_digits, with_arguments,
  set_cmdline, set_exe, round, and_rest, no_info, get_running_process_info, read_all,
  without_last_nul, linked,
}

-- Splitting the bytes of `cmdline` ends and gives a first argument, whatever the bytes are.
with_arguments-some :
    (info : ProcessInfo) (bytes : Bytes)
    → is_empty bytes ≡ false
    → (info' : ProcessInfo) × (with_arguments info (split_string bytes (0 ∷ [])) ≡ some info')
with_arguments-some info bytes h =
    let (parts, rest, e, covers, short) = split_string_covers bytes (0 ∷ []) h refl in
    elim parts
        as (λ ps.
          split_string bytes (0 ∷ []) ≡ some ps
          → bytes ++ (0 ∷ []) ≡ glue (0 ∷ []) ps ++ rest
          → (info' : ProcessInfo) × (with_arguments info (split_string bytes (0 ∷ []))
              ≡ some info')) [
                | [] ↦
                    λ e c. absurd (omega (arith, short, ap length c, length-append bytes (0 ∷ [])))
                | first ∷ others ↦
                    λ e c. (record info { cmdline = first ∷ others; argv0 = first }, rw e refl)
              ]
      e covers

set_cmdline-some :
    (info : ProcessInfo) (calls : List Bytes)
    → (info' : ProcessInfo) × (set_cmdline info calls ≡ some info')
unfolding set_cmdline
set_cmdline-some info calls =
    let bytes = without_last_nul (read_all calls) in
    elim (Bool-cases (is_empty bytes)) [
      | inl t ↦ (info, rw t refl)
      | inr f ↦ rw f (with_arguments-some info bytes f)
    ]

-- The entries that are of a process, and its number: directories with a name of digits.
abbrev pub is_process : Entry → Bool
is_process e = e.is_dir && all_digits e.entry_name

-- A process can be read if its number is an `int` and the line of its user can be read.
abbrev pub IsReadable : Entry → Type 0
IsReadable e =
    is_process e ≡ true
    → ((pid : ℤ) × (stoi e.entry_name ≡ some pid))
      × ((uid : ℤ) × (listed_uid e.files.status ≡ some uid))

-- Their numbers, in the order of the directory, without those whose executable is not known.
abbrev and_pid : Option ℤ → Option Bytes → List ℤ → List ℤ
and_pid none exe_link pids = pids
and_pid (some pid) none pids = pids
and_pid (some pid) (some target) pids = pid ∷ pids

abbrev pub process_numbers : List Entry → List ℤ
process_numbers [] = []
process_numbers (e ∷ es) =
    let later = process_numbers es in
    if is_process e then and_pid (stoi e.entry_name) e.files.exe_link later else later

set_exe-pid : (info : ProcessInfo) (target : Bytes) → (set_exe info target).pid ≡ info.pid
unfolding set_exe linked
set_exe-pid info target = elim (Bool-cases (is_empty (linked target))) [
  | inl t ↦ rw t refl
  | inr f ↦ rw f refl
]

-- What a round adds to the result.
round-with :
    (files : ProcessFiles) (pid uid : ℤ) (exe_link : Option Bytes) (infos : List ProcessInfo)
    → listed_uid files.status ≡ some uid
    → (infos' : List ProcessInfo) × (and_rest
          (round_with_pid files (some pid) exe_link)
          (some infos)
        ≡ some infos')
      × (map (λ info. info.pid) infos' ≡ and_pid (some pid) exe_link (map (λ info. info.pid) infos))
round-with files pid uid none infos h = (infos, refl, refl)
round-with files pid uid (some target) infos h =
    let (info, e) = set_cmdline-some no_info files.cmdline_reads in
    let made : ProcessInfo = set_exe (record info { pid = pid; uid = uid }) target in
    (
      made ∷ infos,
      rw (h, e) refl,
      ap (λ p. p ∷ map (λ info. info.pid) infos)
          (set_exe-pid (record info { pid = pid; uid = uid }) target),
    )

-- If each process of the directory can be read, `getRunningProcessInfo` does not throw and gives
-- exactly the processes whose executable is known, in the order of the directory.
pub get_running_process_info_lem :
    (es : List Entry)
    → All IsReadable es
    → (infos : List ProcessInfo) × (get_running_process_info es ≡ some infos)
      × (map (λ info. info.pid) infos ≡ process_numbers es)
unfolding get_running_process_info round
get_running_process_info_lem [] h = ([], refl, refl)
get_running_process_info_lem (e ∷ es) (h, hs) =
    let (infos, r, numbers) = get_running_process_info_lem es hs in
    elim (Bool-cases (is_process e)) [
      | inr f ↦ rw (f, r) (infos, refl, numbers)
      | inl t ↦
          let ((pid, p), (uid, u)) = h t in
          let (infos', a, b) = round-with e.files pid uid e.files.exe_link infos u in
          rw (t, p, r) (infos', a, rw (sym numbers) b)
    ]
