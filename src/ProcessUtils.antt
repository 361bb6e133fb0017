-- ===== src/ProcessUtils.antt =====
-- src/utils/ProcessUtils.cpp: what is read of the processes under /proc. What the files there hold is
-- a parameter. A function returns `none` where the source throws.
pub mod Numbers
pub mod Info
pub mod Listing
use neo_group_captcha_bot.Common.{
  ℕ, zero, suc, ◌+◌, ◌++◌, Bool, true, false, ◌&&◌, ◌||◌, List, [], ◌∷◌, Option, none, some, ℤ, pos,
  negsuc, Bytes, codes, bytes_eq, starts_with, is_empty, length, take, drop, ltb, ◌==◌,
  if◌then◌else◌,
}
use neo_group_captcha_bot.TextUtils.{split_string}
use neo_group_captcha_bot.IoUtils.{negated}
use neo_group_captcha_bot.FileUtils.{path_separator, find_last_of}
use neo_group_captcha_bot.ProcessUtils.Numbers.{is_digit, stoi}

pub record ProcessInfo : Type 0 where
  pub pid : ℤ
  pub uid : ℤ
  pub name : Bytes
  pub exe : Bytes
  pub cmdline : List Bytes
  pub argv0 : Bytes

-- `ProcessInfo processInfo = {};`
abbrev pub no_info : ProcessInfo
no_info = record { pid = pos 0; uid = pos 0; name = []; exe = []; cmdline = []; argv0 = [] }

-- What there is of a process: the bytes of its `status`, `none` if it does not open; what the calls
-- of `read` give of its `cmdline`, none if it does not open, an error being no bytes; and where its
-- `exe` points to.
pub record ProcessFiles : Type 0 where
  pub status : Option Bytes
  pub cmdline_reads : List Bytes
  pub exe_link : Option Bytes

-- The lines that `std::getline` gives.
abbrev pub begin_line : ℕ → List Bytes → List Bytes
begin_line c [] = (c ∷ []) ∷ []
begin_line c (l ∷ ls) = (c ∷ l) ∷ ls

unfoldable pub lines : Bytes → List Bytes
lines [] = []
lines (c ∷ cs) = let later = lines cs in if c == 10 then [] ∷ later else begin_line c later

-- `std::stoi(line.substr(5))`, and the first line that starts with "Uid:".
unfoldable pub uid_of_line : Bytes → Option ℤ
uid_of_line line = if ltb (length line) 5 then none else stoi (drop 5 line)

unfoldable pub uid_in : List Bytes → Option ℤ
unfolding uid_of_line
uid_in [] = some (negsuc 0)
uid_in (line ∷ rest) =
    let later = uid_in rest in if starts_with (codes "Uid:") line then uid_of_line line else later

-- The loop that reads `cmdline`.
unfoldable pub read_all : List Bytes → Bytes
read_all [] = []
read_all ([] ∷ rest) = []
read_all ((c ∷ cs) ∷ rest) = (c ∷ cs) ++ read_all rest

-- `pop_back` if the last byte is 0.
unfoldable pub without_last_nul : Bytes → Bytes
without_last_nul [] = []
without_last_nul (c ∷ []) = if c == 0 then [] else c ∷ []
without_last_nul (c ∷ d ∷ rest) = c ∷ without_last_nul (d ∷ rest)

-- `info.cmdline` and `info.argv0`, which stay as they are if there are no bytes. `none` if the
-- splitting does not end or there is no first part.
abbrev pub with_arguments : ProcessInfo → Option (List Bytes) → Option ProcessInfo
with_arguments info none = none
with_arguments info (some []) = none
with_arguments info (some (first ∷ rest)) =
    some (record info { cmdline = first ∷ rest; argv0 = first })

unfoldable pub set_cmdline : ProcessInfo → List Bytes → Option ProcessInfo
unfolding read_all without_last_nul
set_cmdline info calls =
    let bytes = without_last_nul (read_all calls) in
    if is_empty bytes then some info else with_arguments info (split_string bytes (0 ∷ []))

-- `readlink` with 255 bytes of room, then the bytes as a C string.
unfoldable pub c_string : Bytes → Bytes
c_string [] = []
c_string (c ∷ cs) = let later = c_string cs in if c == 0 then [] else c ∷ later

unfoldable pub linked : Bytes → Bytes
unfolding c_string
linked target = c_string (take 255 target)

-- The part of the path after the last '/'.
unfoldable pub last_part : Bytes → Bytes
last_part path = elim (find_last_of path path_separator) [
  | none ↦ path
  | some p ↦ drop (suc p) path
]

-- `info.exe` and `info.name`, which stays as it is if the path is empty.
unfoldable pub set_exe : ProcessInfo → Bytes → ProcessInfo
unfolding linked last_part
set_exe info target =
    let exe = linked target in
    if is_empty exe
    then record info { exe = exe }
    else record info { exe = exe; name = last_part exe }

-- `getProcessInfo`: what is returned, and `info`. `none` where it throws.
abbrev pub found : ProcessInfo → Option Bytes → Bool × ProcessInfo
found info none = (false, info)
found info (some target) = (true, set_exe info target)

abbrev pub identified : ℤ → ℤ → Option Bytes → Option ProcessInfo → Option (Bool × ProcessInfo)
identified pid uid exe_link none = none
identified pid uid exe_link (some info) =
    some (found (record info { pid = pid; uid = uid }) exe_link)

abbrev pub info_with_uid : ℤ → ProcessInfo → ProcessFiles → Option ℤ → Option (Bool × ProcessInfo)
info_with_uid pid info files none = none
info_with_uid pid info files (some uid) =
    identified pid uid files.exe_link (set_cmdline info files.cmdline_reads)

unfoldable pub get_process_info : ℤ → ProcessInfo → ProcessFiles → Option (Bool × ProcessInfo)
unfolding uid_in lines set_cmdline set_exe
get_process_info pid info files = elim files.status [
  | none ↦ some (false, info)
  | some text ↦ info_with_uid pid info files (uid_in (lines text))
]

-- An entry of /proc, with what there is of a process of that name.
pub record Entry : Type 0 where
  pub is_dir : Bool
  pub entry_name : Bytes
  pub files : ProcessFiles

abbrev pub all_digits : Bytes → Bool
all_digits [] = true
all_digits (c ∷ cs) = is_digit c && all_digits cs

-- The uid in the listing: -1 if `status` does not open.
unfoldable pub listed_uid : Option Bytes → Option ℤ
unfolding uid_in lines
listed_uid none = some (negsuc 0)
listed_uid (some text) = uid_in (lines text)

abbrev pub with_exe : ℤ → ℤ → Bytes → Option ProcessInfo → Option ProcessInfo
with_exe pid uid target none = none
with_exe pid uid target (some info) = some (set_exe (record info { pid = pid; uid = uid }) target)

abbrev pub listed_with_uid : ℤ → Bytes → List Bytes → Option ℤ → Option ProcessInfo
listed_with_uid pid target calls none = none
listed_with_uid pid target calls (some uid) = with_exe pid uid target (set_cmdline no_info calls)

-- One round of the loop: it throws, passes the entry over, or adds a process.
pub data Round : Type 0 where
  throws : Round
  passed_over : Round
  adds : ProcessInfo → Round

abbrev pub added : Option ProcessInfo → Round
added none = throws
added (some info) = adds info

abbrev pub round_with_pid : ProcessFiles → Option ℤ → Option Bytes → Round
round_with_pid files none exe_link = throws
round_with_pid files (some pid) none = passed_over
round_with_pid files (some pid) (some target) =
    added (listed_with_uid pid target files.cmdline_reads (listed_uid files.status))

unfoldable pub round : Entry → Round
unfolding listed_uid set_cmdline set_exe
round e =
    if e.is_dir && all_digits e.entry_name
    then round_with_pid e.files (stoi e.entry_name) e.files.exe_link
    else passed_over

-- `getRunningProcessInfo`; without entries if /proc does not open.
abbrev pub and_rest : Round → Option (List ProcessInfo) → Option (List ProcessInfo)
and_rest throws rest = none
and_rest passed_over rest = rest
and_rest (adds info) none = none
and_rest (adds info) (some infos) = some (info ∷ infos)

unfoldable pub get_running_process_info : List Entry → Option (List ProcessInfo)
unfolding round
get_running_process_info [] = some []
get_running_process_info (e ∷ es) = and_rest (round e) (get_running_process_info es)

-- `getKernelArchitecture`, over the error of `uname` (0 if there is none) and the machine.
unfoldable pub get_kernel_architecture : ℕ → Bytes → ℤ
get_kernel_architecture err machine =
    if ltb 0 err
    then negated err
    else if bytes_eq machine (codes "x86_64")
    then pos 62
    else if bytes_eq machine (codes "x86")
    then pos 3
    else if bytes_eq machine (codes "arm")
    then pos 40
    else if bytes_eq machine (codes "aarch64")
    then pos 183
    else negated 95

-- `getCurrentExecutablePath`, over what `readlink` gives: no more than PATH_MAX bytes.
unfoldable pub get_current_executable_path : Option Bytes → Bytes
get_current_executable_path none = []
get_current_executable_path (some target) = take 4096 target
