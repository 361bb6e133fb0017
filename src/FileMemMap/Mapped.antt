-- ===== src/FileMemMap/Mapped.antt =====
-- src/utils/FileMemMap.cpp: every end of `mapFilePath`.
use neo_group_captcha_bot.Common.{
  ℕ, ◌+◌, ◌%◌, ◌≤◌, ◌<◌, ◌≡◌, ◌≢◌, ◌^◌, ap, ◌⊎◌, List, ◌∷◌, two_64, ==_iff, arith, ◌==◌,
  if◌then◌else◌,
}
use neo_group_captcha_bot.FileMemMap.{
  FileMemMap, Process, Result, gives, fails, Mapping, page_size, close, map_length_of, map_open,
  map_file_path, remove_first,
}

-- A system call that fails sets an error number that is not 0.
abbrev pub IsErrno : Result → Type 0
IsErrno (gives value) = Unit
IsErrno (fails err) = err ≢ 0

-- A file is not longer than 2^63 bytes.
abbrev pub IsSize : Result → Type 0
IsSize (gives size) = size ≤ 2 ^ 63
IsSize (fails err) = Unit

-- How a mapping of that many bytes ends: nothing has changed and the code is not 0, or the members
-- describe a mapping of whole pages that holds the length and less than a page more, and the
-- process has it.
abbrev pub IsMapEnd : FileMemMap → Process → ℕ → Mapping → Type 0
IsMapEnd m p wanted r =
    ((r.code ≢ 0) × (r.map ≡ m) × (r.process.mappings ≡ p.mappings))
    ⊎ ((r.code ≡ 0)
        × (wanted ≢ 0)
        × (r.map.length ≡ wanted)
        × (r.map.length ≤ r.map.map_length)
        × (r.map.map_length < r.map.length + 4096)
        × (r.map.map_length % 4096 ≡ 0)
        × (r.process.mappings ≡ (r.map.address, r.map.map_length) ∷ p.mappings))

-- The bytes to map: as many as the argument says, or all of the file if it is 0.
abbrev pub wanted_length : ℕ → Result → ℕ
wanted_length length (fails err) = length
wanted_length length (gives size) = if length == 0 then size else length

page_size_lem :
    (length : ℕ)
    → length ≤ 2 ^ 63
    → (length ≤ page_size length)
      × (page_size length < length + 4096)
      × (page_size length % 4096 ≡ 0)
unfolding page_size
page_size_lem length h = omega (arith, h)

map_length_of-IsMapEnd :
    (m : FileMemMap) (p : Process) (length : ℕ) (mmap : Result)
    → IsErrno mmap
    → length ≤ 2 ^ 63
    → IsMapEnd m p length (map_length_of m p length mmap)
      × ((map_length_of m p length mmap).process.descriptors ≡ p.descriptors)
unfolding map_length_of
map_length_of-IsMapEnd m p length (fails err) e h = ground (arith, e, h)
map_length_of-IsMapEnd m p length (gives address) e h = ground (arith, page_size_lem length h)

small_lem : (size : ℕ) → size ≤ 2 ^ 63 → size % two_64 ≡ size
small_lem size h = omega (arith, h)

map_open-IsMapEnd :
    (m : FileMemMap) (p : Process) (length : ℕ) (stat mmap : Result)
    → IsErrno stat
    → IsErrno mmap
    → IsSize stat
    → length ≤ 2 ^ 63
    → IsMapEnd m p (wanted_length length stat) (map_open m p length stat mmap)
      × ((map_open m p length stat mmap).process.descriptors ≡ p.descriptors)
unfolding map_open
map_open-IsMapEnd m p length (fails err) mmap d e s h =
    ground (arith, d, map_length_of-IsMapEnd m p length mmap e h)
map_open-IsMapEnd m p length (gives size) mmap d e s h = ground (
  arith,
  map_length_of-IsMapEnd m p length mmap e h,
  map_length_of-IsMapEnd m p (size % two_64) mmap e (omega (arith, s)),
  s,
  small_lem size s,
)

pub close_first :
    (fd : ℕ) (p : Process) (fds : List ℕ)
    → p.descriptors ≡ fd ∷ fds
    → (close fd p).descriptors ≡ fds
unfolding close
close_first fd p fds e = ground (arith, ap (remove_first fd) e, ==_iff fd fd)

-- Whatever the system calls give, for lengths of up to 2^63 bytes: `mapFilePath` leaves no
-- descriptor open, and it either returns an error number that is not 0 and changes nothing, or
-- returns 0 and the object has the length of the argument, or that of the file if the argument is 0
-- (which is then not 0), with a mapping of whole pages that holds that length and less than a page
-- more.
pub map_file_path_lem :
    (m : FileMemMap) (p : Process) (length : ℕ) (opened stat mmap : Result)
    → IsErrno opened
    → IsErrno stat
    → IsErrno mmap
    → IsSize stat
    → length ≤ 2 ^ 63
    → let r = map_file_path m p length opened stat mmap in
      (r.process.descriptors ≡ p.descriptors) × IsMapEnd m p (wanted_length length stat) r
unfolding map_file_path
map_file_path_lem m p length (fails err) stat mmap c d e s h = ground (arith, c)
map_file_path_lem m p length (gives fd) stat mmap c d e s h =
    let p1 = record p { descriptors = fd ∷ p.descriptors } in
    let r = map_open m p1 length stat mmap in
    let (end, kept) = map_open-IsMapEnd m p1 length stat mmap d e s h in
    (close_first fd r.process p.descriptors kept, unfold close in end)
