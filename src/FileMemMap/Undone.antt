-- ===== src/FileMemMap/Undone.antt =====
-- src/utils/FileMemMap.cpp: an object that maps a file and goes.
use neo_group_captcha_bot.Common.{
  ℕ, ◌≡◌, ◌≢◌, refl, ◌∙◌, ◌%◌, ◌∷◌, List, two_64, ==_iff, arith, true, false, ◌==◌, if◌then◌else◌,
  Bool,
}
use neo_group_captcha_bot.FileMemMap.{
  FileMemMap, Process, Result, gives, fails, Mapping, new, page_size, close, map_length_of,
  map_open, map_file_path, unmap, destroy, remove_mapping,
}
use neo_group_captcha_bot.FileMemMap.Mapped.{close_first}

-- A mapping is not at the null pointer.
abbrev pub IsAddress : Result → Type 0
IsAddress (gives address) = address ≢ 0
IsAddress (fails err) = Unit

first_mapping : (a n : ℕ) (l : List (ℕ × ℕ)) → remove_mapping a n ((a, n) ∷ l) ≡ l
first_mapping a n l = ground (arith, ==_iff a a, ==_iff n n)

-- What the destructor leaves of the mappings, and that it does not touch the descriptors.
record Undone (p : Process) (r : Mapping) : Type 0 where
  mappings : (destroy r.map r.process (gives 0)).mappings ≡ p.mappings
  descriptors : r.process.descriptors ≡ p.descriptors

map_length_of-Undone :
    (p : Process) (length : ℕ) (mmap : Result)
    → IsAddress mmap
    → Undone p (map_length_of new p length mmap)
unfolding map_length_of destroy unmap new
map_length_of-Undone p length (fails err) a = ground arith
map_length_of-Undone p length (gives address) a =
    ground (arith, a, first_mapping address (page_size length) p.mappings)

choice-Undone :
    (p : Process) (b : Bool) (r q : Mapping)
    → Undone p r
    → Undone p q
    → Undone p (if b then r else q)
choice-Undone p true r q u v = u
choice-Undone p false r q u v = v

map_open-Undone :
    (p : Process) (length : ℕ) (stat mmap : Result)
    → IsAddress mmap
    → Undone p (map_open new p length stat mmap)
unfolding map_open
map_open-Undone p length (fails err) mmap a =
    choice-Undone p (length == 0) (record { map = new; process = p; code = err })
      (map_length_of new p length mmap)
      (unfold destroy new in record { mappings = refl; descriptors = refl })
      (map_length_of-Undone p length mmap a)
map_open-Undone p length (gives size) mmap a =
    choice-Undone p (length == 0) (map_length_of new p (size % two_64) mmap)
      (map_length_of new p length mmap) (map_length_of-Undone p (size % two_64) mmap a)
      (map_length_of-Undone p length mmap a)

Process-equal : (p q : Process) → p.descriptors ≡ q.descriptors → p.mappings ≡ q.mappings → p ≡ q
Process-equal p q d m = ground (arith, d, m)

-- The destructor does not look at the descriptors.
destroy_parts :
    (m : FileMemMap) (p : Process) (fd : ℕ)
    → ((destroy m (close fd p) (gives 0)).descriptors ≡ (close fd p).descriptors)
      × ((destroy m (close fd p) (gives 0)).mappings ≡ (destroy m p (gives 0)).mappings)
unfolding destroy unmap close
destroy_parts m p fd = ground arith

-- An object that maps a file and goes leaves the process as it was, whatever `open`, `fstat64` and
-- `mmap` give (not the null pointer) and whether the mapping succeeds or not, if `munmap` succeeds:
-- no descriptor and no mapping is left, and none of the others is lost.
pub map_file_path-undone :
    (p : Process) (length : ℕ) (opened stat mmap : Result)
    → IsAddress mmap
    → let r = map_file_path new p length opened stat mmap in destroy r.map r.process (gives 0) ≡ p
unfolding map_file_path destroy
map_file_path-undone p length (fails err) stat mmap a = unfold new in refl
map_file_path-undone p length (gives fd) stat mmap a =
    let p1 = record p { descriptors = fd ∷ p.descriptors } in
    let r = map_open new p1 length stat mmap in
    let u = map_open-Undone p1 length stat mmap a in
    let (kept, gone) = destroy_parts r.map r.process fd in
    Process-equal (destroy r.map (close fd r.process) (gives 0)) p
      (kept ∙ close_first fd r.process p.descriptors u.descriptors) (gone ∙ u.mappings)
