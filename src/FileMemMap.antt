-- ===== src/FileMemMap.antt =====
-- src/utils/FileMemMap.cpp: mapping a file, over what `open`, `fstat64`, `mmap` and `munmap` give.
pub mod Mapped
pub mod Undone
use neo_group_captcha_bot.Common.{
  ℕ, ◌+◌, ◌*◌, ◌/◌, ◌%◌, Bool, true, false, ◌&&◌, not, List, [], ◌∷◌, two_64, ◌==◌, if◌then◌else◌,
}

-- 0 is the null pointer.
pub record FileMemMap : Type 0 where
  pub address : ℕ
  pub map_length : ℕ  -- size_t
  pub length : ℕ  -- size_t

-- What the process holds: its descriptors, and its mappings with their lengths.
pub record Process : Type 0 where
  pub descriptors : List ℕ
  pub mappings : List (ℕ × ℕ)

-- The value of a system call, or the error number that it sets.
pub data Result : Type 0 where
  gives : ℕ → Result
  fails : ℕ → Result

pub record Mapping : Type 0 where
  pub map : FileMemMap
  pub process : Process
  pub code : ℕ  -- the `int` that is returned

unfoldable pub new : FileMemMap
new = record { address = 0; map_length = 0; length = 0 }

-- EINVAL and EBADFD.
abbrev pub einval : ℕ
einval = 22

abbrev pub ebadfd : ℕ
ebadfd = 77

-- `(length + PAGE_SIZE - 1) & PAGE_MASK`, with pages of 4096 bytes.
unfoldable pub page_size : ℕ → ℕ
page_size length = ((length + 4095) % two_64) / 4096 * 4096

abbrev pub remove_first : ℕ → List ℕ → List ℕ
remove_first fd [] = []
remove_first fd (x ∷ xs) = if x == fd then xs else x ∷ remove_first fd xs

unfoldable pub close : ℕ → Process → Process
close fd p = record p { descriptors = remove_first fd p.descriptors }

-- From the length on: `mmap`, and the members.
unfoldable pub map_length_of : FileMemMap → Process → ℕ → Result → Mapping
unfolding page_size
map_length_of m p length mmap =
    if length == 0 then record { map = m; process = p; code = einval } else elim mmap [
      | fails err ↦ record { map = m; process = p; code = err }
      | gives address ↦ record {
        map = record { address = address; map_length = page_size length; length = length };
        process = record p { mappings = (address, page_size length) ∷ p.mappings };
        code = 0;
      }
    ]

-- The length that is given, or that of the file if it is 0; then the mapping.
unfoldable pub map_open : FileMemMap → Process → ℕ → Result → Result → Mapping
unfolding map_length_of
map_open m p length stat mmap =
    if length == 0
    then elim stat [
      | fails err ↦ record { map = m; process = p; code = err }
      | gives size ↦ map_length_of m p (size % two_64) mmap
    ]
    else map_length_of m p length mmap

-- Every return after `open` has closed the descriptor.
unfoldable pub map_file_path : FileMemMap → Process → ℕ → Result → Result → Result → Mapping
unfolding map_open close
map_file_path m p length opened stat mmap = elim opened [
  | fails err ↦ record { map = m; process = p; code = err }
  | gives fd ↦
      let r = map_open m (record p { descriptors = fd ∷ p.descriptors }) length stat mmap in
      record r { process = close fd r.process }
]

-- The descriptor is the caller's; a negative one is `is_valid ≡ false`.
unfoldable pub map_file_descriptor : FileMemMap → Process → Bool → ℕ → Result → Result → Mapping
unfolding map_open
map_file_descriptor m p is_valid length stat mmap =
    if is_valid
    then map_open m p length stat mmap
    else record { map = m; process = p; code = ebadfd }

abbrev pub remove_mapping : ℕ → ℕ → List (ℕ × ℕ) → List (ℕ × ℕ)
remove_mapping address size [] = []
remove_mapping address size ((a, n) ∷ rest) =
    if a == address && n == size then rest else (a, n) ∷ remove_mapping address size rest

-- With what `munmap` gives.
unfoldable pub unmap : FileMemMap → Process → Result → FileMemMap × Process
unfolding new
unmap m p (fails err) = (m, p)
unmap m p (gives value) =
    if not (m.address == 0) && value == 0
    then (new, record p { mappings = remove_mapping m.address m.map_length p.mappings })
    else (m, p)

unfoldable pub destroy : FileMemMap → Process → Result → Process
unfolding unmap
destroy m p munmap = if not (m.address == 0) then (unmap m p munmap).1 else p

unfoldable pub detach : FileMemMap → FileMemMap
unfolding new
detach m = new

abbrev pub is_valid : FileMemMap → Bool
is_valid m = not (m.address == 0) && not (m.length == 0)
