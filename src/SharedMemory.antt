-- ===== src/SharedMemory.antt =====
-- src/utils/shared_memory.cpp: regions of memory behind a descriptor, over what the system calls
-- give. A descriptor is a number; a call that fails sets `errno` to the number that it carries.
pub mod Regions
pub mod Copy
use neo_group_captcha_bot.Common.{
  ℕ, suc, ◌+◌, ◌*◌, ◌/◌, ◌%◌, ◌++◌, Bool, true, false, ◌||◌, not, List, [], ◌∷◌, Option, none, some,
  ℤ, pos, negsuc, Bytes, two_64, length, take, drop, replicate, ltb, ltb_ℤ, ◌==◌, if◌then◌else◌,
}
use neo_group_captcha_bot.IoUtils.{negated}
use neo_group_captcha_bot.FileMemMap.{Result, gives, fails, remove_first}

-- The descriptors that the process has open, and what is returned.
pub record Opened : Type 0 where
  pub descriptors : List ℕ
  pub value : ℤ

-- `memfd_create_region_post_q`, over the results of `memfd_create` and `ftruncate`.
unfoldable pub memfd_create_region : List ℕ → Result → Result → Opened
memfd_create_region fds (fails err) truncate = record { descriptors = fds; value = negated err }
memfd_create_region fds (gives fd) (gives r) = record { descriptors = fd ∷ fds; value = pos fd }
memfd_create_region fds (gives fd) (fails err) = record {
  descriptors = remove_first fd (fd ∷ fds);
  value = negated err;
}

-- `testMemfdSupport`, over the results of `memfd_create` and `fcntl`.
unfoldable pub test_memfd_support : List ℕ → Result → Result → List ℕ × Bool
test_memfd_support fds (fails err) seal = (fds, false)
test_memfd_support fds (gives fd) (fails err) = (remove_first fd (fd ∷ fds), false)
test_memfd_support fds (gives fd) (gives r) = (remove_first fd (fd ∷ fds), true)

-- `has_memfd_support`: the static variable, `none` before the first call.
unfoldable pub has_memfd_support :
    Option Bool → List ℕ → Result → Result → Option Bool × (List ℕ × Bool)
unfolding test_memfd_support
has_memfd_support (some known) fds create seal = (some known, (fds, known))
has_memfd_support none fds create seal =
    let (fds', supported) = test_memfd_support fds create seal in
    (some supported, (fds', supported))

-- What `fstat` says of the device: an error, or whether it is a character device with a number.
pub data Device : Type 0 where
  no_stat : Device
  is_device : Bool → Device

-- `ashmem_open_legacy`. A descriptor that could not be opened is -1, which `fstat` refuses and
-- `close` passes over.
unfoldable pub ashmem_open_legacy : List ℕ → Result → Device → Opened
ashmem_open_legacy fds (fails err) device = record { descriptors = fds; value = negsuc 0 }
ashmem_open_legacy fds (gives fd) no_stat = record {
  descriptors = remove_first fd (fd ∷ fds);
  value = negsuc 0;
}
ashmem_open_legacy fds (gives fd) (is_device true) = record {
  descriptors = fd ∷ fds;
  value = pos fd;
}
ashmem_open_legacy fds (gives fd) (is_device false) = record {
  descriptors = remove_first fd (fd ∷ fds);
  value = negsuc 0;
}

-- The size that is asked for: whole pages, computed as a `size_t`.
unfoldable pub region_size : ℕ → ℕ → ℕ
region_size page size = if size % page == 0 then size else page * (size / page + 1) % two_64

-- The system calls of one run of `ashmem_create_region`.
pub record Calls : Type 0 where
  pub create : Result  -- memfd_create
  pub truncate : Result
  pub open_device : Result
  pub device : Device
  pub set_name : Result
  pub set_size : Result

abbrev pub is_failure : Result → Bool
is_failure (gives value) = false
is_failure (fails err) = true

-- After the device is open: the name, if there is one, and the size. `ioctl` fails with -1.
unfoldable pub name_and_size : List ℕ → ℤ → Bool → Calls → Opened
name_and_size fds (negsuc n) has_name calls = record { descriptors = fds; value = negsuc n }
name_and_size fds (pos fd) has_name calls =
    if (if has_name then is_failure calls.set_name else false) || is_failure calls.set_size
    then record { descriptors = remove_first fd fds; value = negsuc 0 }
    else record { descriptors = fds; value = pos fd }

-- `ashmem_create_region`, with what `has_memfd_support` says.
unfoldable pub ashmem_create_region : List ℕ → Bool → Bool → Calls → Opened
unfolding memfd_create_region ashmem_open_legacy name_and_size
ashmem_create_region fds supported has_name calls =
    if supported
    then memfd_create_region fds calls.create calls.truncate
    else let r = ashmem_open_legacy fds calls.open_device calls.device in
      name_and_size r.descriptors r.value has_name calls

-- A file in memory, and the place at which it is written next.
pub record MemFile : Type 0 where
  pub bytes : Bytes
  pub offset : ℕ

-- `write`, which writes the first `count` bytes of the chunk.
unfoldable pub write : MemFile → Bytes → ℕ → MemFile
write f chunk count = record {
  bytes = take f.offset f.bytes ++ (take count chunk ++ drop (f.offset + count) f.bytes);
  offset = f.offset + count;
}

-- What `read` gives: bytes (none at the end of the file) or an error. With it, how many bytes the
-- `write` that follows takes.
pub data Read : Type 0 where
  reads : Bytes → ℕ → Read
  breaks : ℕ → Read

abbrev is_nil : Bytes → Bool
is_nil [] = true
is_nil (c ∷ cs) = false

-- The loop: the file as it is after it, and the error of the last `read`, or 0.
unfoldable pub copy_loop : MemFile → List Read → MemFile × ℕ
unfolding write
copy_loop f [] = (f, 0)
copy_loop f (breaks err ∷ rest) = (f, err)
copy_loop f (reads [] count ∷ rest) = (f, 0)
copy_loop f (reads (c ∷ cs) count ∷ rest) = copy_loop (write f (c ∷ cs) count) rest

-- The system calls of one run of `copy_file_to_memfd`.
pub record CopyCalls : Type 0 where
  pub stat : Result
  pub seek_current : Result  -- lseek64(fd, 0, SEEK_CUR)
  pub create : Result
  pub truncate : Result
  pub seek_start : Result  -- lseek(fd, 0, SEEK_SET)
  pub reads_of : List Read
  pub seek_back : Result  -- lseek64(fd, originOffset, SEEK_SET)

-- What is returned, the open descriptors, the new file if there is one, and the place in the source
-- at which it is read next.
pub record Copied : Type 0 where
  pub value : ℤ
  pub descriptors : List ℕ
  pub file : Option MemFile
  pub place : ℕ

-- An error that is found before the source is moved, or after it was moved back.
abbrev pub refused : List ℕ → ℕ → ℕ → Copied
refused fds place err = record {
  value = negated err;
  descriptors = fds;
  file = none;
  place = place;
}

-- How far the source is read.
abbrev pub read_length : List Read → ℕ
read_length [] = 0
read_length (breaks err ∷ rest) = 0
read_length (reads [] count ∷ rest) = 0
read_length (reads (c ∷ cs) count ∷ rest) = suc (length cs) + read_length rest

-- The place after `lseek64(fd, origin, SEEK_SET)`.
abbrev pub moved_back : Result → ℕ → ℕ → ℕ
moved_back (gives _) origin place = origin
moved_back (fails err) origin place = place

-- ENOSYS, EINVAL and ENOMEM.
abbrev pub enosys : ℕ
enosys = 38

abbrev pub einval : ℕ
einval = 22

abbrev pub enomem : ℕ
enomem = 12

abbrev pub size_limit : ℕ
size_limit = 64 * 1024 * 1024

-- From the loop on: the source stands at its start.
unfoldable pub fill : List ℕ → ℕ → ℕ → ℕ → CopyCalls → Copied
unfolding copy_loop
fill fds fd size origin calls =
    let (f, err) = copy_loop (record { bytes = replicate size 0; offset = 0 }) calls.reads_of in
    let place = moved_back calls.seek_back origin (read_length calls.reads_of) in
    if err == 0
    then record {
      value = pos fd;
      descriptors = fd ∷ fds;
      file = some (record f { offset = 0 });
      place = place;
    }
    else refused (remove_first fd (fd ∷ fds)) place err

-- From `memfd_create` on: its result, that of `ftruncate` and that of the seek to the start.
unfoldable pub fill_new : List ℕ → ℕ → ℕ → ℕ → Result → Result → Result → CopyCalls → Copied
unfolding fill
fill_new fds size place origin (fails err) truncate start calls = refused fds place err
fill_new fds size place origin (gives fd) (fails err) start calls =
    refused (remove_first fd (fd ∷ fds)) place err
fill_new fds size place origin (gives fd) (gives _) (fails err) calls =
    refused (remove_first fd (fd ∷ fds)) place err
fill_new fds size place origin (gives fd) (gives _) (gives _) calls = fill fds fd size origin calls

-- From the size on, with what `lseek64(fd, 0, SEEK_CUR)` gives.
unfoldable pub copy_sized : List ℕ → ℕ → ℕ → Result → CopyCalls → Copied
unfolding fill_new
copy_sized fds size place seek_current calls =
    if size == 0
    then refused fds place einval
    else if ltb size_limit size
    then refused fds place enomem
    else elim seek_current [
      | fails err ↦ refused fds place err
      | gives origin ↦
          fill_new fds size place origin calls.create calls.truncate calls.seek_start calls
    ]

-- `copy_file_to_memfd`, of a source that is read next at `place`; its size is not negative.
unfoldable pub copy_file_to_memfd : List ℕ → Bool → ℕ → CopyCalls → Copied
unfolding copy_sized
copy_file_to_memfd fds supported place calls =
    if not supported then refused fds place enosys else elim calls.stat [
      | fails err ↦ refused fds place err
      | gives size ↦ copy_sized fds size place calls.seek_current calls
    ]
