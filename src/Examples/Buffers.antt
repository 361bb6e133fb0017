-- ===== src/Examples/Buffers.antt =====
-- src/utils/SharedBuffer.cpp, src/utils/shared_memory.cpp and src/utils/auto_close_fd.cpp: a buffer
-- that grows, a copy of it, a file that is copied in two chunks.
use neo_group_captcha_bot.Common.{
  ℕ, ◌≡◌, refl, Bool, true, ◌&&◌, ◌||◌, ◌==◌, length, if◌then◌else◌, List, [], ◌∷◌, Option, some,
  pos, Bytes, ltb, codes, arith,
}
use neo_group_captcha_bot.SharedBuffer.{SharedBufferImpl, reset_size, grown_size, quotient, returns}
use neo_group_captcha_bot.Single.{to_single}
use neo_group_captcha_bot.SharedBuffer.Handles
use neo_group_captcha_bot.SharedBuffer.Resize.{IsValid}
use neo_group_captcha_bot.SharedBuffer.Handles.{Heap, copy, impl_of, to_vector, at, store}
use neo_group_captcha_bot.SharedBuffer.Handles.Copies.{Apart, copy_lem}
use neo_group_captcha_bot.SharedBuffer.Owners
use neo_group_captcha_bot.SharedBuffer.Owners.{start, use_count}
use neo_group_captcha_bot.SharedBuffer.Owners.Balance.{times}
use neo_group_captcha_bot.SharedBuffer.Owners.Life.{impl_once}
use neo_group_captcha_bot.FileMemMap.{gives}
use neo_group_captcha_bot.SharedMemory.{CopyCalls, reads, breaks, copy_file_to_memfd}
use neo_group_captcha_bot.SharedMemory.Copy.{
  IsCopyEnd, in_full, copy_file_to_memfd-IsCopyEnd, copy_file_to_memfd-in_full,
}
use neo_group_captcha_bot.AutoCloseFd.{
  ends, interrupted, close_called, Call, call_get, call_detach, call_close, new, run,
}
use neo_group_captcha_bot.AutoCloseFd.Once.{run_lem}

-- Memory for less than 100 bytes at once.
abbrev small_malloc : ℕ → Bool
small_malloc size = ltb size 100

abbrev three : SharedBufferImpl
three = record { buffer = some (7 ∷ 8 ∷ 9 ∷ []); size = 3; actual_size = 3 }

three-IsValid : IsValid three
three-IsValid = (refl, omega arith)

-- Six bytes with room for two more.
grown : reset_size small_malloc three 6 true ≡ (
  record { buffer = some (7 ∷ 8 ∷ 9 ∷ 0 ∷ 0 ∷ 0 ∷ 0 ∷ 0 ∷ []); size = 6; actual_size = 8 },
  returns true,
)
unfolding reset_size grown_size quotient to_single
grown = refl

abbrev heap : Heap
heap = three ∷ []

abbrev after_copy : Heap × Option ℕ
after_copy = (three ∷ three ∷ [], some 1)

copies : copy small_malloc heap (some 0) ≡ some after_copy
unfolding copy Handles.size reset_size to_vector
copies = refl

copy_lem_example : Apart small_malloc heap (to_vector heap (some 0)) 0 50 true after_copy
unfolding at
copy_lem_example =
    copy_lem small_malloc heap (some 0) after_copy 0 50 true three-IsValid copies (omega arith)

-- A source of 5 bytes, of which 2 were read before, and an error after the first chunk.
abbrev broken : CopyCalls
broken = record {
  stat = gives 5;
  seek_current = gives 2;
  create = gives 9;
  truncate = gives 0;
  seek_start = gives 0;
  reads_of = reads (codes "abc") 3 ∷ breaks 5 ∷ [];
  seek_back = gives 2;
}

copy_file_to_memfd-IsCopyEnd_example :
    IsCopyEnd (4 ∷ []) 2 (copy_file_to_memfd (4 ∷ []) true 2 broken)
copy_file_to_memfd-IsCopyEnd_example =
    copy_file_to_memfd-IsCopyEnd (4 ∷ []) true 2 broken (tt, refl, tt, tt, tt, refl)

abbrev chunks : List Bytes
chunks = codes "abc" ∷ codes "de" ∷ []

copy_file_to_memfd-in_full_example :
    copy_file_to_memfd (4 ∷ []) true 2 (record {
      stat = gives 5;
      seek_current = gives 2;
      create = gives 9;
      truncate = gives 0;
      seek_start = gives 0;
      reads_of = in_full chunks;
      seek_back = gives 2;
    })
    ≡ record {
      value = pos 9;
      descriptors = 9 ∷ 4 ∷ [];
      file = some (record { bytes = codes "abcde"; offset = 0 });
      place = 2;
    }
copy_file_to_memfd-in_full_example =
    copy_file_to_memfd-in_full (4 ∷ []) 9 2 0 0 chunks (omega arith, (omega arith, tt))
      (omega arith) (omega arith)

abbrev owner_calls : List Call
owner_calls = call_get ∷ call_close (interrupted ∷ ends ∷ []) ∷ call_detach ∷ []

run_lem_example : run owner_calls [] (new (pos 3)) ≡ close_called 3 ∷ close_called 3 ∷ []
run_lem_example = run_lem owner_calls [] 3

-- Two objects share an impl; one is assigned to itself, and both go.
abbrev sharing : List Owners.Call
sharing =
    Owners.constructs
    ∷ Owners.resizes 0 4 true
    ∷ Owners.copies 0
    ∷ Owners.assigns 1 1
    ∷ Owners.destroys 0
    ∷ Owners.destroys 1
    ∷ []

impl_once_example :
    let s = Owners.run small_malloc sharing start in
    (times 0 s.destroyed ≡ (if ltb 0 (length s.heap) && (use_count 0 s.slots == 0) then 1 else 0))
    × ((ltb 0 (length s.heap) || (use_count 0 s.slots == 0)) ≡ true)
impl_once_example = impl_once small_malloc sharing 0
