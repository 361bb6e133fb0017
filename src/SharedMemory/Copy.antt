-- ===== src/SharedMemory/Copy.antt =====
-- src/utils/shared_memory.cpp: `copy_file_to_memfd`, its ends and what the copy holds.
use neo_group_captcha_bot.Common.{
  ℕ, ◌+◌, ◌≤◌, ◌<◌, ◌≡◌, ◌≢◌, refl, subst, ◌⊎◌, inl, inr, ◌++◌, append_assoc, Bool, true, false,
  List, [], ◌∷◌, none, some, pos, is_neg, Bytes, length, drop, replicate, All, ltb, ge→ltb, ◌==◌,
  ==_iff, Bool-cases, arith, length-append, length-drop, length-replicate, length-zero,
  drop_add-append, concat, take_length, take_length-append,
}
use neo_group_captcha_bot.FileMemMap.{Result, gives, fails, remove_first}
use neo_group_captcha_bot.FileMemMap.Mapped.{IsErrno}
use neo_group_captcha_bot.SharedMemory.{
  Read, reads, CopyCalls, Copied, write, copy_loop, fill, fill_new, copy_sized, copy_file_to_memfd,
  refused, size_limit, enosys, einval, enomem,
}
use neo_group_captcha_bot.SharedMemory.Regions.{negated-neg, remove_first_self}

-- An error leaves the descriptors as they were; a descriptor that is returned is the one more, and
-- the file stands at its start. In both cases the source is read next where it was.
abbrev pub IsCopyEnd : List ℕ → ℕ → Copied → Type 0
IsCopyEnd fds place r =
    (r.place ≡ place)
    × (((is_neg r.value ≡ true) × (r.descriptors ≡ fds) × (r.file ≡ none))
        ⊎ ((fd : ℕ) × (r.value ≡ pos fd)
            × (r.descriptors ≡ fd ∷ fds)
            × ((b : Bytes) × (r.file ≡ some (record { bytes = b; offset = 0 })))))

-- Error numbers are not 0; `lseek64` with SEEK_CUR gives the place at which the source is read next,
-- and going back to that place works.
abbrev pub IsAt : ℕ → Result → Type 0
IsAt place (gives origin) = origin ≡ place
IsAt place (fails err) = err ≢ 0

abbrev pub IsSound : ℕ → CopyCalls → Type 0
IsSound place calls =
    IsErrno calls.stat
    × IsAt place calls.seek_current
    × IsErrno calls.create
    × IsErrno calls.truncate
    × IsErrno calls.seek_start
    × (calls.seek_back ≡ gives place)

refused_lem : (fds : List ℕ) (place err : ℕ) → err ≢ 0 → IsCopyEnd fds place (refused fds place err)
refused_lem fds place err h = (refl, inl (negated-neg err h, refl, refl))

closed_lem :
    (fds : List ℕ) (fd place err : ℕ)
    → err ≢ 0
    → IsCopyEnd fds place (refused (remove_first fd (fd ∷ fds)) place err)
closed_lem fds fd place err h = (refl, inl (negated-neg err h, remove_first_self fd fds, refl))

fill-IsCopyEnd :
    (fds : List ℕ) (fd size place : ℕ) (calls : CopyCalls)
    → calls.seek_back ≡ gives place
    → IsCopyEnd fds place (fill fds fd size place calls)
unfolding fill
fill-IsCopyEnd fds fd size place calls h =
    let (f, err) = copy_loop (record { bytes = replicate size 0; offset = 0 }) calls.reads_of in
    rw h (elim (Bool-cases (err == 0)) [
      | inl t ↦ rw t (refl, inr (fd, refl, refl, (f.bytes, refl)))
      | inr t ↦ rw t (closed_lem fds fd place err (ground (arith, t, ==_iff err 0)))
    ])

fill_new-IsCopyEnd :
    (fds : List ℕ) (size place : ℕ) (create truncate start : Result) (calls : CopyCalls)
    → IsErrno create
    → IsErrno truncate
    → IsErrno start
    → calls.seek_back ≡ gives place
    → IsCopyEnd fds place (fill_new fds size place place create truncate start calls)
unfolding fill_new
fill_new-IsCopyEnd fds size place (fails err) truncate start calls c t s b =
    refused_lem fds place err c
fill_new-IsCopyEnd fds size place (gives fd) (fails err) start calls c t s b =
    closed_lem fds fd place err t
fill_new-IsCopyEnd fds size place (gives fd) (gives _) (fails err) calls c t s b =
    closed_lem fds fd place err s
fill_new-IsCopyEnd fds size place (gives fd) (gives _) (gives _) calls c t s b =
    fill-IsCopyEnd fds fd size place calls b

copy_sized-IsCopyEnd :
    (fds : List ℕ) (size place : ℕ) (seek_current : Result) (calls : CopyCalls)
    → IsSound place calls
    → IsAt place seek_current
    → IsCopyEnd fds place (copy_sized fds size place seek_current calls)
unfolding copy_sized
copy_sized-IsCopyEnd fds size place (fails err) calls h a = elim (Bool-cases (size == 0)) [
  | inl t ↦ rw t (refused_lem fds place einval (λ e. omega (arith, e)))
  | inr t ↦ rw t (elim (Bool-cases (ltb size_limit size)) [
    | inl u ↦ rw u (refused_lem fds place enomem (λ e. omega (arith, e)))
    | inr u ↦ rw u (refused_lem fds place err a)
  ])
]
copy_sized-IsCopyEnd fds size place (gives origin) calls (_, _, c, r, s, b) a =
    elim (Bool-cases (size == 0)) [
      | inl t ↦ rw t (refused_lem fds place einval (λ e. omega (arith, e)))
      | inr t ↦ rw t (elim (Bool-cases (ltb size_limit size)) [
        | inl u ↦ rw u (refused_lem fds place enomem (λ e. omega (arith, e)))
        | inr u ↦
            rw (u, a)
              (fill_new-IsCopyEnd fds size place calls.create calls.truncate calls.seek_start calls
                c r s b)
      ])
    ]

copy_with-IsCopyEnd :
    (fds : List ℕ) (place : ℕ) (stat : Result) (calls : CopyCalls)
    → calls.stat ≡ stat
    → IsSound place calls
    → IsCopyEnd fds place (copy_file_to_memfd fds true place calls)
unfolding copy_file_to_memfd
copy_with-IsCopyEnd fds place (fails err) calls e h =
    rw e (refused_lem fds place err (subst IsErrno e h.0))
copy_with-IsCopyEnd fds place (gives size) calls e h =
    rw e (copy_sized-IsCopyEnd fds size place calls.seek_current calls h h.1)

-- Whatever the system calls give, whichever bytes and errors are read and however little is written:
-- `copy_file_to_memfd` either returns a negative number and has closed what it opened, or returns
-- the one descriptor that it leaves open, of a file that stands at its start; and the source is read
-- next where it was read next before. The conditions: an error number is not 0, and `lseek64` gives
-- the place and goes back to it.
pub copy_file_to_memfd-IsCopyEnd :
    (fds : List ℕ) (supported : Bool) (place : ℕ) (calls : CopyCalls)
    → IsSound place calls
    → IsCopyEnd fds place (copy_file_to_memfd fds supported place calls)
unfolding copy_file_to_memfd
copy_file_to_memfd-IsCopyEnd fds false place calls h =
    refused_lem fds place enosys (λ e. omega (arith, e))
copy_file_to_memfd-IsCopyEnd fds true place calls h =
    copy_with-IsCopyEnd fds place calls.stat calls refl h

-- Chunks that are read and written in full.
abbrev pub in_full : List Bytes → List Read
in_full [] = []
in_full (c ∷ cs) = reads c (length c) ∷ in_full cs

write-append :
    (before chunk after : Bytes)
    → write (record { bytes = before ++ after; offset = length before }) chunk (length chunk)
      ≡ record {
        bytes = before ++ (chunk ++ drop (length chunk) after);
        offset = length before + length chunk;
      }
unfolding write
write-append before chunk after =
    rw
      (
        take_length-append before after,
        take_length chunk,
        drop_add-append before (length chunk) after,
      )
      refl

copy_loop-in_full :
    (before after : Bytes) (chunks : List Bytes)
    → All (λ c. 0 < length c) chunks
    → length after ≡ length (concat chunks)
    → copy_loop (record { bytes = before ++ after; offset = length before }) (in_full chunks) ≡ (
      record { bytes = before ++ concat chunks; offset = length before + length (concat chunks) },
      0,
    )
unfolding copy_loop
copy_loop-in_full before after [] h e =
    let o : length before + 0 ≡ length before = omega arith in rw (length-zero after e, o) refl
copy_loop-in_full before after ([] ∷ cs) (h, hs) e = absurd (omega (arith, h))
copy_loop-in_full before after ((x ∷ xs) ∷ cs) (h, hs) e =
    let chunk : Bytes = x ∷ xs in
    let rest : Bytes = drop (length chunk) after in
    let left : length rest ≡ length (concat cs) =
      omega (arith, e, length-drop (length chunk) after, length-append chunk (concat cs)) in
    let tail = copy_loop-in_full (before ++ chunk) rest cs hs left in
    let o : length before + length (chunk ++ concat cs)
        ≡ length before + length chunk + length (concat cs) =
      omega (arith, length-append chunk (concat cs)) in
    rw (copy_loop, write-append before chunk after, o)
      (rw
        (
          append_assoc before chunk rest,
          append_assoc before chunk (concat cs),
          length-append before chunk,
        )
        at tail)

fill-in_full :
    (fds : List ℕ) (fd place : ℕ) (chunks : List Bytes) (calls : CopyCalls)
    → All (λ c. 0 < length c) chunks
    → calls.reads_of ≡ in_full chunks
    → calls.seek_back ≡ gives place
    → fill fds fd (length (concat chunks)) place calls ≡ record {
      value = pos fd;
      descriptors = fd ∷ fds;
      file = some (record { bytes = concat chunks; offset = 0 });
      place = place;
    }
unfolding fill
fill-in_full fds fd place chunks calls h e b =
    let size : ℕ = length (concat chunks) in
    let run = copy_loop-in_full [] (replicate size 0) chunks h (length-replicate {A = ℕ} size 0) in
    rw (b, e, run) refl

-- If no call fails, `read` gives the source in chunks and `write` takes each whole, then the file
-- behind the returned descriptor holds the bytes of the source and stands at its start, and the
-- source is read next where it was read next before. The source is not empty and not longer than
-- 64 MiB.
pub copy_file_to_memfd-in_full :
    (fds : List ℕ) (fd place r s : ℕ) (chunks : List Bytes)
    → All (λ c. 0 < length c) chunks
    → 0 < length (concat chunks)
    → length (concat chunks) ≤ size_limit
    → copy_file_to_memfd fds true place (record {
      stat = gives (length (concat chunks));
      seek_current = gives place;
      create = gives fd;
      truncate = gives r;
      seek_start = gives s;
      reads_of = in_full chunks;
      seek_back = gives place;
    })
      ≡ record {
        value = pos fd;
        descriptors = fd ∷ fds;
        file = some (record { bytes = concat chunks; offset = 0 });
        place = place;
      }
unfolding copy_file_to_memfd copy_sized fill_new
copy_file_to_memfd-in_full fds fd place r s chunks h k l =
    let size : ℕ = length (concat chunks) in
    let t : (size == 0) ≡ false = ground (arith, k, ==_iff size 0) in
    let u : ltb size_limit size ≡ false = ge→ltb size_limit size l in
    rw (t, u)
      (fill-in_full fds fd place chunks
        (record {
          stat = gives size;
          seek_current = gives place;
          create = gives fd;
          truncate = gives r;
          seek_start = gives s;
          reads_of = in_full chunks;
          seek_back = gives place;
        })
        h refl refl)
