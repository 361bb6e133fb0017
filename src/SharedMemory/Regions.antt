-- ===== src/SharedMemory/Regions.antt =====
-- src/utils/shared_memory.cpp: every end of `ashmem_create_region`, and the size that it asks for.
use native.Mathlib.Nat.{mod-eq_of_lt, mod-add-div, mul-mod_right, mul-add, mul-one, mod-lt}
use neo_group_captcha_bot.Common.{
  ℕ, zero, suc, ◌+◌, ◌*◌, ◌/◌, ◌%◌, ◌≤◌, ◌<◌, ◌≡◌, ◌≢◌, refl, ap, ◌⊎◌, inl, inr, Bool, true, false,
  ◌||◌, List, ◌∷◌, ℤ, pos, negsuc, is_neg, two_64, Bool-cases, ◌==◌, ==_iff, if◌then◌else◌, arith,
}
use neo_group_captcha_bot.IoUtils.{negated}
use neo_group_captcha_bot.FileMemMap.{Result, gives, fails, remove_first}
use neo_group_captcha_bot.FileMemMap.Mapped.{IsErrno}
use neo_group_captcha_bot.SharedMemory.{
  is_failure, Opened, Device, no_stat, is_device, Calls, memfd_create_region, ashmem_open_legacy,
  name_and_size, ashmem_create_region, region_size,
}

-- An error leaves the descriptors as they were; a descriptor that is returned is the one more.
abbrev pub IsEnd : List ℕ → Opened → Type 0
IsEnd fds r =
    ((is_neg r.value ≡ true) × (r.descriptors ≡ fds))
    ⊎ ((fd : ℕ) × (r.value ≡ pos fd) × (r.descriptors ≡ fd ∷ fds))

pub negated-neg : (err : ℕ) → err ≢ 0 → is_neg (negated err) ≡ true
negated-neg zero h = absurd (h refl)
negated-neg (suc n) h = refl

pub remove_first_self : (fd : ℕ) (fds : List ℕ) → remove_first fd (fd ∷ fds) ≡ fds
remove_first_self fd fds = ground (arith, ==_iff fd fd)

memfd-IsEnd :
    (fds : List ℕ) (create truncate : Result)
    → IsErrno create
    → IsErrno truncate
    → IsEnd fds (memfd_create_region fds create truncate)
unfolding memfd_create_region
memfd-IsEnd fds (fails err) truncate h k = inl (negated-neg err h, refl)
memfd-IsEnd fds (gives fd) (gives r) h k = inr (fd, refl, refl)
memfd-IsEnd fds (gives fd) (fails err) h k = inl (negated-neg err k, remove_first_self fd fds)

legacy-IsEnd :
    (fds : List ℕ) (open_device : Result) (device : Device)
    → IsEnd fds (ashmem_open_legacy fds open_device device)
unfolding ashmem_open_legacy
legacy-IsEnd fds (fails err) device = inl (refl, refl)
legacy-IsEnd fds (gives fd) no_stat = inl (refl, remove_first_self fd fds)
legacy-IsEnd fds (gives fd) (is_device true) = inr (fd, refl, refl)
legacy-IsEnd fds (gives fd) (is_device false) = inl (refl, remove_first_self fd fds)

abbrev descriptor_of : ℤ → ℕ
descriptor_of (pos fd) = fd
descriptor_of (negsuc n) = 0

closed_again :
    (fds l : List ℕ) (fd fd' : ℕ) → pos fd ≡ pos fd' → l ≡ fd' ∷ fds → remove_first fd l ≡ fds
closed_again fds l fd fd' e d =
    let i : fd ≡ fd' = ap descriptor_of e in rw d (ground (arith, i, ==_iff fd' fd))

name_and_size-IsEnd :
    (fds l : List ℕ) (value : ℤ) (has_name : Bool) (calls : Calls)
    → IsEnd fds (record { descriptors = l; value = value })
    → IsEnd fds (name_and_size l value has_name calls)
unfolding name_and_size
name_and_size-IsEnd fds l (negsuc n) has_name calls h = h
name_and_size-IsEnd fds l (pos fd) has_name calls (inl (neg, e)) = cc (neg)
name_and_size-IsEnd fds l (pos fd) has_name calls (inr (fd', e, d)) =
    let closed : remove_first fd l ≡ fds = closed_again fds l fd fd' e d in
    elim (Bool-cases
      ((if has_name then is_failure calls.set_name else false) || is_failure calls.set_size)) [
        | inl t ↦ rw t (inl (refl, closed))
        | inr f ↦ rw f (inr (fd', e, d))
      ]

-- Whatever the system calls give: `ashmem_create_region` either returns a negative number and has
-- closed what it opened, or returns the one descriptor that it leaves open.
ashmem_create_region_lem :
    (fds : List ℕ) (supported has_name : Bool) (calls : Calls)
    → IsErrno calls.create
    → IsErrno calls.truncate
    → IsEnd fds (ashmem_create_region fds supported has_name calls)
unfolding ashmem_create_region
ashmem_create_region_lem fds true has_name calls h k =
    memfd-IsEnd fds calls.create calls.truncate h k
ashmem_create_region_lem fds false has_name calls h k =
    let r = ashmem_open_legacy fds calls.open_device calls.device in
    name_and_size-IsEnd fds r.descriptors r.value has_name calls
      (legacy-IsEnd fds calls.open_device calls.device)

page_up :
    (page size q r : ℕ)
    → r + page * q ≡ size
    → r < page
    → r ≢ 0
    → size + page ≤ two_64
    → page * (q + 1) % two_64 ≡ page * (q + 1)
page_up page size q r e l z h =
    let d : page * (q + 1) ≡ page * q + page * 1 = mul-add page q 1 in
    mod-eq_of_lt (omega (arith, d, e, l, z, h, mul-one page))

-- The size that is asked for is the least number of whole pages that holds the size, if that is
-- below 2^64.
region_size_lem :
    (page size : ℕ)
    → 0 < page
    → size + page ≤ two_64
    → (size ≤ region_size page size)
      × (region_size page size < size + page)
      × (region_size page size % page ≡ 0)
unfolding region_size
region_size_lem page size h k = elim (Bool-cases (size % page == 0)) [
  | inl t ↦ rw t (omega (arith, h), omega (arith, h), (==_iff (size % page) 0).0 t)
  | inr f ↦
      let z : size % page ≢ 0 = ground (arith, f, ==_iff (size % page) 0) in
      let e : size % page + page * (size / page) ≡ size = mod-add-div size page in
      let l : size % page < page = mod-lt size h in
      let d : page * (size / page + 1) ≡ page * (size / page) + page * 1 =
        mul-add page (size / page) 1 in
      let u = page_up page size (size / page) (size % page) e l z k in
      rw (f, u)
        (
          omega (arith, d, e, l, z, mul-one page),
          omega (arith, d, e, l, z, mul-one page),
          mul-mod_right page (size / page + 1),
        )
]
