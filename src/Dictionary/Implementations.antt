-- ===== src/Dictionary/Implementations.antt =====
-- src/utils/HashMap.h and src/utils/ConcurrentHashMap.h as implementations of the interface, beside
-- the functions that maps stand for.
use neo_group_captcha_bot.Common.{◌≡◌, refl, List, Option, none, Eq, arith}
use neo_group_captcha_bot.HashMap
use neo_group_captcha_bot.HashMap.{HashMap}
use neo_group_captcha_bot.HashMap.Laws as HashMapLaws
use neo_group_captcha_bot.ConcurrentHashMap
use neo_group_captcha_bot.ConcurrentHashMap.{
  ConcurrentHashMap, Call, gets, contains, removes, puts, puts_if_absent, Answer, value, flag,
  nothing,
}
use neo_group_captcha_bot.ConcurrentHashMap.Laws.{
  IsWf, effect, reply, get-step, step-reply, step-IsWf, get-empty, empty-IsWf,
}
use neo_group_captcha_bot.Dictionary.{Dictionary, answers, answers_alike}

module _ {ℓ} {K V : Type ℓ} ⦃e : Eq K⦄ where
  -- The methods of HashMap, for a call of each kind.
  unfoldable pub call : Call K V → HashMap K V → HashMap K V × Answer V
  call (gets k) m = (m, value (HashMap.get m k))
  call (contains k) m = (m, flag (HashMap.contains_key m k))
  call (removes k) m = let (m', done) = HashMap.remove m k in (m', flag done)
  call (puts k v) m = (HashMap.put m k v, nothing)
  call (puts_if_absent k v) m = let (m', done) = HashMap.put_if_absent m k v in (m', flag done)

  pub call-IsWf :
      (c : Call K V) (m : HashMap K V) → HashMapLaws.IsWf m → HashMapLaws.IsWf (call c m).0
  unfolding call
  call-IsWf (gets k) m w = w
  call-IsWf (contains k) m w = w
  call-IsWf (removes k) m w = HashMapLaws.remove-IsWf m k w
  call-IsWf (puts k v) m w = HashMapLaws.put-IsWf m k v w
  call-IsWf (puts_if_absent k v) m w = HashMapLaws.put_if_absent-IsWf m k v w

  pub get-call :
      (c : Call K V) (m : HashMap K V) (j : K)
      → HashMapLaws.IsWf m
      → HashMap.get (call c m).0 j ≡ effect c (λ i. HashMap.get m i) j
  unfolding call
  get-call (gets k) m j w = refl
  get-call (contains k) m j w = refl
  get-call (removes k) m j w = HashMapLaws.get-remove m k j w
  get-call (puts k v) m j w = HashMapLaws.get-put m k j v
  get-call (puts_if_absent k v) m j w = HashMapLaws.get-put_if_absent m k j v

  pub call-reply : (c : Call K V) (m : HashMap K V) → (call c m).1 ≡ reply c (λ i. HashMap.get m i)
  unfolding call HashMap.get HashMap.contains_key HashMap.remove
  call-reply (gets k) m = refl
  call-reply (contains k) m = refl
  call-reply (removes k) m = refl
  call-reply (puts k v) m = refl
  call-reply (puts_if_absent k v) m = unfold HashMap.put_if_absent in ground arith

  abbrev pub hash_map : Dictionary K V (HashMap K V) HashMapLaws.IsWf
  hash_map = record {
    initial = HashMap.empty;
    call = call;
    lookup = HashMap.get;
    initial-IsWf = HashMapLaws.empty-IsWf;
    call-IsWf = call-IsWf;
    lookup-initial = HashMapLaws.get-empty;
    lookup-call = λ c m k w. get-call c m k w;
    call-reply = λ c m w. call-reply c m;
  }

  abbrev pub concurrent_hash_map : Dictionary K V (ConcurrentHashMap K V) IsWf
  concurrent_hash_map = record {
    initial = ConcurrentHashMap.empty;
    call = ConcurrentHashMap.step;
    lookup = ConcurrentHashMap.get;
    initial-IsWf = empty-IsWf;
    call-IsWf = step-IsWf;
    lookup-initial = get-empty;
    lookup-call = λ c m k w. get-step c m k w;
    call-reply = λ c m w. step-reply c m;
  }

  abbrev pub functions : Dictionary K V (K → Option V) (λ f. Unit)
  functions = record {
    initial = λ k. none;
    call = λ c f. (λ k. effect c f k, reply c f);
    lookup = λ f k. f k;
    initial-IsWf = tt;
    call-IsWf = λ c f w. tt;
    lookup-initial = λ k. refl;
    lookup-call = λ c f k w. refl;
    call-reply = λ c f w. refl;
  }

  -- The two classes cannot be told apart, and neither from a function: any sequence of `get`,
  -- `containsKey`, `put`, `putIfAbsent` and `remove` on an empty map has the answers that it has on
  -- the function that is nowhere defined.
  pub maps_alike :
      (cs : List (Call K V))
      → (answers hash_map cs HashMap.empty ≡ answers functions cs (λ k. none))
        × (answers concurrent_hash_map cs ConcurrentHashMap.empty
            ≡ answers hash_map cs HashMap.empty)
  maps_alike cs =
      (answers_alike hash_map functions cs, answers_alike concurrent_hash_map hash_map cs)
