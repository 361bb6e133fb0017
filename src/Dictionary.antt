-- ===== src/Dictionary.antt =====
-- What the callers of src/utils/HashMap.h and src/utils/ConcurrentHashMap.h may rely on: an
-- interface of the calls that both classes have, with its laws, and what follows from the laws
-- alone.
pub mod Implementations
use neo_group_captcha_bot.Common.{◌≡◌, refl, ap, ◌∙◌, sym, List, [], ◌∷◌, Option, none, Eq}
use neo_group_captcha_bot.ConcurrentHashMap.{Call, Answer, key}
use neo_group_captcha_bot.ConcurrentHashMap.Laws.{effect, reply, effect_same, reply_same}

-- A type of maps stands for functions from keys to values, by `lookup`: a call changes the map as
-- it changes the function, and has the answer that it has on the function.
pub record Dictionary {ℓ} (K V : Type ℓ) ⦃e : Eq K⦄ (M : Type ℓ) (IsWf : M → Type ℓ) : Type ℓ where
  pub initial : M
  pub call : Call K V → M → M × Answer V
  pub lookup : M → K → Option V
  pub initial-IsWf : IsWf initial
  pub call-IsWf : (c : Call K V) (m : M) → IsWf m → IsWf (call c m).0
  pub lookup-initial : (k : K) → lookup initial k ≡ none
  pub lookup-call :
      (c : Call K V) (m : M) (k : K) → IsWf m → lookup (call c m).0 k ≡ effect c (λ i. lookup m i) k
  pub call-reply : (c : Call K V) (m : M) → IsWf m → (call c m).1 ≡ reply c (λ i. lookup m i)

-- The answers to a sequence of calls.
pub answers {ℓ} :
    {K V M : Type ℓ} {IsWf : M → Type ℓ} ⦃e : Eq K⦄
    → Dictionary K V M IsWf
    → List (Call K V)
    → M
    → List (Answer V)
answers d [] m = []
answers d (c ∷ cs) m = (d.call c m).1 ∷ answers d cs (d.call c m).0

module _ {ℓ} {K V M N : Type ℓ} {P : M → Type ℓ} {Q : N → Type ℓ} ⦃e : Eq K⦄
    (d : Dictionary K V M P) (f : Dictionary K V N Q) where
  -- Two maps that stand for the same function answer alike from then on.
  answers_same :
      (cs : List (Call K V)) (m : M) (n : N)
      → P m
      → Q n
      → ((k : K) → d.lookup m k ≡ f.lookup n k)
      → answers d cs m ≡ answers f cs n
  unfolding answers
  answers_same [] m n p q h = refl
  answers_same (c ∷ cs) m n p q h =
      let a : (d.call c m).1 ≡ (f.call c n).1 =
        d.call-reply c m p
        ∙ reply_same c (λ i. d.lookup m i) (λ i. f.lookup n i) (h (key c))
        ∙ sym (f.call-reply c n q) in
      let g : (k : K) → d.lookup (d.call c m).0 k ≡ f.lookup (f.call c n).0 k = λ k.
        d.lookup-call c m k p
        ∙ effect_same c (λ i. d.lookup m i) (λ i. f.lookup n i) k (h k)
        ∙ sym (f.lookup-call c n k q) in
      rw a (
        ap (◌∷◌ (f.call c n).1)
          (answers_same cs (d.call c m).0 (f.call c n).0 (d.call-IsWf c m p) (f.call-IsWf c n q) g))

  pub answers_alike : (cs : List (Call K V)) → answers d cs d.initial ≡ answers f cs f.initial
  answers_alike cs =
      answers_same cs d.initial f.initial d.initial-IsWf f.initial-IsWf
        (λ k. d.lookup-initial k ∙ sym (f.lookup-initial k))
