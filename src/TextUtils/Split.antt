-- ===== src/TextUtils/Split.antt =====
-- src/utils/TextUtils.cpp: what the parts of `splitString` are, and when it ends.
use neo_group_captcha_bot.Common.{
  ℕ, zero, suc, ◌+◌, ◌<◌, ◌≤◌, ◌≡◌, refl, ap, ◌∙◌, sym, ◌++◌, true, false, List, [], ◌∷◌, none,
  some, Bytes, is_empty, length, take, drop, starts_with, length-drop, append_assoc, arith,
  Option-cases, Bool-cases, ◌⊎◌, inl, inr, subst,
}
use neo_group_captcha_bot.TextUtils.{find, split_loop, split_string, add_part}

-- The parts, each with the separator after it.
abbrev pub glue : Bytes → List Bytes → Bytes
glue splits [] = []
glue splits (part ∷ parts) = part ++ (splits ++ glue splits parts)

starts_with-drop : (p s : Bytes) → starts_with p s ≡ true → s ≡ p ++ drop (length p) s
unfolding starts_with
starts_with-drop [] s h = refl
starts_with-drop (x ∷ xs) [] h = ground arith
starts_with-drop (x ∷ xs) (y ∷ ys) h = ground (arith, starts_with-drop xs ys)

-- A place that is found holds the separator.
find-some :
    (s p : Bytes) (pos : ℕ) → find s p ≡ some pos → s ≡ take pos s ++ (p ++ drop (pos + length p) s)
unfolding find
find-some [] [] pos h = ground arith
find-some [] (x ∷ xs) pos h = ground arith
find-some (c ∷ cs) p pos h = elim (Bool-cases (starts_with p (c ∷ cs))) [
  | inl e ↦ ground (arith, h, starts_with-drop p (c ∷ cs) e)
  | inr e ↦ elim (Option-cases (find cs p)) [
    | inl f ↦ ground (arith, h, e, f)
    | inr (k, f) ↦
        let g : pos ≡ suc k = ground (arith, h, e, f) in
        let n : suc (k + length p) ≡ suc k + length p = omega arith in
        subst (λ n. c ∷ cs ≡ take n (c ∷ cs) ++ (p ++ drop (n + length p) (c ∷ cs))) (sym g)
          (ap (◌∷◌ c) (find-some cs p k f) ∙ ap (λ n. c ∷ (take k cs ++ (p ++ drop n (c ∷ cs)))) n)
  ]
]

starts_with_self : (p : Bytes) → starts_with p p ≡ true
unfolding starts_with
starts_with_self [] = refl
starts_with_self (x ∷ xs) = ground (arith, starts_with_self xs)

-- The separator at the end is found, unless one that overlaps it is found before.
find-append : (s p : Bytes) → (pos : ℕ) × (find (s ++ p) p ≡ some pos) × (pos ≤ length s)
unfolding find
find-append [] [] = (0, refl, omega arith)
find-append [] (x ∷ xs) = (0, ground (arith, starts_with_self (x ∷ xs)), omega arith)
find-append (c ∷ cs) p =
    let (k, e, le) = find-append cs p in
    elim (Bool-cases (starts_with p (c ∷ (cs ++ p)))) [
      | inl f ↦ (0, ground (arith, f), omega arith)
      | inr f ↦ (suc k, ground (arith, f, e), omega (arith, le))
    ]

-- A text that is shorter than the separator, or that ends with it.
abbrev Tail : Bytes → Bytes → Type 0
Tail p s = (length s < length p) ⊎ ((body : Bytes) × (s ≡ body ++ p))

rest-Tail : (body p : Bytes) (k : ℕ) → is_empty p ≡ false → Tail p (drop k (body ++ p))
rest-Tail body p zero e = inr (body, refl)
rest-Tail [] [] (suc k) e = absurd (ground (arith, e))
rest-Tail [] (x ∷ xs) (suc k) e = inl (omega (arith, length-drop k xs))
rest-Tail (y ∷ ys) p (suc k) e = rest-Tail ys p k e

after-Tail : (s p : Bytes) (k : ℕ) → is_empty p ≡ false → Tail p s → Tail p (drop k s)
after-Tail s p k e (inl h) = inl (omega (arith, h, length-drop k s))
after-Tail s p k e (inr (body, q)) = subst (λ r. Tail p (drop k r)) (sym q) (rest-Tail body p k e)

-- A text in which the separator is not found does not end with it.
none-short : (s p : Bytes) → find s p ≡ none → Tail p s → length s < length p
none-short s p f (inl h) = h
none-short s p f (inr (body, q)) =
    let (k, g, _) = find-append body p in absurd (ground (arith, f, g, ap (λ r. find r p) q))

-- What is after the place that is found is shorter than the text.
some-shorter :
    (s p : Bytes) (k : ℕ)
    → is_empty p ≡ false
    → find s p ≡ some k
    → length (drop (k + length p) s) < length s
some-shorter [] [] k e f = absurd (ground (arith, e))
some-shorter [] (x ∷ xs) k e f = unfold find in absurd (ground (arith, f))
some-shorter (c ∷ cs) [] k e f = absurd (ground (arith, e))
some-shorter (c ∷ cs) (x ∷ xs) k e f = omega (arith, length-drop (k + suc (length xs)) (c ∷ cs))

-- The loop ends, and what it leaves over is shorter than the separator.
split_loop_covers :
    (fuel : ℕ) (s p : Bytes)
    → is_empty p ≡ false
    → length s < fuel
    → Tail p s
    → (parts : List Bytes) × (rest : Bytes) × (split_loop fuel s p ≡ some parts)
      × (s ≡ glue p parts ++ rest)
      × (length rest < length p)
unfolding split_loop
split_loop_covers zero s p e h t = absurd (omega (arith, h))
split_loop_covers (suc fuel) s p e h t = elim (Option-cases (find s p)) [
  | inl f ↦ ([], s, rw (f, split_loop) refl, refl, none-short s p f t)
  | inr (k, f) ↦
      let left = drop (k + length p) s in
      let (parts, rest, ends, covers, short) =
        split_loop_covers fuel left p e (omega (arith, h, some-shorter s p k e f))
          (after-Tail s p (k + length p) e t) in
      (
        take k s ∷ parts,
        rest,
        rw (f, split_loop, ends) refl,
        find-some s p k f
            ∙ ap (λ r. take k s ++ (p ++ r)) covers
            ∙ ap (λ r. take k s ++ r) (sym (append_assoc p (glue p parts) rest))
            ∙ sym (append_assoc (take k s) (p ++ glue p parts) rest),
        short,
      )
]

-- With a separator that is not empty `splitString` ends, and a text that is not empty is, with a
-- separator after it, the parts with a separator after each of them, and a rest that is shorter
-- than the separator.
pub split_string_covers :
    (str splits : Bytes)
    → is_empty str ≡ false
    → is_empty splits ≡ false
    → (parts : List Bytes) × (rest : Bytes) × (split_string str splits ≡ some parts)
      × (str ++ splits ≡ glue splits parts ++ rest)
      × (length rest < length splits)
unfolding split_string
split_string_covers str splits h e = rw h (
    split_loop_covers (suc (length (str ++ splits))) (str ++ splits) splits e (omega arith)
      (inr (str, refl)))

-- With an empty separator the loop does not end, in any number of rounds.
split_loop_endless : (fuel : ℕ) (strs : Bytes) → split_loop fuel strs [] ≡ none
unfolding split_loop find starts_with
split_loop_endless zero strs = refl
split_loop_endless (suc fuel) [] = ap (add_part []) (split_loop_endless fuel [])
split_loop_endless (suc fuel) (c ∷ cs) = ap (add_part []) (split_loop_endless fuel (c ∷ cs))
