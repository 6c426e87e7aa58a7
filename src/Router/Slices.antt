-- ===== src/Router/Slices.antt =====
-- router/pattern.go: slices between a prefix and a suffix, and parts joined and split.
use gobeyond.Common.{
  false, ℕ, zero, suc, ◌+◌, ◌-◌, ◌≤◌, ◌≡◌, ◌≢◌, refl, sym, ap, ◌∙◌, true, ◌&&◌, ◌==◌, List, [], ◌∷◌,
  ◌++◌, length, length-append, Bool-cases, inl, inr, if_intro, ==_iff, arith,
}
use gobeyond.Router.Bytes.{
  contains, Bytes, slash, has_prefix, has_suffix, drop, take, slice, split, onto_first, join,
}
use gobeyond.Router.Accept.{bytes_eq_iff}

-- A text that begins with a prefix.
pub has_prefix-append : (p s : Bytes) → has_prefix p s ≡ true → s ≡ p ++ drop (length p) s
unfolding has_prefix drop
has_prefix-append [] s h = refl
has_prefix-append (c ∷ p) [] h = cc
has_prefix-append (c ∷ p) (x ∷ s) h =
    let rest : s ≡ p ++ drop (length p) s = has_prefix-append p s (ground arith) in
    let same : x ≡ c = ground arith in rw same (ap (λ (t : Bytes). c ∷ t) rest)

pub take-drop : (n : ℕ) (s : Bytes) → s ≡ take n s ++ drop n s
unfolding take drop
take-drop zero s = refl
take-drop (suc n) [] = refl
take-drop (suc n) (x ∷ s) = ap (λ (t : Bytes). x ∷ t) (take-drop n s)

pub drop-append : (p r : Bytes) (n : ℕ) → drop (length p + n) (p ++ r) ≡ drop n r
unfolding drop
drop-append [] r n = let none_less : 0 + n ≡ n = omega arith in ap (λ k. drop k r) none_less
drop-append (x ∷ p) r n =
    let one_less : length (x ∷ p) + n ≡ suc (length p + n) = omega arith in
    ap (λ k. drop k (x ∷ (p ++ r))) one_less ∙ drop-append p r n

pub drop_all : (p r : Bytes) → drop (length p) (p ++ r) ≡ r
unfolding drop
drop_all [] r = refl
drop_all (x ∷ p) r = drop_all p r

-- A prefix and a suffix that do not overlap enclose the slice between them.
pub slice-append :
    (p end r : Bytes)
    → length end ≤ length r
    → has_suffix end (p ++ r) ≡ true
    → r ≡ slice (length p) (length end) (p ++ r) ++ end
unfolding has_suffix slice
slice-append p end r short h =
    let n = length r - length end in
    let total : length (p ++ r) - length end ≡ length p + n = omega (arith, length-append p r) in
    let tail : drop (length (p ++ r) - length end) (p ++ r) ≡ end =
      (bytes_eq_iff (drop (length (p ++ r) - length end) (p ++ r)) end).0 (ground arith) in
    let last : drop n r ≡ end = sym (ap (λ k. drop k (p ++ r)) total ∙ drop-append p r n) ∙ tail in
    let count : length (p ++ r) - length end - length p ≡ n = omega (arith, length-append p r) in
    let inner : slice (length p) (length end) (p ++ r) ≡ take n r =
      ap (λ k. take k (drop (length p) (p ++ r))) count ∙ ap (take n) (drop_all p r) in
    take-drop n r
    ∙ ap (λ (t : Bytes). take n r ++ t) last
    ∙ sym (ap (λ (t : Bytes). t ++ end) inner)

-- A prefix and a suffix that cannot overlap.
pub enclosed :
    (p end part : Bytes)
    → ((r : Bytes) → has_suffix end (p ++ r) ≡ true → length end ≤ length r)
    → (has_prefix p part && has_suffix end part) ≡ true
    → p ++ (slice (length p) (length end) part ++ end) ≡ part
enclosed p end part apart h =
    let r = drop (length p) part in
    let whole : part ≡ p ++ r = has_prefix-append p part (ground arith) in
    let ends : has_suffix end (p ++ r) ≡ true = rw (← whole) (ground arith) in
    let inside : r ≡ slice (length p) (length end) part ++ end =
      slice-append p end r (apart r ends) ends
      ∙ ap (λ (t : Bytes). slice (length p) (length end) t ++ end) (sym whole) in
    ap (λ (t : Bytes). p ++ t) (sym inside) ∙ sym whole

onto_first-join :
    (x : ℕ) (parts : List Bytes)
    → parts ≢ []
    → join slash (onto_first x parts) ≡ x ∷ join slash parts
unfolding join
onto_first-join x [] h = absurd (h refl)
onto_first-join x (part ∷ []) h = refl
onto_first-join x (part ∷ next ∷ parts) h = refl

onto_some : (x : ℕ) (parts : List Bytes) → onto_first x parts ≢ []
onto_some x [] h = cc
onto_some x (part ∷ parts) h = cc

pub split_some : (c : ℕ) (s : Bytes) → split c s ≢ []
unfolding split
split_some c [] = λ h. cc
split_some c (x ∷ s) =
    if_intro (λ p. p ≢ []) (x == c) (λ _. λ (h : [] ∷ split c s ≡ []). cc)
      (λ _. onto_some x (split c s))

join_cons : (parts : List Bytes) → parts ≢ [] → join slash ([] ∷ parts) ≡ slash ∷ join slash parts
unfolding join
join_cons [] h = absurd (h refl)
join_cons (part ∷ parts) h = refl

-- Joining undoes splitting.
pub join-split : (s : Bytes) → join slash (split slash s) ≡ s
unfolding split join
join-split [] = refl
join-split (x ∷ s) = elim (Bool-cases (x == slash)) [
  | inl here ↦ rw here (
      join_cons (split slash s) (split_some slash s)
      ∙ ap (λ (t : Bytes). slash ∷ t) (join-split s)
      ∙ ap (λ c. c ∷ s) (sym ((==_iff x slash).0 here)))
  | inr there ↦ rw there (
      onto_first-join x (split slash s) (split_some slash s)
      ∙ ap (λ (t : Bytes). x ∷ t) (join-split s))
]

-- Splitting a part before a separator takes the part off.
pub split-append :
    (c : ℕ) (part rest : Bytes)
    → contains c part ≡ false
    → split c (part ++ (c ∷ rest)) ≡ part ∷ split c rest
unfolding split contains
split-append c [] rest h = ground arith
split-append c (x ∷ part) rest h = rw (split-append c part rest (ground arith)) (
    if_intro (λ s. s ≡ (x ∷ part) ∷ split c rest) (x == c) (λ same. absurd (ground arith))
      (λ other. refl))

pub split_part : (c : ℕ) (part : Bytes) → contains c part ≡ false → split c part ≡ part ∷ []
unfolding split contains
split_part c [] h = refl
split_part c (x ∷ part) h =
    rw (split_part c part (ground arith))
      (if_intro (λ s. s ≡ (x ∷ part) ∷ []) (x == c) (λ same. absurd (ground arith)) (λ other. refl))
