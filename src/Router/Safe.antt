-- ===== src/Router/Safe.antt =====
-- router/pattern.go: what a match can hand on. splitPath lets no part through that steps out of its
-- directory, and no parameter of a match has one.
use gobeyond.Common.{
  ◌≡◌, refl, ap, ◌∙◌, false, not, ◌⊎◌, Option, none, some, List, [], ◌∷◌, ◌&&◌, Bool-cases,
  Option-cases, inl, inr, arith,
}
use gobeyond.Router.Bytes.{
  Bytes, slash, backslash, trim, bytes_eq, contains, split, join, path_unescape,
}
use gobeyond.Router.Slices.{split_part, split-append}
use gobeyond.Router.Pattern.{
  SegmentKind, Segment, Pattern, begins_with_slash, is_empty, literal, dynamic, catch_all,
  optional_catch_all, Params, param, set_param, is_dots, is_refused, add_part, decode_parts,
  split_path, match_parts, match_path,
}

-- No part is `.` or `..`.
abbrev pub AreNoDots : List Bytes → Type 0
AreNoDots [] = Unit
AreNoDots (part ∷ parts) = (is_dots part ≡ false) × AreNoDots parts

-- Nor does one have a slash in it.
abbrev pub AreParts : List Bytes → Type 0
AreParts [] = Unit
AreParts (part ∷ parts) = (is_dots part ≡ false) × (contains slash part ≡ false) × AreParts parts

add_part-AreParts :
    (o : Option Bytes) (rest : Option (List Bytes)) (parts : List Bytes)
    → ((tail : List Bytes) → rest ≡ some tail → AreParts tail)
    → add_part o rest ≡ some parts
    → AreParts parts
add_part-AreParts none rest parts h found = cc
add_part-AreParts (some part) none parts h found = cc
add_part-AreParts (some part) (some tail) parts h found = elim (Bool-cases (is_refused part)) [
  | inl refused ↦ cc (rw refused at found)
  | inr kept ↦
      let taken : some (part ∷ tail) ≡ some parts = rw kept at found in
      let same : part ∷ tail ≡ parts = cc taken in
      rw (← same) (ground arith, ground arith, h tail refl)
]

decode_parts-AreParts :
    (encoded parts : List Bytes) → decode_parts encoded ≡ some parts → AreParts parts
unfolding decode_parts
decode_parts-AreParts [] parts found = let same : [] ≡ parts = cc found in rw (← same) tt
decode_parts-AreParts (part ∷ encoded) parts found =
    add_part-AreParts (path_unescape part) (decode_parts encoded) parts
      (decode_parts-AreParts encoded) found

-- What splitPath lets through.
split_path-AreParts :
    (path : Bytes) (parts : List Bytes) → split_path path ≡ some parts → AreParts parts
unfolding split_path
split_path-AreParts path parts found =
    elim (Bool-cases (begins_with_slash path && not (contains backslash path))) [
      | inl taken ↦ elim (Bool-cases (is_empty (trim slash path))) [
        | inl empty ↦
            let answer : some [] ≡ some parts = rw (taken, empty) at found in
            let same : [] ≡ parts = cc answer in rw (← same) tt
        | inr full ↦
            decode_parts-AreParts (split slash (trim slash path)) parts (rw (taken, full) at found)
      ]
      | inr refused ↦ cc (rw refused at found)
    ]

-- Splitting undoes joining.
pub split-join :
    (part : Bytes) (parts : List Bytes)
    → AreParts (part ∷ parts)
    → split slash (join slash (part ∷ parts)) ≡ part ∷ parts
unfolding join
split-join part [] (_, h, _) = split_part slash part h
split-join part (next ∷ parts) (_, h, hs) =
    split-append slash part (join slash (next ∷ parts)) h
    ∙ ap (λ (ps : List Bytes). part ∷ ps) (split-join next parts hs)

AreParts-AreNoDots : (parts : List Bytes) → AreParts parts → AreNoDots parts
AreParts-AreNoDots [] h = tt
AreParts-AreNoDots (part ∷ parts) (h, _, hs) = (h, AreParts-AreNoDots parts hs)

-- No part of a parameter's value is `.` or `..`.
abbrev AreSafe : Params → Type 0
AreSafe params =
    (name value : Bytes) → param name params ≡ some value → AreNoDots (split slash value)

set_param-AreSafe :
    (name value : Bytes) (params : Params)
    → AreNoDots (split slash value)
    → AreSafe params
    → AreSafe (set_param name value params)
unfolding param
set_param-AreSafe name value params h safe n v found = elim (Bool-cases (bytes_eq name n)) [
  | inl here ↦
      let taken : some value ≡ some v = rw here at found in
      let same : value ≡ v = cc taken in rw (← same) h
  | inr there ↦ safe n v (rw there at found)
]

joined_AreNoDots :
    (part : Bytes) (parts : List Bytes)
    → AreParts (part ∷ parts)
    → AreNoDots (split slash (join slash (part ∷ parts)))
joined_AreNoDots part parts h = rw (split-join part parts h) (AreParts-AreNoDots (part ∷ parts) h)

-- The end of a match at a catch-all segment.
taken_AreSafe :
    (name value : Bytes) (params answer : Params)
    → AreNoDots (split slash value)
    → AreSafe params
    → some (set_param name value params) ≡ some answer
    → AreSafe answer
taken_AreSafe name value params answer h safe found =
    let same : set_param name value params ≡ answer = cc found in
    rw (← same) (set_param-AreSafe name value params h safe)

empty_AreNoDots : AreNoDots (split slash [])
unfolding split bytes_eq
empty_AreNoDots = (refl, tt)

kind-cases :
    (k : SegmentKind)
    → ((k ≡ literal) ⊎ (k ≡ dynamic)) ⊎ ((k ≡ catch_all) ⊎ (k ≡ optional_catch_all))
kind-cases literal = inl (inl refl)
kind-cases dynamic = inl (inr refl)
kind-cases catch_all = inr (inl refl)
kind-cases optional_catch_all = inr (inr refl)

match_parts-AreSafe :
    (segments : List Segment) (parts : List Bytes) (params answer : Params)
    → AreParts parts
    → AreSafe params
    → match_parts segments parts params ≡ some answer
    → AreSafe answer
unfolding match_parts
match_parts-AreSafe [] [] params answer h safe found =
    let same : params ≡ answer = cc found in rw (← same) safe
match_parts-AreSafe [] (part ∷ parts) params answer h safe found = cc
match_parts-AreSafe (segment ∷ segments) [] params answer h safe found =
    elim (kind-cases segment.kind) [
      | inl (inl k) ↦ cc (rw k at found)
      | inl (inr k) ↦ cc (rw k at found)
      | inr (inl k) ↦ cc (rw k at found)
      | inr (inr k) ↦
          taken_AreSafe segment.value [] params answer empty_AreNoDots safe (rw k at found)
    ]
match_parts-AreSafe (segment ∷ segments) (part ∷ parts) params answer (h, free, hs) safe found =
    let rest = join slash (part ∷ parts) in
    let all = joined_AreNoDots part parts (h, free, hs) in
    elim (kind-cases segment.kind) [
      | inl (inl k) ↦ elim (Bool-cases (bytes_eq segment.value part)) [
        | inl hits ↦
            match_parts-AreSafe segments parts params answer hs safe (rw (k, hits) at found)
        | inr misses ↦ cc (rw (k, misses) at found)
      ]
      | inl (inr k) ↦
          match_parts-AreSafe segments parts (set_param segment.value part params) answer hs
            (set_param-AreSafe segment.value part params (rw (split_part slash part free) (h, tt))
              safe)
            (rw k at found)
      | inr (inl k) ↦ taken_AreSafe segment.value rest params answer all safe (rw k at found)
      | inr (inr k) ↦ taken_AreSafe segment.value rest params answer all safe (rw k at found)
    ]

module _ (pattern : Pattern) (path : Bytes) (params : Params) where
  matched_AreSafe : match_path pattern path ≡ some params → AreSafe params
  unfolding match_path
  matched_AreSafe found = elim (Option-cases (split_path path)) [
    | inl refused ↦ cc (rw refused at found)
    | inr (parts, split_up) ↦
        match_parts-AreSafe pattern.segments parts [] params
          (split_path-AreParts path parts split_up) (λ name value. unfold param in λ p. cc)
          (rw split_up at found)
  ]

  -- However a path is encoded, no slash-separated part of the value of a parameter that its match
  -- hands on is `.` or `..`.
  pub match_path-AreNoDots :
      (name value : Bytes)
      → match_path pattern path ≡ some params
      → param name params ≡ some value
      → AreNoDots (split slash value)
  match_path-AreNoDots name value found held = matched_AreSafe found name value held
