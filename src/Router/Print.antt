-- ===== src/Router/Print.antt =====
-- router/pattern.go: a pattern that Parse accepts, printed back.
use gobeyond.Common.{
  ◌≤◌, ◌≡◌, refl, sym, ap, ◌∙◌, Bool, true, false, ◌||◌, ◌&&◌, not, List, [], ◌∷◌, ◌++◌, map,
  length, Bool-cases, inl, inr, arith,
}
use gobeyond.Router.Bytes.{
  Bytes, slash, open_bracket, close_bracket, bytes_eq, contains, has_prefix, has_suffix, drop,
  split, join, trim,
}
use gobeyond.Router.Pattern.{
  Segment, SegmentKind, literal, dynamic, catch_all, optional_catch_all, Pattern, Result, ok,
  failed, classify, parse_parts, add_segment, parse, is_empty, is_dots, is_last, takes_rest,
  open_optional, open_rest, begins_with_slash,
}
use gobeyond.Router.Accept.{Result-IsOk}
use gobeyond.Router.Slices.{enclosed, join-split}

-- A segment as it is written in a pattern.
abbrev pub wrap : SegmentKind → Bytes → Bytes
wrap literal v = v
wrap dynamic v = open_bracket ∷ (v ++ (close_bracket ∷ []))
wrap catch_all v = open_rest ++ (v ++ (close_bracket ∷ []))
wrap optional_catch_all v = open_optional ++ (v ++ (close_bracket ∷ close_bracket ∷ []))

abbrev pub print : Segment → Bytes
print segment = wrap segment.kind segment.value

optional_apart :
    (r : Bytes)
    → has_suffix (close_bracket ∷ close_bracket ∷ []) (open_optional ++ r) ≡ true
    → 2 ≤ length r
unfolding has_suffix drop bytes_eq
optional_apart [] h = cc
optional_apart (x ∷ []) h = cc
optional_apart (x ∷ y ∷ r) h = omega arith

rest_apart : (r : Bytes) → has_suffix (close_bracket ∷ []) (open_rest ++ r) ≡ true → 1 ≤ length r
unfolding has_suffix drop bytes_eq
rest_apart [] h = cc
rest_apart (x ∷ r) h = omega arith

dynamic_apart :
    (r : Bytes) → has_suffix (close_bracket ∷ []) ((open_bracket ∷ []) ++ r) ≡ true → 1 ≤ length r
unfolding has_suffix drop bytes_eq
dynamic_apart [] h = cc
dynamic_apart (x ∷ r) h = omega arith

of_segment : {s t : Segment} {part : Bytes} → ok s ≡ ok t → print s ≡ part → print t ≡ part
of_segment {s = s} {t = t} made h = let same : s ≡ t = cc made in rw (← same) h

print-classify :
    (part : Bytes) (segment : Segment) → classify part ≡ ok segment → print segment ≡ part
unfolding classify
print-classify part segment made =
    elim (Bool-cases
      (has_prefix open_optional part && has_suffix (close_bracket ∷ close_bracket ∷ []) part)) [
        | inl one ↦
            of_segment (rw one at made)
              (enclosed open_optional (close_bracket ∷ close_bracket ∷ []) part optional_apart one)
        | inr not_one ↦
            elim (Bool-cases (has_prefix open_rest part && has_suffix (close_bracket ∷ []) part)) [
              | inl two ↦
                  of_segment (rw (not_one, two) at made)
                    (enclosed open_rest (close_bracket ∷ []) part rest_apart two)
              | inr not_two ↦
                  elim (Bool-cases
                    (has_prefix (open_bracket ∷ []) part && has_suffix (close_bracket ∷ []) part)) [
                      | inl three ↦ of_segment (rw (not_one, not_two, three) at made) (
                          enclosed (open_bracket ∷ []) (close_bracket ∷ []) part dynamic_apart
                            three)
                      | inr not_three ↦
                          elim (Bool-cases
                            (contains open_bracket part || contains close_bracket part)) [
                              | inl odd ↦ cc (rw (not_one, not_two, not_three, odd) at made)
                              | inr plain ↦
                                  of_segment (rw (not_one, not_two, not_three, plain) at made) refl
                            ]
                    ]
            ]
      ]

abbrev ends : List Segment → Bool
ends [] = true
ends (segment ∷ segments) = false

-- A catch-all segment is the last one, and no name is empty.
abbrev pub IsWellFormed : List Segment → Type 0
IsWellFormed [] = Unit
IsWellFormed (segment ∷ segments) =
    (is_empty segment.value ≡ false)
    × (takes_rest segment.kind && not (ends segments) ≡ false)
    × IsWellFormed segments

-- The result of a loop of Parse over the parts.
abbrev Prints : List Bytes → List Segment → Type 0
Prints parts segments = (map print segments ≡ parts) × IsWellFormed segments

ends-is_last :
    (parts : List Bytes) (segments : List Segment)
    → map print segments ≡ parts
    → ends segments ≡ is_last parts
ends-is_last [] [] h = refl
ends-is_last [] (segment ∷ segments) h = cc
ends-is_last (part ∷ parts) [] h = cc
ends-is_last (part ∷ parts) (segment ∷ segments) h = refl

add_segment-Prints :
    (part : Bytes) (parts : List Bytes) (c : Result Segment) (rest : Result (List Segment))
    (segments : List Segment)
    → ((segment : Segment) → c ≡ ok segment → print segment ≡ part)
    → ((tail : List Segment) → rest ≡ ok tail → Prints parts tail)
    → add_segment c (is_last parts) rest ≡ ok segments
    → Prints (part ∷ parts) segments
add_segment-Prints part parts (failed e) rest segments h k made = cc
add_segment-Prints part parts (ok segment) rest segments h k made =
    elim (Bool-cases (is_empty segment.value)) [
      | inl empty ↦ cc (rw empty at made)
      | inr named ↦ elim (Bool-cases (takes_rest segment.kind && not (is_last parts))) [
        | inl early ↦ cc (rw (named, early) at made)
        | inr placed ↦ elim (Result-IsOk rest) [
          | inr (e, bad) ↦ cc (rw (named, placed, bad) at made)
          | inl (tail, good) ↦
              let taken : ok (segment ∷ tail) ≡ ok segments = rw (named, placed, good) at made in
              let same : segment ∷ tail ≡ segments = cc taken in
              let (prints, well) = k tail good in
              rw (← same) (
                (cc (h segment refl, prints)),
                (named, rw (ends-is_last parts tail prints) placed, well),
              )
        ]
      ]
    ]

parse_parts-Prints :
    (parts : List Bytes) (segments : List Segment)
    → parse_parts parts ≡ ok segments
    → Prints parts segments
unfolding parse_parts
parse_parts-Prints [] segments made = let same : [] ≡ segments = cc made in rw (← same) (refl, tt)
parse_parts-Prints (part ∷ parts) segments made =
    elim (Bool-cases (is_empty part || is_dots part)) [
      | inl bad ↦ cc (rw bad at made)
      | inr good ↦
          add_segment-Prints part parts (classify part) (parse_parts parts) segments
            (print-classify part) (parse_parts-Prints parts) (rw good at made)
    ]

is_empty_nil : (s : Bytes) → is_empty s ≡ true → s ≡ []
is_empty_nil [] h = refl
is_empty_nil (x ∷ s) h = cc

abbrev segments_of : Result Pattern → List Segment
segments_of (ok pattern) = pattern.segments
segments_of (failed e) = []

-- What a pattern that Parse accepts is made of: its segments, written out and joined by slashes, are
-- its text without the slashes at its ends, no name is empty, and a catch-all comes last.
pub parse-print :
    (source : Bytes) (pattern : Pattern)
    → parse source ≡ ok pattern
    → (join slash (map print pattern.segments) ≡ trim slash source) × IsWellFormed pattern.segments
unfolding parse
parse-print source pattern made = elim (Bool-cases (begins_with_slash source)) [
  | inr wrong ↦ cc (rw wrong at made)
  | inl begins ↦ elim (Bool-cases (is_empty (trim slash source))) [
    | inl empty ↦
        let same : [] ≡ pattern.segments = ap segments_of (rw (begins, empty) at made) in
        rw (← same) (unfold join in sym (is_empty_nil (trim slash source) empty), tt)
    | inr full ↦ elim (Result-IsOk (parse_parts (split slash (trim slash source)))) [
      | inr (e, bad) ↦ cc (rw (begins, full, bad) at made)
      | inl (segments, good) ↦
          let same : segments ≡ pattern.segments =
            ap segments_of (rw (begins, full, good) at made) in
          let (prints, well) = parse_parts-Prints (split slash (trim slash source)) segments good in
          rw (← same) (ap (join slash) prints ∙ join-split (trim slash source), well)
    ]
  ]
]
