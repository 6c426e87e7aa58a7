-- ===== src/Policy/Read.antt =====
-- policy/policy.go and router/pattern.go: the policy reads a pattern as the router does.
use gobeyond.Common.{
  ◌≡◌, refl, ap, ◌∙◌, Bool, true, false, not, ◌&&◌, ◌||◌, inl, inr, List, [], ◌∷◌, map, arith,
  Bool-cases,
}
use gobeyond.Router.Bytes.{
  Bytes, slash, open_bracket, close_bracket, has_prefix, has_suffix, contains, split, trim,
}
use gobeyond.Router.Pattern.{
  Segment, Pattern, Result, ok, failed, classify, parse, parse_parts, match_path, is_empty, is_dots,
  is_last, takes_rest, begins_with_slash, open_optional, open_rest,
}
use gobeyond.Router.Accept.{Result-IsOk}
use gobeyond.Policy.Pattern.{
  PathKind, literal_part, dynamic_part, rest_part, optional_part, PathSegment, Parsed, parsed,
  classify_part, colon, add_path_segment, parse_path_parts, has_query, parse_pattern, match_source,
  takes_all, is_literal,
}
use gobeyond.Policy.Agree.{route_segment_of, route_segment, match_source_agree, match_path_segments}

-- A part that Parse accepts and that does not begin with a colon is read the same.
both_prefixes :
    (part : Bytes) → has_prefix open_optional part ≡ true → has_prefix open_rest part ≡ false
unfolding has_prefix
both_prefixes [] h = cc
both_prefixes (a ∷ []) h = ground arith
both_prefixes (a ∷ b ∷ part) h = ground arith

of_segment : {s t u : Segment} → ok s ≡ ok t → u ≡ s → u ≡ t
of_segment {s = s} {t = t} made h = let same : s ≡ t = cc made in h ∙ same

classify_agree :
    (part : Bytes) (segment : Segment)
    → has_prefix (colon ∷ []) part ≡ false
    → classify part ≡ ok segment
    → route_segment (classify_part part) ≡ segment
unfolding classify classify_part
classify_agree part segment plain made =
    elim (Bool-cases
      (has_prefix open_optional part && has_suffix (close_bracket ∷ close_bracket ∷ []) part)) [
        | inl one ↦
            let not_two : (has_prefix open_rest part && has_suffix (close_bracket ∷ []) part)
                ≡ false =
              ground (arith, both_prefixes part) in
            of_segment (rw one at made) (rw (not_two, one) refl)
        | inr not_one ↦
            elim (Bool-cases (has_prefix open_rest part && has_suffix (close_bracket ∷ []) part)) [
              | inl two ↦ of_segment (rw (not_one, two) at made) (rw two refl)
              | inr not_two ↦
                  elim (Bool-cases
                    (has_prefix (open_bracket ∷ []) part && has_suffix (close_bracket ∷ []) part)) [
                      | inl three ↦
                          of_segment (rw (not_one, not_two, three) at made)
                            (rw (not_two, not_one, plain, three) refl)
                      | inr not_three ↦
                          elim (Bool-cases
                            (contains open_bracket part || contains close_bracket part)) [
                              | inl odd ↦ cc (rw (not_one, not_two, not_three, odd) at made)
                              | inr none_in ↦
                                  of_segment (rw (not_one, not_two, not_three, none_in) at made)
                                    (rw (not_two, not_one, plain, not_three) refl)
                            ]
                    ]
            ]
      ]

-- No part begins with a colon.
abbrev pub AreBracketed : List Bytes → Type 0
AreBracketed [] = Unit
AreBracketed (part ∷ parts) = (has_prefix (colon ∷ []) part ≡ false) × AreBracketed parts

-- What the policy makes of the parts is what the router makes of them.
abbrev Agrees : Parsed (List PathSegment) → List Segment → Type 0
Agrees r segments = (own : List PathSegment) × (r ≡ parsed own) × (map route_segment own ≡ segments)

takes_all_agree :
    (k : PathKind) (name value : Bytes)
    → takes_all k ≡ takes_rest (route_segment_of k name value).kind
takes_all_agree literal_part name value = refl
takes_all_agree dynamic_part name value = refl
takes_all_agree rest_part name value = refl
takes_all_agree optional_part name value = refl

named_agree :
    (k : PathKind) (name value : Bytes)
    → is_empty (route_segment_of k name value).value ≡ false
    → (not (is_literal k) && is_empty name) ≡ false
named_agree literal_part name value h = refl
named_agree dynamic_part name value h = h
named_agree rest_part name value h = h
named_agree optional_part name value h = h

same_name :
    (s : PathSegment)
    → is_empty (route_segment s).value ≡ false
    → (not (is_literal s.kind) && is_empty s.name) ≡ false
same_name s h = named_agree s.kind s.name s.value h

same_rest :
    (s : PathSegment) (final : Bool)
    → (takes_rest (route_segment s).kind && not final) ≡ false
    → (takes_all s.kind && not final) ≡ false
same_rest s final h = rw (takes_all_agree s.kind s.name s.value) h

add_path_segment_agree :
    (s : PathSegment) (final : Bool) (r : Parsed (List PathSegment)) (tail : List Segment)
    → is_empty (route_segment s).value ≡ false
    → (takes_rest (route_segment s).kind && not final) ≡ false
    → Agrees r tail
    → Agrees (add_path_segment s final r) (route_segment s ∷ tail)
add_path_segment_agree s final r tail named placed (own, made, same) = (
  s ∷ own,
  rw (same_rest s final placed, same_name s named, made) refl,
  ap (λ (ss : List Segment). route_segment s ∷ ss) same,
)

-- What Parse asks of a part.
parse_parts_step :
    (part : Bytes) (parts : List Bytes) (segments : List Segment)
    → parse_parts (part ∷ parts) ≡ ok segments
    → (segment : Segment) × (tail : List Segment) × ((is_empty part || is_dots part) ≡ false)
      × (classify part ≡ ok segment)
      × (is_empty segment.value ≡ false)
      × ((takes_rest segment.kind && not (is_last parts)) ≡ false)
      × (parse_parts parts ≡ ok tail)
      × (segment ∷ tail ≡ segments)
unfolding parse_parts
parse_parts_step part parts segments made = elim (Bool-cases (is_empty part || is_dots part)) [
  | inl bad ↦ cc (rw bad at made)
  | inr good ↦ elim (Result-IsOk (classify part)) [
    | inr (e, odd) ↦ cc (rw (good, odd) at made)
    | inl (segment, read) ↦ elim (Bool-cases (is_empty segment.value)) [
      | inl empty ↦ cc (rw (good, read, empty) at made)
      | inr named ↦ elim (Bool-cases (takes_rest segment.kind && not (is_last parts))) [
        | inl early ↦ cc (rw (good, read, named, early) at made)
        | inr placed ↦ elim (Result-IsOk (parse_parts parts)) [
          | inr (e, odd) ↦ cc (rw (good, read, named, placed, odd) at made)
          | inl (tail, rest) ↦
              let taken : ok (segment ∷ tail) ≡ ok segments =
                rw (good, read, named, placed, rest) at made in
              (segment, tail, good, read, named, placed, rest, cc taken)
        ]
      ]
    ]
  ]
]

parse_parts_agree :
    (parts : List Bytes) (segments : List Segment)
    → AreBracketed parts
    → parse_parts parts ≡ ok segments
    → Agrees (parse_path_parts parts) segments
unfolding parse_path_parts parse_parts
parse_parts_agree [] segments h made = let same : [] ≡ segments = cc made in ([], refl, same)
parse_parts_agree (part ∷ parts) segments (plain, h) made =
    let (segment, tail, good, read, named, placed, rest, same) =
      parse_parts_step part parts segments made in
    let first = classify_agree part segment plain read in
    rw (good, ← same, ← first)
      (add_path_segment_agree (classify_part part) (is_last parts) (parse_path_parts parts) tail
        (rw first named) (rw first placed) (parse_parts_agree parts tail h rest))

abbrev segments_of : Result Pattern → List Segment
segments_of (ok pattern) = pattern.segments
segments_of (failed e) = []

parse_agree :
    (source : Bytes) (pattern : Pattern)
    → AreBracketed (split slash (trim slash source))
    → has_query source ≡ false
    → parse source ≡ ok pattern
    → Agrees (parse_pattern source) pattern.segments
unfolding parse parse_pattern
parse_agree source pattern plain clean made = elim (Bool-cases (begins_with_slash source)) [
  | inr wrong ↦ cc (rw wrong at made)
  | inl begins ↦ elim (Bool-cases (is_empty (trim slash source))) [
    | inl empty ↦
        let same : [] ≡ pattern.segments = ap segments_of (rw (begins, empty) at made) in
        ([], rw (begins, clean, empty) refl, same)
    | inr full ↦ elim (Result-IsOk (parse_parts (split slash (trim slash source)))) [
      | inr (e, bad) ↦ cc (rw (begins, full, bad) at made)
      | inl (segments, good) ↦
          let same : segments ≡ pattern.segments =
            ap segments_of (rw (begins, full, good) at made) in
          let (own, read, agree) =
            parse_parts_agree (split slash (trim slash source)) segments plain good in
          (own, rw (begins, clean, full) read, agree ∙ same)
    ]
  ]
]

-- A pattern that the router accepts, that has no part which begins with a colon and no `?`, `#` or
-- backslash, is accepted as a rule's source, and the policy matches every path against it as the
-- router does, with the same parameters.
pub parse_pattern-match_path :
    (source path : Bytes) (pattern : Pattern)
    → AreBracketed (split slash (trim slash source))
    → has_query source ≡ false
    → parse source ≡ ok pattern
    → (own : List PathSegment) × (parse_pattern source ≡ parsed own)
      × (match_source own path ≡ match_path pattern path)
parse_pattern-match_path source path pattern plain clean made =
    let (own, read, same) = parse_agree source pattern plain clean made in
    (
      own,
      read,
      match_source_agree source own path
          ∙ match_path_segments (record { source = source; segments = map route_segment own })
              pattern path same,
    )
