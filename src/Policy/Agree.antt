-- ===== src/Policy/Agree.antt =====
-- policy/policy.go and router/pattern.go: the policy matches a path as the router does.
use gobeyond.Common.{
  ◌≡◌, refl, ap, Bool, true, false, inl, inr, Option, none, List, [], ◌∷◌, map, Option-cases,
}
use gobeyond.Router.Bytes.{Bytes, bytes_eq}
use gobeyond.Router.Pattern.{
  Segment, literal, dynamic, catch_all, optional_catch_all, Pattern, match_path, match_parts,
  split_path, match_split, Params, set_param,
}
use gobeyond.Policy.Pattern.{
  PathKind, literal_part, dynamic_part, rest_part, optional_part, PathSegment, split_source,
  match_segments, match_source,
}

-- A segment of the policy as one of the router.
abbrev pub route_segment_of : PathKind → Bytes → Bytes → Segment
route_segment_of literal_part name value = record { kind = literal; value = value }
route_segment_of dynamic_part name value = record { kind = dynamic; value = name }
route_segment_of rest_part name value = record { kind = catch_all; value = name }
route_segment_of optional_part name value = record { kind = optional_catch_all; value = name }

abbrev pub route_segment : PathSegment → Segment
route_segment s = route_segment_of s.kind s.name s.value

only_if :
    (b : Bool) (x y : Option Params)
    → x ≡ y
    → (elim b [ true ↦ x | false ↦ none ]) ≡ (elim b [ true ↦ y | false ↦ none ])
only_if true x y h = h
only_if false x y h = refl

module _ (segments : List PathSegment) (parts : List Bytes)
    (rest : (params : Params)
      → match_segments segments parts params
        ≡ match_parts (map route_segment segments) parts params)
    (name value part : Bytes) (params : Params) where
  -- One round of the two loops.
  match_segment_agree :
      (k : PathKind)
      → match_segments
          (record { kind = k; name = name; value = value } ∷ segments)
          (part ∷ parts)
          params
        ≡ match_parts
            (route_segment_of k name value ∷ map route_segment segments)
            (part ∷ parts)
            params
  unfolding match_segments match_parts
  match_segment_agree literal_part =
      only_if (bytes_eq value part) (match_segments segments parts params)
        (match_parts (map route_segment segments) parts params) (rest params)
  match_segment_agree dynamic_part = rest (set_param name part params)
  match_segment_agree rest_part = refl
  match_segment_agree optional_part = refl

match_end_agree :
    (segments : List PathSegment) (name value : Bytes) (params : Params) (k : PathKind)
    → match_segments (record { kind = k; name = name; value = value } ∷ segments) [] params
      ≡ match_parts (route_segment_of k name value ∷ map route_segment segments) [] params
unfolding match_segments match_parts
match_end_agree segments name value params literal_part = refl
match_end_agree segments name value params dynamic_part = refl
match_end_agree segments name value params rest_part = refl
match_end_agree segments name value params optional_part = refl

match_segments_agree :
    (segments : List PathSegment) (parts : List Bytes) (params : Params)
    → match_segments segments parts params ≡ match_parts (map route_segment segments) parts params
match_segments_agree [] [] params = unfold match_segments match_parts in refl
match_segments_agree [] (part ∷ parts) params = unfold match_segments match_parts in refl
match_segments_agree (s ∷ segments) [] params =
    match_end_agree segments s.name s.value params s.kind
match_segments_agree (s ∷ segments) (part ∷ parts) params =
    match_segment_agree segments parts (match_segments_agree segments parts) s.name s.value part
      params s.kind

pub match_source_agree :
    (source : Bytes) (segments : List PathSegment) (path : Bytes)
    → match_source segments path
      ≡ match_path (record { source = source; segments = map route_segment segments }) path
unfolding match_source match_path split_source split_path
match_source_agree source segments path = elim (Option-cases (split_path path)) [
  | inl missing ↦ rw missing refl
  | inr (parts, found) ↦ rw found (match_segments_agree segments parts [])
]

pub match_path_segments :
    (p q : Pattern) (path : Bytes) → p.segments ≡ q.segments → match_path p path ≡ match_path q path
unfolding match_path
match_path_segments p q path same =
    ap (λ (ss : List Segment). match_split ss (split_path path)) same
