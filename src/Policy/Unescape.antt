-- ===== src/Policy/Unescape.antt =====
-- policy/policy.go: what escapePath writes is read back by the pattern matchers.
use gobeyond.Common.{
  ℕ, ◌+◌, ◌*◌, ◌/◌, ◌%◌, ◌<◌, ◌≡◌, refl, ap, ◌∙◌, true, false, some, inl, inr, List, [], ◌∷◌, ◌==◌,
  arith, Bool-cases,
}
use gobeyond.Router.Bytes.{
  Bytes, slash, percent, split, join, path_unescape, unescape_pair, unhex, push, contains,
}
use gobeyond.Router.Pattern.{decode_parts}
use gobeyond.Router.Slices.{split-append, split_part}
use gobeyond.Router.Safe.{AreParts, split-join}
use gobeyond.Policy.Escape.{is_kept, hex, path_escape, escape_parts, escape_path}

-- The text is made of bytes.
abbrev pub AreBytes : Bytes → Type 0
AreBytes [] = Unit
AreBytes (c ∷ s) = (c < 256) × AreBytes s

path_unescape_plain :
    (x : ℕ) (s : Bytes) → (x == percent) ≡ false → path_unescape (x ∷ s) ≡ push x (path_unescape s)
unfolding path_unescape
path_unescape_plain x [] h = ground arith
path_unescape_plain x (y ∷ []) h = ground arith
path_unescape_plain x (y ∷ z ∷ s) h = ground arith

unhex-hex : (n : ℕ) → n < 16 → unhex (hex n) ≡ some n
unfolding unhex hex
unhex-hex n h = ground arith

path_unescape_coded :
    (c : ℕ) (s rest : Bytes)
    → c < 256
    → path_unescape s ≡ some rest
    → path_unescape (percent ∷ hex (c / 16) ∷ hex (c % 16) ∷ s) ≡ some (c ∷ rest)
unfolding path_unescape unescape_pair
path_unescape_coded c s rest small h =
    let whole : c / 16 * 16 + c % 16 ≡ c = omega arith in
    rw (unhex-hex (c / 16) (omega arith), unhex-hex (c % 16) (omega arith), h)
      (ap (λ x. some (x ∷ rest)) whole)

kept_plain : (c : ℕ) → is_kept c ≡ true → (c == percent) ≡ false
unfolding is_kept
kept_plain c h = ground arith

-- Unescaping undoes escaping, on bytes.
pub path_unescape-path_escape : (s : Bytes) → AreBytes s → path_unescape (path_escape s) ≡ some s
unfolding path_escape
path_unescape-path_escape [] h = unfold path_unescape in refl
path_unescape-path_escape (c ∷ s) (small, h) =
    let rest = path_unescape-path_escape s h in
    elim (Bool-cases (is_kept c)) [
      | inl kept ↦
          rw kept (path_unescape_plain c (path_escape s) (kept_plain c kept) ∙ ap (push c) rest)
      | inr coded ↦ rw coded (path_unescape_coded c (path_escape s) s small rest)
    ]

hex_whole : (n : ℕ) → (hex n == slash) ≡ false
unfolding hex
hex_whole n = ground arith

kept_whole : (c : ℕ) → is_kept c ≡ true → (c == slash) ≡ false
unfolding is_kept
kept_whole c h = ground arith

escaped_whole : (s : Bytes) → AreBytes s → contains slash (path_escape s) ≡ false
unfolding path_escape contains
escaped_whole [] h = refl
escaped_whole (c ∷ s) (small, h) =
    let rest = escaped_whole s h in
    elim (Bool-cases (is_kept c)) [
      | inl kept ↦ rw kept (ground (arith, rest, kept_whole c kept))
      | inr coded ↦ rw coded (ground (arith, rest, hex_whole (c / 16), hex_whole (c % 16)))
    ]

abbrev pub AreAllBytes : List Bytes → Type 0
AreAllBytes [] = Unit
AreAllBytes (part ∷ parts) = AreBytes part × AreAllBytes parts

split_escaped :
    (part : Bytes) (parts : List Bytes)
    → AreAllBytes (part ∷ parts)
    → split slash (join slash (escape_parts (part ∷ parts))) ≡ escape_parts (part ∷ parts)
unfolding join escape_parts
split_escaped part [] (h, _) = split_part slash (path_escape part) (escaped_whole part h)
split_escaped part (next ∷ parts) (h, hs) =
    split-append slash (path_escape part) (join slash (escape_parts (next ∷ parts)))
      (escaped_whole part h)
    ∙ ap (λ (ps : List Bytes). path_escape part ∷ ps) (split_escaped next parts hs)

decode_escaped :
    (parts : List Bytes)
    → AreParts parts
    → AreAllBytes parts
    → decode_parts (escape_parts parts) ≡ some parts
unfolding decode_parts escape_parts
decode_escaped [] h k = refl
decode_escaped (part ∷ parts) (dots, whole, h) (small, k) =
    rw (path_unescape-path_escape part small, decode_escaped parts h k, dots, whole) refl

-- A capture of one part or more, none of them `.` or `..` and none with a slash, that escapePath writes
-- into a destination as a catch-all is decoded from there into the same parts.
pub decode_parts-escape_path :
    (part : Bytes) (parts : List Bytes)
    → AreParts (part ∷ parts)
    → AreAllBytes (part ∷ parts)
    → decode_parts (split slash (escape_path (join slash (part ∷ parts)) true))
      ≡ some (part ∷ parts)
unfolding escape_path
decode_parts-escape_path part parts h k =
    rw (split-join part parts h, split_escaped part parts k) (decode_escaped (part ∷ parts) h k)
