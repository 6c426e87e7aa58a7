-- ===== src/Policy/Escape.antt =====
-- policy/policy.go: escapePath, and url.PathEscape as it uses it.
use gobeyond.Common.{
  ℕ, ◌+◌, ◌/◌, ◌%◌, Bool, true, false, ◌&&◌, ◌||◌, List, [], ◌∷◌, ltb, leb, ◌==◌, if◌then◌else◌,
}
use gobeyond.Router.Bytes.{Bytes, slash, percent, split, join}

-- A letter or a digit.
abbrev is_word : ℕ → Bool
is_word c = leb 97 c && leb c 122 || leb 65 c && leb c 90 || leb 48 c && leb c 57

-- A byte of `-_.~$&+:=@`.
abbrev is_mark : ℕ → Bool
is_mark c =
    c == 45
    || c == 95
    || c == 46
    || c == 126
    || c == 36
    || c == 38
    || c == 43
    || c == 58
    || c == 61
    || c == 64

-- The bytes that url.PathEscape leaves alone.
unfoldable pub is_kept : ℕ → Bool
is_kept c = is_word c || is_mark c

-- An upper-case hexadecimal digit.
unfoldable pub hex : ℕ → ℕ
hex n = if ltb n 10 then 48 + n else 55 + n

-- url.PathEscape
unfoldable pub path_escape : Bytes → Bytes
path_escape [] = []
path_escape (c ∷ s) =
    let rest = path_escape s in
    if is_kept c then c ∷ rest else percent ∷ hex (c / 16) ∷ hex (c % 16) ∷ rest

unfoldable pub escape_parts : List Bytes → List Bytes
escape_parts [] = []
escape_parts (part ∷ parts) = path_escape part ∷ escape_parts parts

-- escapePath
unfoldable pub escape_path : Bytes → Bool → Bytes
escape_path value true = join slash (escape_parts (split slash value))
escape_path value false = path_escape value
