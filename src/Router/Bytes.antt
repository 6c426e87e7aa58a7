-- ===== src/Router/Bytes.antt =====
-- The operations of Go's strings and net/url packages that router/pattern.go uses, on lists of
-- bytes.
use gobeyond.Common.{
  ℕ, zero, suc, ◌+◌, ◌-◌, ◌*◌, Bool, true, false, ◌&&◌, ◌||◌, Option, none, some, List, [], ◌∷◌,
  ◌++◌, leb, ◌==◌, if◌then◌else◌, length,
}

abbrev pub Bytes : Type 0
Bytes = List ℕ

abbrev pub slash : ℕ
slash = 47

abbrev pub dot : ℕ
dot = 46

abbrev pub open_bracket : ℕ
open_bracket = 91

abbrev pub close_bracket : ℕ
close_bracket = 93

abbrev pub backslash : ℕ
backslash = 92

abbrev pub percent : ℕ
percent = 37

unfoldable pub bytes_eq : Bytes → Bytes → Bool
bytes_eq [] [] = true
bytes_eq [] (y ∷ ys) = false
bytes_eq (x ∷ xs) [] = false
bytes_eq (x ∷ xs) (y ∷ ys) = x == y && bytes_eq xs ys

-- strings.Contains, of one byte
unfoldable pub contains : ℕ → Bytes → Bool
contains c [] = false
contains c (x ∷ xs) = x == c || contains c xs

-- strings.HasPrefix
unfoldable pub has_prefix : Bytes → Bytes → Bool
has_prefix [] s = true
has_prefix (c ∷ cs) [] = false
has_prefix (c ∷ cs) (x ∷ xs) = c == x && has_prefix cs xs

unfoldable pub drop : ℕ → Bytes → Bytes
drop zero s = s
drop (suc n) [] = []
drop (suc n) (x ∷ xs) = drop n xs

unfoldable pub take : ℕ → Bytes → Bytes
take zero s = []
take (suc n) [] = []
take (suc n) (x ∷ xs) = x ∷ take n xs

-- strings.HasSuffix
unfoldable pub has_suffix : Bytes → Bytes → Bool
unfolding drop bytes_eq
has_suffix end s = leb (length end) (length s) && bytes_eq (drop (length s - length end) s) end

-- `s[i : len(s)-j]`
unfoldable pub slice : ℕ → ℕ → Bytes → Bytes
unfolding take drop
slice i j s = take (length s - j - i) (drop i s)

unfoldable pub trim_left : ℕ → Bytes → Bytes
trim_left c [] = []
trim_left c (x ∷ xs) = elim (x == c) [ true ↦ trim_left c xs | false ↦ x ∷ xs ]

abbrev put_back : ℕ → ℕ → Bytes → Bytes
put_back c x [] = if x == c then [] else x ∷ []
put_back c x (y ∷ ys) = x ∷ y ∷ ys

unfoldable pub trim_right : ℕ → Bytes → Bytes
trim_right c [] = []
trim_right c (x ∷ xs) = put_back c x (trim_right c xs)

-- strings.Trim, of one byte
unfoldable pub trim : ℕ → Bytes → Bytes
unfolding trim_left trim_right
trim c s = trim_right c (trim_left c s)

abbrev pub onto_first : ℕ → List Bytes → List Bytes
onto_first x [] = (x ∷ []) ∷ []
onto_first x (part ∷ parts) = (x ∷ part) ∷ parts

-- strings.Split, at one byte
unfoldable pub split : ℕ → Bytes → List Bytes
split c [] = [] ∷ []
split c (x ∷ xs) = let rest = split c xs in if x == c then [] ∷ rest else onto_first x rest

-- strings.Join, with one byte
unfoldable pub join : ℕ → List Bytes → Bytes
join c [] = []
join c (part ∷ []) = part
join c (part ∷ next ∷ parts) = part ++ (c ∷ join c (next ∷ parts))

-- The value of a hexadecimal digit.
unfoldable pub unhex : ℕ → Option ℕ
unhex c =
    if leb 48 c && leb c 57
    then some (c - 48)
    else if leb 97 c && leb c 102
    then some (c - 87)
    else if leb 65 c && leb c 70
    then some (c - 55)
    else none

unfoldable pub unescape_pair : Option ℕ → Option ℕ → Option Bytes → Option Bytes
unescape_pair (some high) (some low) (some rest) = some ((high * 16 + low) ∷ rest)
unescape_pair _ _ _ = none

abbrev pub push : ℕ → Option Bytes → Option Bytes
push x none = none
push x (some xs) = some (x ∷ xs)

-- url.PathUnescape: none for a `%` without two hexadecimal digits.
unfoldable pub path_unescape : Bytes → Option Bytes
unfolding unhex unescape_pair
path_unescape [] = some []
path_unescape (x ∷ []) = if x == percent then none else some (x ∷ [])
path_unescape (x ∷ y ∷ []) = elim (x == percent) [
  | true ↦ none
  | false ↦ push x (path_unescape (y ∷ []))
]
path_unescape (x ∷ y ∷ z ∷ zs) = elim (x == percent) [
  | true ↦ unescape_pair (unhex y) (unhex z) (path_unescape zs)
  | false ↦ push x (path_unescape (y ∷ z ∷ zs))
]
