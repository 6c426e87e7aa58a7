-- ===== src/Contract/Fields.antt =====
-- agents/decisioncontract/v1/validate.go: the patterns of identifiers, route IDs, locales and
-- digests, and lists of unique identifiers.
use Prim.Native.Char.{code}
use gobeyond.Common.{
  ℕ, suc, String, Bool, true, false, not, ◌&&◌, ◌||◌, List, [], ◌∷◌, leb, ◌==◌, all, length, count,
  ltb, if◌then◌else◌,
}

-- The code points of a text.
abbrev pub codes : String → List ℕ
codes String.[] = []
codes (String.◌∷◌ c s) = code c ∷ codes s

abbrev is_digit : ℕ → Bool
is_digit c = leb 48 c && leb c 57

abbrev is_lower : ℕ → Bool
is_lower c = leb 97 c && leb c 122

abbrev is_alphanumeric : ℕ → Bool
is_alphanumeric c = is_digit c || is_lower c || leb 65 c && leb c 90

-- A text of a first and any number of further characters.
abbrev begins_and_goes_on : (ℕ → Bool) → (ℕ → Bool) → List ℕ → Bool
begins_and_goes_on first next [] = false
begins_and_goes_on first next (c ∷ cs) = first c && all next cs

-- identifierPattern: `^[A-Za-z0-9][A-Za-z0-9_.:-]*$`
unfoldable pub is_identifier : String → Bool
is_identifier s =
    begins_and_goes_on is_alphanumeric
      (λ c. is_alphanumeric c || c == 95 || c == 46 || c == 58 || c == 45) (codes s)

abbrev follows_slash : List ℕ → Bool
follows_slash [] = false
follows_slash (c ∷ cs) =
    c == 47
    && begins_and_goes_on is_alphanumeric
        (λ d. is_alphanumeric d || d == 46 || d == 95 || d == 47 || d == 45) cs

-- `//`, or a slash at the end
no_empty_part : List ℕ → Bool
no_empty_part [] = true
no_empty_part (c ∷ []) = not (c == 47)
no_empty_part (c ∷ d ∷ cs) = not (c == 47 && d == 47) && no_empty_part (d ∷ cs)

-- isRouteID: routePattern is `^/[A-Za-z0-9][A-Za-z0-9._/-]*$`
unfoldable pub is_route_id : String → Bool
unfolding no_empty_part
is_route_id s = follows_slash (codes s) && no_empty_part (codes s)

-- sha256Pattern: `^[0-9a-f]{64}$`
unfoldable pub is_sha256 : String → Bool
is_sha256 s = length (codes s) == 64 && all (λ c. is_digit c || leb 97 c && leb c 102) (codes s)

-- What follows a hyphen: 2 to 8 letters or digits, then the end or another hyphen; `n` counts them.
locale_parts : ℕ → List ℕ → Bool
locale_parts n [] = leb 2 n && leb n 8
locale_parts n (c ∷ cs) =
    if c == 45
    then leb 2 n && leb n 8 && locale_parts 0 cs
    else ((is_lower c || is_digit c) && locale_parts (suc n) cs)

-- The language: 2 or 3 letters.
language : ℕ → List ℕ → Bool
unfolding locale_parts
language n [] = leb 2 n && leb n 3
language n (c ∷ cs) =
    if c == 45 then leb 2 n && leb n 3 && locale_parts 0 cs else (is_lower c && language (suc n) cs)

-- localePattern: `^[a-z]{2,3}(?:-[a-z0-9]{2,8})*$`
unfoldable pub is_locale : String → Bool
unfolding language
is_locale s = language 0 (codes s)

-- The loops that keep the texts seen in a map: every one is an identifier, and none comes twice.
unfoldable pub are_identifiers : List String → List String → Bool
are_identifiers seen [] = true
are_identifiers seen (id ∷ ids) =
    let rest = are_identifiers (id ∷ seen) ids in is_identifier id && count id seen == 0 && rest

-- containsString
unfoldable pub contains_string : List String → String → Bool
contains_string values target = ltb 0 (count target values)
