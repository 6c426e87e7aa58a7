-- ===== src/Memstore/Index.antt =====
-- cache/memstore/memstore.go: the index from tags to keys.
use gobeyond.Common.{
  ℕ, ◌≤◌, ◌-◌, String, ◌≡◌, ◌≢◌, refl, ◌∙◌, Option, none, some, List, [], ◌∷◌, count, count-erase,
  erase, is_some, ltb, not, ◌&&◌, str_eq, if◌then◌else◌, arith, eq_iff,
}
use gobeyond.Common.Maps.{Map, lookup, insert, delete, lookup-insert, lookup-delete}
use gobeyond.Memstore.State.{indexed, shrink, unindex_in, unindex, unindex_all}
use gobeyond.Memstore.Ops.{index_tags, add_key}

indexed-shrink :
    (tag t : String) (keys : List String) (index : Map (List String))
    → indexed t (shrink tag keys index) ≡ (if str_eq tag t then keys else indexed t index)
indexed-shrink tag t [] index = ground (arith, lookup-delete tag t index)
indexed-shrink tag t (k ∷ ks) index = ground (arith, lookup-insert tag t (k ∷ ks) index)

indexed-unindex_in :
    (tag key t : String) (o : Option (List String)) (index : Map (List String))
    → lookup tag index ≡ o
    → indexed t (unindex_in tag key o index)
      ≡ (if str_eq tag t then erase key (indexed t index) else indexed t index)
unfolding erase
indexed-unindex_in tag key t none index h = ground (arith, eq_iff tag t)
indexed-unindex_in tag key t (some keys) index h =
    indexed-shrink tag t (erase key keys) index ∙ ground (arith, eq_iff tag t)

indexed-unindex :
    (tag key t : String) (index : Map (List String))
    → indexed t (unindex tag key index)
      ≡ (if str_eq tag t then erase key (indexed t index) else indexed t index)
unfolding unindex
indexed-unindex tag key t index = indexed-unindex_in tag key t (lookup tag index) index refl

-- Taking a key out of a tag takes one occurrence away there, and nothing elsewhere.
count-unindex :
    (tag key j t : String) (index : Map (List String))
    → count j (indexed t (unindex tag key index)) ≡ (
        if str_eq tag t && str_eq key j
        then count j (indexed t index) - 1
        else count j (indexed t index))
count-unindex tag key j t index =
    ground (arith, indexed-unindex tag key t index, count-erase key j (indexed t index))

pub count-unindex_all :
    (key j t : String) (tags : Map ℕ) (index : Map (List String))
    → count j (indexed t index) ≤ 1
    → count j (indexed t (unindex_all key tags index))
      ≡ (if str_eq key j && is_some (lookup t tags) then 0 else count j (indexed t index))
unfolding unindex_all lookup
count-unindex_all key j t [] index once = ground arith
count-unindex_all key j t ((tag, v) ∷ tags) index once =
    let one = count-unindex tag key j t index in
    ground
      (arith, one, count-unindex_all key j t tags (unindex tag key index) (ground (arith, one)))

indexed-insert :
    (tag t : String) (keys : List String) (index : Map (List String))
    → indexed t (insert tag keys index) ≡ (if str_eq tag t then keys else indexed t index)
indexed-insert tag t keys index = ground (arith, lookup-insert tag t keys index)

-- Putting a key in where it is already changes nothing.
count-add_key :
    (key j : String) (keys : List String)
    → count j (add_key key keys)
      ≡ (if str_eq key j && not (ltb 0 (count j keys)) then 1 else count j keys)
count-add_key key j keys = ground (arith, eq_iff key j)

count-insert :
    (tag key j t : String) (index : Map (List String))
    → count j (indexed t (insert tag (add_key key (indexed tag index)) index)) ≡ (
        if str_eq tag t && str_eq key j && not (ltb 0 (count j (indexed t index)))
        then 1
        else count j (indexed t index))
count-insert tag key j t index = ground (
  arith,
  indexed-insert tag t (add_key key (indexed tag index)) index,
  count-add_key key j (indexed tag index),
  eq_iff tag t,
)

pub count-index_tags :
    (key j t : String) (tags : Map ℕ) (index : Map (List String))
    → count j (indexed t index) ≤ 1
    → count j (indexed t (index_tags key tags index))
      ≡ (if str_eq key j && is_some (lookup t tags) then 1 else count j (indexed t index))
unfolding index_tags lookup
count-index_tags key j t [] index once = ground arith
count-index_tags key j t ((tag, v) ∷ tags) index once =
    let one = count-insert tag key j t index in
    ground (
      arith,
      one,
      count-index_tags key j t tags (insert tag (add_key key (indexed tag index)) index)
          (ground (arith, one)),
    )

-- No tag stays in the index without a key.
abbrev pub IsFilled : Map (List String) → Type 0
IsFilled index = (tag : String) → lookup tag index ≢ some []

shrink-IsFilled :
    (tag : String) (keys : List String) (index : Map (List String))
    → IsFilled index
    → IsFilled (shrink tag keys index)
shrink-IsFilled tag [] index h t e = ground (arith, h t, e, lookup-delete tag t index)
shrink-IsFilled tag (k ∷ ks) index h t e =
    ground (arith, h t, e, lookup-insert tag t (k ∷ ks) index)

unindex-IsFilled :
    (tag key : String) (o : Option (List String)) (index : Map (List String))
    → IsFilled index
    → IsFilled (unindex_in tag key o index)
unindex-IsFilled tag key none index h = h
unindex-IsFilled tag key (some keys) index h = shrink-IsFilled tag (erase key keys) index h

pub unindex_all-IsFilled :
    (key : String) (tags : Map ℕ) (index : Map (List String))
    → IsFilled index
    → IsFilled (unindex_all key tags index)
unfolding unindex_all unindex
unindex_all-IsFilled key [] index h = h
unindex_all-IsFilled key ((tag, v) ∷ tags) index h =
    unindex_all-IsFilled key tags (unindex tag key index)
      (unindex-IsFilled tag key (lookup tag index) index h)

insert-IsFilled :
    (tag key : String) (index : Map (List String))
    → IsFilled index
    → IsFilled (insert tag (add_key key (indexed tag index)) index)
insert-IsFilled tag key index h t e =
    ground (arith, h t, e, lookup-insert tag t (add_key key (indexed tag index)) index)

pub index_tags-IsFilled :
    (key : String) (tags : Map ℕ) (index : Map (List String))
    → IsFilled index
    → IsFilled (index_tags key tags index)
unfolding index_tags
index_tags-IsFilled key [] index h = h
index_tags-IsFilled key ((tag, v) ∷ tags) index h =
    index_tags-IsFilled key tags (insert tag (add_key key (indexed tag index)) index)
      (insert-IsFilled tag key index h)

pub delete-IsFilled :
    (tag : String) (index : Map (List String)) → IsFilled index → IsFilled (delete tag index)
delete-IsFilled tag index h t e = ground (arith, h t, e, lookup-delete tag t index)
