-- ===== src/Memstore/Reads.antt =====
-- cache/memstore/memstore.go: Get of a consistent store.
use gobeyond.Common.{
  ℕ, ◌≤◌, ◌<◌, String, ◌≡◌, ◌⊎◌, inl, inr, refl, true, none, some, [], ◌∷◌, ltb, erase, count-erase,
  length-erase, arith, eq_iff, Bool-cases, Option-cases,
}
use gobeyond.Common.Maps.{Map, lookup, IsUnique}
use gobeyond.Memstore.State.{Entry, Store, version, remove_element}
use gobeyond.Memstore.Ops.{observe_versions, get, get_found}
use gobeyond.Memstore.Consistency.{IsConsistent}

-- A check of versions that are all in force changes nothing and succeeds.
observe_versions_settled :
    (tags : Map ℕ) (s : Store)
    → IsUnique tags
    → ((t : String) (u : ℕ) → lookup t tags ≡ some u → version t s ≡ u)
    → observe_versions tags s ≡ (s, true)
unfolding observe_versions lookup
observe_versions_settled [] s unique now = refl
observe_versions_settled ((tag, v) ∷ tags) s (p, unique) now =
    let same : version tag s ≡ v = now tag v (ground (arith, eq_iff tag tag)) in
    let later : observe_versions tags s ≡ (s, true) =
      observe_versions_settled tags s unique
        (λ t u held. now t u (ground (arith, p, held, eq_iff tag t))) in
    ground (arith, same, later)

-- The entry moves to the front.
abbrev pub touched : String → Store → Store
touched key s = record s { order = key ∷ erase key s.order }

pub touched-IsConsistent :
    (key : String) (e : Entry) (s : Store)
    → IsConsistent s
    → lookup key s.entries ≡ some e
    → IsConsistent (touched key s)
touched-IsConsistent key e s h held = record {
  shaped = record {
    unique = h.shaped.unique;
    on_order = λ k. ground (
      arith,
      h.shaped.on_order k,
      h.shaped.on_order key,
      count-erase key k s.order,
      eq_iff key k,
    );
    sizes = ground (arith, h.shaped.sizes, h.shaped.on_order key, length-erase key s.order);
    bytes = h.shaped.bytes;
    on_index = h.shaped.on_index;
    filled = h.shaped.filled;
    maps = h.shaped.maps;
  };
  current =
      λ j tag u w. h.current j tag u (record { entry = w.entry; held = w.held; built = w.built });
}

module _ (now : ℕ) (key : String) (s : Store) where
  pub get_absent : lookup key s.entries ≡ none → get now key s ≡ (s, none)
  unfolding get
  get_absent absent = rw absent refl

  module _ (e : Entry) (held : lookup key s.entries ≡ some e) where
    pub get_expired : e.item.expires_at ≤ now → get now key s ≡ (remove_element key e s, none)
    unfolding get get_found
    get_expired late = rw held (ground arith)

    -- In a consistent store the version check of Get never fails.
    pub get_live :
        IsConsistent s → now < e.item.expires_at → get now key s ≡ (touched key s, some e.item)
    unfolding get get_found
    get_live h early =
        let settled : observe_versions e.item.tag_versions s ≡ (s, true) =
          observe_versions_settled e.item.tag_versions s (h.shaped.maps key e held)
            (λ t u built. h.current key t u (record { entry = e; held = held; built = built })) in
        rw held (ground (arith, settled, early))

  -- All that Get can do.
  pub get-cases :
      IsConsistent s
      → (get now key s ≡ (s, none))
        ⊎ ((e : Entry) × (lookup key s.entries ≡ some e)
            × (((e.item.expires_at ≤ now) × (get now key s ≡ (remove_element key e s, none)))
                ⊎ ((now < e.item.expires_at) × (get now key s ≡ (touched key s, some e.item)))))
  get-cases h = elim (Option-cases (lookup key s.entries)) [
    | inl absent ↦ inl (get_absent absent)
    | inr (e, held) ↦ inr (
      e,
      held,
      elim (Bool-cases (ltb now e.item.expires_at)) [
        | inl early ↦ inr (ground arith, get_live e held h (ground arith))
        | inr late ↦ inl (ground arith, get_expired e held (ground arith))
      ],
    )
  ]
