-- ===== src/SkipList/Overwrite.antt =====
-- The part of `add` that replaces the value of a key that is there.
use mathlib.Core.Option.{some-injective}
use k_lsm_engine.Prelude.{
  ℕ, ◌≡◌, ◌≢◌, inl, inr, refl, sym, ap, ◌∙◌, some, List, [], ◌∷◌, ◌++◌, All, get_elem?, set,
  Bool-cases,
}
use k_lsm_engine.Entry.{StorageEntry}
use k_lsm_engine.SkipList.{Node}
use k_lsm_engine.SkipList.Chain.{Cell, is_tall, first_at, IsApart, Linked}
use k_lsm_engine.SkipList.Link.{
  get_elem?-set_self, get_elem?-set_other, All-middle, All-replace, Linked-frame,
}

-- Cells of the same node and levels are pointed to alike.
first_at-replace :
    (i : ℕ) (mid : List Cell) (c d : Cell) (rest : List Cell)
    → c.at ≡ d.at
    → c.height ≡ d.height
    → first_at i (mid ++ c ∷ rest) ≡ first_at i (mid ++ d ∷ rest)
first_at-replace i [] c d rest e h = rw (e, h)
first_at-replace i (m ∷ mid) c d rest e h = elim (Bool-cases (is_tall i m)) [
  | inl tall ↦ rw tall
  | inr low ↦ rw low (first_at-replace i mid c d rest e h)
]

-- The key is there: the node gets the value.
module _ (nodes : List Node) (d : Cell) (val : StorageEntry) (rest : List Cell) where
  abbrev pub changed : Cell
  changed = record d { value = val }

  module _ (node : Node) (there : get_elem? nodes d.at ≡ some node) where
    abbrev pub with_value : List Node
    with_value = set nodes d.at (record node { value = val })

    other_nodes :
        (cells : List Cell)
        → IsApart d cells
        → All (λ c. get_elem? with_value c.at ≡ get_elem? nodes c.at) cells
    other_nodes [] a = tt
    other_nodes (c ∷ cells) a = (
      get_elem?-set_other nodes d.at c.at (record node { value = val }) a.0,
      other_nodes cells a.1,
    )

    pub Linked-with_value :
        (before : List Cell)
        → Linked nodes (before ++ d ∷ rest)
        → Linked with_value (before ++ changed ∷ rest)
    Linked-with_value [] l =
        let e : l.0.node ≡ node = some-injective _ _ (sym l.0.there ∙ there) in
        (
          record {
            node = record node { value = val };
            there = get_elem?-set_self nodes d.at (record node { value = val }) there;
            key = rw (← e) l.0.key;
            value = refl;
            next = λ i h. rw (← e) (l.0.next i h);
          },
          l.1,
          Linked-frame nodes with_value rest (other_nodes rest l.1) l.2,
        )
    Linked-with_value (c ∷ before) l = (
      record {
        node = l.0.node;
        there =
            get_elem?-set_other nodes d.at c.at (record node { value = val })
              (λ e. All-middle (λ x. c.at ≢ x.at) before d rest l.1 (sym e))
            ∙ l.0.there;
        key = l.0.key;
        value = l.0.value;
        next = λ i h. l.0.next i h ∙ ap some (first_at-replace i before d changed rest refl refl);
      },
      All-replace (λ x. c.at ≢ x.at) before d changed rest (λ ne. ne) l.1,
      Linked-with_value before l.2,
    )
