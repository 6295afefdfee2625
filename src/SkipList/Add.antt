-- ===== src/SkipList/Add.antt =====
-- `add` keeps the invariant of the skip list, and sets the value of its key alone.
use mathlib.Core.Path.{subst}
use k_lsm_engine.Prelude.{
  ◌+◌, ◌≤◌, ◌<◌, ◌≡◌, inl, inr, refl, sym, ◌∙◌, Bool, true, false, none, some, List, [], ◌∷◌, ◌++◌,
  All, length, length-append, length-set, if◌then◌else◌, ◌||◌, Bool-cases, arith, Bytes, str_eq,
  str_lt, str_eq_iff, str_lt_irrefl, str_lt_trans, str_lt_total, ok,
}
use k_lsm_engine.Entry.{StorageEntry}
use k_lsm_engine.SkipList.{SkipList, add, add_at, set_value}
use k_lsm_engine.SkipList.Chain.{Cell, Linked-append}
use k_lsm_engine.SkipList.Link.{All-replace}
use k_lsm_engine.SkipList.Walk.{AreBelow, AreFrom}
use k_lsm_engine.SkipList.Overwrite.{changed, with_value, Linked-with_value}
use k_lsm_engine.SkipList.Insert.{inserted, new_list, insert_node-linked, new_list-IsSkipList}
use k_lsm_engine.SkipList.Invariant.{
  IsOrdered, head_cell, IsSkipList, split, lookup_cells, split-IsSplit, found,
}
use k_lsm_engine.SkipList.Reads.{IsOrdered-after, find_update-IsPath}

-- A cell with the key between those below the key and the rest answers for the key.
lookup_cells-put :
    (key at : Bytes) (x : Cell) (before after : List Cell)
    → x.key ≡ key
    → AreBelow key before
    → lookup_cells at (before ++ x ∷ after)
      ≡ (if str_eq key at then some x.value else lookup_cells at (before ++ after))
unfolding lookup_cells
lookup_cells-put key at x [] after e b = rw e
lookup_cells-put key at x (c ∷ before) after e b = ground (
  arith,
  b.0,
  str_eq_iff c.key at,
  str_eq_iff key at,
  str_lt_irrefl key,
  lookup_cells-put key at x before after e b.1,
)

pub is_there : Bytes → List Cell → Bool
is_there key [] = false
is_there key (c ∷ cells) = str_eq c.key key || is_there key cells

is_there-some :
    (key : Bytes) (before : List Cell) (d : Cell) (rest : List Cell)
    → str_eq d.key key ≡ true
    → is_there key (before ++ d ∷ rest) ≡ true
unfolding is_there
is_there-some key [] d rest h = rw h
is_there-some key (c ∷ before) d rest h = ground (arith, is_there-some key before d rest h)

is_there_above :
    (key : Bytes) (after : List Cell)
    → All (λ d. str_lt key d.key ≡ true) after
    → is_there key after ≡ false
unfolding is_there
is_there_above key [] a = refl
is_there_above key (c ∷ after) a =
    ground (arith, a.0, str_eq_iff c.key key, str_lt_irrefl key, is_there_above key after a.1)

is_there-none :
    (key : Bytes) (before after : List Cell)
    → AreBelow key before
    → All (λ d. str_lt key d.key ≡ true) after
    → is_there key (before ++ after) ≡ false
unfolding is_there
is_there-none key [] after b a = is_there_above key after a
is_there-none key (c ∷ before) after b a =
    ground
      (arith, b.0, str_eq_iff c.key key, str_lt_irrefl key, is_there-none key before after b.1 a)

IsOrdered-changed :
    (d d' : Cell) (rest : List Cell)
    → d.key ≡ d'.key
    → (before : List Cell) → IsOrdered (before ++ d ∷ rest)
    → IsOrdered (before ++ d' ∷ rest)
IsOrdered-changed d d' rest e [] o = (rw (← e) o.0, o.1)
IsOrdered-changed d d' rest e (c ∷ before) o = (
  All-replace (λ x. str_lt c.key x.key ≡ true) before d d' rest (λ h. rw (← e) h) o.0,
  IsOrdered-changed d d' rest e before o.1,
)

above_of_from :
    (key : Bytes) (after : List Cell)
    → AreFrom key after
    → IsOrdered after
    → found key after ≡ none
    → All (λ d. str_lt key d.key ≡ true) after
above_of_from key [] f o h = tt
above_of_from key (d ∷ rest) f o h = elim (Bool-cases (str_eq d.key key)) [
  | inl same ↦ let h' = rw same at h in cc
  | inr ne ↦
      let lt : str_lt key d.key ≡ true =
        ground (arith, f.0, str_eq_iff d.key key, str_lt_total d.key key) in
      (lt, all_above key d rest lt o.0)
]
  where
    all_above :
        (k : Bytes) (c : Cell) (cs : List Cell)
        → str_lt k c.key ≡ true
        → All (λ x. str_lt c.key x.key ≡ true) cs
        → All (λ x. str_lt k x.key ≡ true) cs
    all_above k c [] lt a = tt
    all_above k c (x ∷ cs) lt a = (str_lt_trans k c.key x.key lt a.0, all_above k c cs lt a.1)

-- What `add` makes of a skip list: it holds the new value at the key, and else what it held.
pub record IsAdded (l : SkipList) (cells : List Cell) (key : Bytes) (val : StorageEntry)
    (coins : List Bool) : Type 0 where
  pub list : SkipList
  pub cells' : List Cell
  pub adds : add l key val coins ≡ ok list
  pub valid : IsSkipList list cells'
  pub answers :
      (at : Bytes)
      → lookup_cells at cells' ≡ (if str_eq key at then some val else lookup_cells at cells)
  pub size : list.size ≡ (if is_there key cells then l.size else l.size + 1)

module _ (l : SkipList) (key : Bytes) (val : StorageEntry) (coins : List Bool) where
  -- The key is not there.
  add-inserted :
      (before after : List Cell)
      → IsSkipList l (before ++ after)
      → AreBelow key before
      → AreFrom key after
      → found key after ≡ none
      → All (λ d. str_lt key d.key ≡ true) after
      → IsAdded l (before ++ after) key val coins
  unfolding add add_at
  add-inserted before after v b f absent above =
      let p = find_update-IsPath l key before after v b f in
      record {
        list = new_list l key val before after coins v;
        cells' = inserted l key val before after coins v;
        adds =
            rw (p.path, p.last, p.next, p.same, absent)
              (insert_node-linked l key val before after coins v);
        valid = new_list-IsSkipList l key val before after coins v b above;
        answers = λ at. lookup_cells-put key at _ before after refl b;
        size = rw (is_there-none key before after b above) refl;
      }

  -- The key is there.
  add-overwritten :
      (before : List Cell) (d : Cell) (rest : List Cell)
      → IsSkipList l (before ++ d ∷ rest)
      → AreBelow key before
      → AreFrom key (d ∷ rest)
      → str_eq d.key key ≡ true
      → IsAdded l (before ++ d ∷ rest) key val coins
  unfolding add add_at set_value
  add-overwritten before d rest v b f same =
      let p = find_update-IsPath l key before (d ∷ rest) v b f in
      let d' = changed l.nodes d val rest in
      let e = (str_eq_iff d.key key).0 same in
      let lengths : length (before ++ d ∷ rest) ≡ length (before ++ d' ∷ rest) =
        omega (arith, length-append before (d ∷ rest), length-append before (d' ∷ rest)) in
      let n = (Linked-append l.nodes (head_cell ∷ before) (d ∷ rest) v.linked).0 in
      record {
        list = record l { nodes = with_value l.nodes d val rest n.node n.there };
        cells' = before ++ changed l.nodes d val rest ∷ rest;
        adds = rw (p.path, p.last, p.next, p.same, same, n.there);
        valid = record {
          linked =
              Linked-with_value l.nodes d val rest n.node n.there (head_cell ∷ before) v.linked;
          ordered = IsOrdered-changed d d' rest refl before v.ordered;
          heights =
              All-replace (λ c. (0 < c.height) × (c.height ≤ l.levels)) before d d' rest (λ h. h)
                v.heights;
          levels = v.levels;
          size = v.size ∙ lengths;
          room =
              omega
                (arith, v.room, lengths, length-set l.nodes d.at (record n.node { value = val }));
        };
        answers = λ at. ground (
          arith,
          lookup_cells-put key at d' before rest e b,
          lookup_cells-put key at d before rest e b,
        );
        size = rw (is_there-some key before d rest same) refl;
      }

  add-split :
      (before after : List Cell)
      → IsSkipList l (before ++ after)
      → AreBelow key before
      → AreFrom key after
      → IsAdded l (before ++ after) key val coins
  add-split before [] v b f = add-inserted before [] v b f refl tt
  add-split before (d ∷ rest) v b f = elim (Bool-cases (str_eq d.key key)) [
    | inl same ↦ add-overwritten before d rest v b f same
    | inr ne ↦
        let absent : found key (d ∷ rest) ≡ none = rw ne in
        add-inserted before (d ∷ rest) v b f absent
          (above_of_from key (d ∷ rest) f (IsOrdered-after before (d ∷ rest) v.ordered) absent)
  ]

  -- Whatever the coins show, `add` returns a skip list that holds the new value at the key and at
  -- every other key what it held, and has one key more exactly if the key is new.
  pub add-IsAdded : (cells : List Cell) → IsSkipList l cells → IsAdded l cells key val coins
  add-IsAdded cells v =
      let s = split-IsSplit key cells v.ordered in
      subst (λ (cs : List Cell). IsAdded l cs key val coins) s.whole
        (add-split (split key cells).0 (split key cells).1
          (subst (λ (cs : List Cell). IsSkipList l cs) (sym s.whole) v) s.below s.from)
