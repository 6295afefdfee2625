-- ===== src/SkipList/Insert.antt =====
-- The part of `add` that inserts a new node.
use mathlib.Core.Option.{some-injective}
use k_lsm_engine.Prelude.{
  ℕ, zero, suc, ◌+◌, ◌-◌, ◌≤◌, ◌<◌, ◌≡◌, ◌≢◌, inl, inr, refl, sym, ap, ◌∙◌, Bool, true, false,
  Option, none, some, List, [], ◌∷◌, ◌++◌, All, length, length-append, length-replicate, replicate,
  get_elem?, if◌then◌else◌, Bool-cases, arith, Bytes, str_lt, ok, ltb,
}
use k_lsm_engine.Entry.{StorageEntry}
use k_lsm_engine.SkipList.{Node, SkipList, head, insert_node, generate_level}
use k_lsm_engine.SkipList.Levels.{generate_level_bounds}
use k_lsm_engine.SkipList.Chain.{Cell, is_tall, first_at, find_last, last_from, Linked}
use k_lsm_engine.SkipList.Walk.{AreBelow, updates, get_elem?-updates, length-updates}
use k_lsm_engine.SkipList.Link.{All-before, new_cell, Linked-frame}
use k_lsm_engine.SkipList.Round.{IsLinked, link-IsLinked}
use k_lsm_engine.SkipList.Invariant.{IsOrdered, head_cell, IsSkipList}

pub get_elem?-append_left {ℓ} :
    {A : Type ℓ} (xs ys : List A) (i : ℕ) {x : A}
    → get_elem? xs i ≡ some x
    → get_elem? (xs ++ ys) i ≡ some x
get_elem?-append_left [] ys i h = cc
get_elem?-append_left (x ∷ xs) ys zero h = h
get_elem?-append_left (x ∷ xs) ys (suc i) h = get_elem?-append_left xs ys i h

pub get_elem?-append_last {ℓ} :
    {A : Type ℓ} (xs : List A) (y : A) → get_elem? (xs ++ y ∷ []) (length xs) ≡ some y
get_elem?-append_last [] y = refl
get_elem?-append_last (x ∷ xs) y = get_elem?-append_last xs y

lt_of_get_elem? {ℓ} :
    {A : Type ℓ} (xs : List A) (i : ℕ) {x : A} → get_elem? xs i ≡ some x → i < length xs
lt_of_get_elem? [] i h = cc
lt_of_get_elem? (x ∷ xs) zero h = omega arith
lt_of_get_elem? (x ∷ xs) (suc i) h = omega (arith, lt_of_get_elem? xs i h)

-- Past the updates stand the heads of the levels that were empty.
get_elem?-append_replicate {ℓ} :
    {A : Type ℓ} (xs : List A) (n i : ℕ) (a : A)
    → length xs ≤ i
    → i < length xs + n
    → get_elem? (xs ++ replicate n a) i ≡ some a
get_elem?-append_replicate [] zero i a h h' = absurd (omega arith)
get_elem?-append_replicate [] (suc n) zero a h h' = refl
get_elem?-append_replicate [] (suc n) (suc i) a h h' =
    get_elem?-append_replicate [] n i a (omega arith) (omega arith)
get_elem?-append_replicate (x ∷ xs) n zero a h h' = absurd (omega arith)
get_elem?-append_replicate (x ∷ xs) n (suc i) a h h' =
    get_elem?-append_replicate xs n i a (omega arith) (omega arith)

-- The new cell in its place, still on no level.
module _ (nodes : List Node) (node : Node) (after : List Cell) where
  abbrev start : Cell
  start = new_cell (length nodes) node.key node.value 0

  first_at-start :
      (i : ℕ) (mid : List Cell) → first_at i (mid ++ after) ≡ first_at i (mid ++ start ∷ after)
  first_at-start i [] = ground arith
  first_at-start i (m ∷ mid) = elim (Bool-cases (is_tall i m)) [
    | inl tall ↦ rw tall
    | inr low ↦ rw low (first_at-start i mid)
  ]

  All-insert :
      (P : Cell → Type 0) (before : List Cell)
      → P start
      → All P (before ++ after)
      → All P (before ++ start ∷ after)
  All-insert P [] p h = (p, h)
  All-insert P (c ∷ before) p h = (h.0, All-insert P before p h.1)

  more_nodes :
      (cells : List Cell)
      → Linked nodes cells
      → All (λ c. get_elem? (nodes ++ node ∷ []) c.at ≡ get_elem? nodes c.at) cells
  more_nodes [] l = tt
  more_nodes (c ∷ cells) l =
      (get_elem?-append_left nodes (node ∷ []) c.at l.0.there ∙ sym l.0.there, more_nodes cells l.2)

  new_apart : (cells : List Cell) → Linked nodes cells → All (λ d. length nodes ≢ d.at) cells
  new_apart [] l = tt
  new_apart (c ∷ cells) l =
      ((λ e. absurd (omega (arith, lt_of_get_elem? nodes c.at l.0.there))), new_apart cells l.2)

  Linked-start :
      (before : List Cell)
      → Linked nodes (before ++ after)
      → Linked (nodes ++ node ∷ []) (before ++ start ∷ after)
  Linked-start [] l = (
    record {
      node = node;
      there = get_elem?-append_last nodes node;
      key = refl;
      value = refl;
      next = λ i h. absurd (omega arith);
    },
    new_apart after l,
    Linked-frame nodes (nodes ++ node ∷ []) after (more_nodes after l) l,
  )
  Linked-start (c ∷ before) l = (
    record {
      node = l.0.node;
      there = get_elem?-append_left nodes (node ∷ []) c.at l.0.there;
      key = l.0.key;
      value = l.0.value;
      next = λ i h. l.0.next i h ∙ ap some (first_at-start i before);
    },
    All-insert (λ d. c.at ≢ d.at) before
        (λ e. absurd (omega (arith, lt_of_get_elem? nodes c.at l.0.there))) l.1,
    Linked-start before l.2,
  )

-- No cell is higher than the levels of the list.
find_last-above_levels :
    (levels i : ℕ) (cells : List Cell)
    → levels ≤ i
    → All (λ c. (0 < c.height) × (c.height ≤ levels)) cells
    → find_last i cells ≡ none
find_last-above_levels levels i [] le h = refl
find_last-above_levels levels i (c ∷ cells) le h =
    let low : is_tall i c ≡ false = ground (arith, h.0) in
    rw (find_last-above_levels levels i cells le h.1, low)

raised :
    (cells : List Cell) (m n : ℕ)
    → m ≤ n
    → All (λ c. (0 < c.height) × (c.height ≤ m)) cells
    → All (λ c. (0 < c.height) × (c.height ≤ n)) cells
raised [] m n le h = tt
raised (c ∷ cells) m n le h = (omega (arith, h.0), raised cells m n le h.1)

above_of_below :
    (key : Bytes) (c : Cell) (before after : List Cell)
    → str_lt c.key key ≡ true
    → All (λ d. str_lt c.key d.key ≡ true) (before ++ after)
    → (x : Cell) → x.key ≡ key
    → All (λ d. str_lt c.key d.key ≡ true) (before ++ x ∷ after)
above_of_below key c [] after lt a x e = (rw e lt, a)
above_of_below key c (d ∷ before) after lt a x e =
    (a.0, above_of_below key c before after lt a.1 x e)

IsOrdered-insert :
    (x : Cell) (before after : List Cell)
    → AreBelow x.key before
    → All (λ d. str_lt x.key d.key ≡ true) after
    → IsOrdered (before ++ after)
    → IsOrdered (before ++ x ∷ after)
IsOrdered-insert x [] after b a o = (a, o)
IsOrdered-insert x (c ∷ before) after b a o =
    (above_of_below x.key c before after b.0 o.0 x refl, IsOrdered-insert x before after b.1 a o.1)

All-put :
    (P : Cell → Type 0) (x : Cell) (before after : List Cell)
    → P x
    → All P (before ++ after)
    → All P (before ++ x ∷ after)
All-put P x [] after p h = (p, h)
All-put P x (c ∷ before) after p h = (h.0, All-put P x before after p h.1)

module _ (l : SkipList) (key : Bytes) (val : StorageEntry) (before after : List Cell)
    (coins : List Bool) (v : IsSkipList l (before ++ after)) where
  abbrev pub new_node : Node
  new_node = record { key = key; value = val; next = replicate (generate_level coins) none }

  abbrev pub update' : List ℕ
  update' = updates l.levels head_cell before [] ++ replicate (generate_level coins - l.levels) head

  new_heights : All (λ c. (0 < c.height) × (c.height ≤ l.levels)) before
  new_heights = All-before (λ c. (0 < c.height) × (c.height ≤ l.levels)) before after v.heights

  update'-last :
      (i : ℕ)
      → i < generate_level coins
      → get_elem? update' i ≡ some (last_from i head_cell before).0.at
  update'-last i h = elim (Bool-cases (ltb i l.levels)) [
    | inl low ↦
        get_elem?-append_left (updates l.levels head_cell before []) _ i
          (get_elem?-updates l.levels i head_cell before [] (ground arith))
    | inr high ↦
        let le : l.levels ≤ i = ground arith in
        rw (find_last-above_levels l.levels i before le new_heights) (
          get_elem?-append_replicate (updates l.levels head_cell before []) _ i head
            (omega (arith, length-updates l.levels head_cell before []))
            (omega (arith, length-updates l.levels head_cell before [])))
  ]

  pub linked :
      IsLinked
        (length l.nodes)
        key
        val
        update'
        head_cell
        before
        after
        (l.nodes ++ new_node ∷ [])
        0
        (generate_level coins)
        (generate_level coins)
  linked =
      link-IsLinked (length l.nodes) key val update' head_cell before after (generate_level coins) 0
        (generate_level coins) (l.nodes ++ new_node ∷ []) (omega arith)
        (Linked-start l.nodes new_node after (head_cell ∷ before) v.linked)
        (omega (arith, generate_level_bounds coins))
        (λ node h.
          let e : new_node ≡ node =
            some-injective _ _ (sym (get_elem?-append_last l.nodes new_node) ∙ h) in
          rw (← e) (
            let nil : Option ℕ = none in
            omega (arith, length-replicate (generate_level coins) nil)))
        update'-last

  -- The cell of the key between the others.
  abbrev pub inserted : List Cell
  inserted = before ++ new_cell (length l.nodes) key val (generate_level coins) ∷ after

  abbrev pub new_list : SkipList
  new_list = record {
    nodes = linked.linked;
    levels = if ltb l.levels (generate_level coins) then generate_level coins else l.levels;
    size = l.size + 1;
  }

  pub insert_node-linked :
      insert_node l key val (updates l.levels head_cell before []) coins ≡ ok new_list
  unfolding insert_node
  insert_node-linked = rw linked.links

  module _ (below : AreBelow key before) (above : All (λ d. str_lt key d.key ≡ true) after) where
    pub new_list-IsSkipList : IsSkipList new_list inserted
    new_list-IsSkipList = record {
      linked = linked.order;
      ordered = IsOrdered-insert _ before after below above v.ordered;
      heights =
          All-put (λ c. (0 < c.height) × (c.height ≤ new_list.levels)) _ before after
            (ground (arith, generate_level_bounds coins))
            (raised (before ++ after) l.levels new_list.levels (ground arith) v.heights);
      levels = ground (arith, v.levels, generate_level_bounds coins);
      size = omega (
        arith,
        v.size,
        length-append before after,
        length-append before (new_cell (length l.nodes) key val (generate_level coins) ∷ after),
      );
      room = omega (
        arith,
        v.room,
        linked.size,
        length-append l.nodes (new_node ∷ []),
        length-append before after,
        length-append before (new_cell (length l.nodes) key val (generate_level coins) ∷ after),
      );
    }
