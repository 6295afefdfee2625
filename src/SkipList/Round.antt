-- ===== src/SkipList/Round.antt =====
-- A round of the loop of `add` that links the new node on the level k, and the loop.
use mathlib.Core.Option.{some-injective}
use k_lsm_engine.Prelude.{
  ℕ, zero, suc, ◌+◌, ◌≤◌, ◌<◌, ◌≡◌, ◌≢◌, inl, inr, refl, sym, ap, ◌∙◌, true, Option, some, List, [],
  ◌∷◌, ◌++◌, All, ◌==◌, length, get_elem?, set, length-set, Bool-cases, Option-cases, arith, Bytes,
  ok,
}
use k_lsm_engine.Entry.{StorageEntry}
use k_lsm_engine.SkipList.{Node, set_next, link}
use k_lsm_engine.SkipList.Chain.{
  Cell, is_tall, first_at, find_last, last_from, IsNode, IsApart, Linked, next_at-first_at,
  Linked-last_from, Linked-append, last_from_height,
}
use k_lsm_engine.SkipList.Link.{
  get_elem?-set_self, get_elem?-set_other, get_elem?_below, All-after, new_cell, first_at-none,
  find_last-behind, Linked-frame, short, tall, first_at-grow, grow,
}

module _ (nodes : List Node) (new i : ℕ) (p : Option ℕ) (node : Node) (old : Option ℕ) where
  set_next_lem :
      get_elem? nodes new ≡ some node
      → get_elem? node.next i ≡ some old
      → set_next nodes new i p ≡ ok (set nodes new (record node { next = set node.next i p }))
  unfolding set_next
  set_next_lem h h' = rw (h, h')

find_last-is_tall :
    (k : ℕ) (c : Cell) (mid : List Cell)
    → k < c.height
    → find_last k (c ∷ mid) ≡ some (last_from k c mid)
find_last-is_tall k c mid h =
    let is_tall' : is_tall k c ≡ true = ground arith in
    elim (Option-cases (find_last k mid)) [
      | inl nothing ↦ rw (nothing, is_tall')
      | inr (g, found) ↦ rw found
    ]

module _ (new : ℕ) (key : Bytes) (value : StorageEntry) (after : List Cell) (k : ℕ)
    (nodes : List Node) (head : Cell) (before : List Cell)
    (l : Linked nodes (head ∷ before ++ short new key value k after ∷ after))
    (top : k < head.height)
    (room : (node : Node) → get_elem? nodes new ≡ some node → k < length node.next) where
  v : Cell
  v = (last_from k head before).0

  vmid : List Cell
  vmid = (last_from k head before).1

  lv : Linked nodes (v ∷ vmid ++ short new key value k after ∷ after)
  unfolding v vmid
  lv = Linked-last_from nodes k head before (short new key value k after ∷ after) l

  ln : Linked nodes (short new key value k after ∷ after)
  ln = Linked-append nodes (head ∷ before) (short new key value k after ∷ after) l

  apart : (v.at ≢ new) × IsApart v after
  apart = All-after (λ d. v.at ≢ d.at) vmid (short new key value k after ∷ after) lv.1

  passed : first_at k (vmid ++ short new key value k after ∷ after) ≡ first_at k after
  unfolding vmid
  passed =
      first_at-none k vmid (short new key value k after ∷ after) (find_last-behind k head before)
      ∙ ground arith

  v_height : k < v.height
  unfolding v
  v_height = last_from_height k head before top

  node₁ : Node
  node₁ = record ln.0.node { next = set ln.0.node.next k (first_at k after) }

  node₂ : Node
  node₂ = record lv.0.node { next = set lv.0.node.next k (some new) }

  nodes₁ : List Node
  nodes₁ = set nodes new node₁

  pub after_round : List Node
  after_round = set nodes₁ v.at node₂

  there₁ : get_elem? nodes₁ v.at ≡ some lv.0.node
  unfolding nodes₁
  there₁ = get_elem?-set_other nodes new v.at node₁ (λ e. apart.0 (sym e)) ∙ lv.0.there

  there_new : get_elem? after_round new ≡ some node₁
  unfolding after_round nodes₁
  there_new =
      get_elem?-set_other nodes₁ v.at new node₂ apart.0
      ∙ get_elem?-set_self nodes new node₁ ln.0.there

  pub link-after_round :
      (left : ℕ) (update : List ℕ)
      → get_elem? update k ≡ some (last_from k head before).0.at
      → link (suc left) k new update nodes ≡ link left (k + 1) new update after_round
  unfolding link after_round v
  link-after_round left update here =
      let before' =
        next_at-first_at nodes v (vmid ++ short new key value k after ∷ after) k lv.0 v_height in
      let own = get_elem?_below ln.0.node.next k (room ln.0.node ln.0.there) in
      let first = set_next_lem nodes new k (first_at k after) ln.0.node own.0 ln.0.there own.1 in
      let second =
        set_next_lem nodes₁ v.at k (some new) lv.0.node
          (first_at k (vmid ++ short new key value k after ∷ after)) there₁
          (lv.0.next k v_height) in
      rw (here, before', passed) (unfold node₁ nodes₁ node₂ in rw first (rw second))

  same : (m : ℕ) → m ≢ new → m ≢ v.at → get_elem? after_round m ≡ get_elem? nodes m
  unfolding after_round nodes₁
  same m ne ne' =
      get_elem?-set_other nodes₁ v.at m node₂ (λ e. ne' (sym e))
      ∙ get_elem?-set_other nodes new m node₁ (λ e. ne (sym e))

  same_after :
      (cells : List Cell)
      → All (λ d. new ≢ d.at) cells
      → All (λ d. v.at ≢ d.at) cells
      → All (λ d. get_elem? after_round d.at ≡ get_elem? nodes d.at) cells
  same_after [] a b = tt
  same_after (d ∷ cells) a b =
      (same d.at (λ e. a.0 (sym e)) (λ e. b.0 (sym e)), same_after cells a.1 b.1)

  grown : Linked after_round (tall new key value k after ∷ after)
  unfolding node₁
  grown = (
    record {
      node = node₁;
      there = there_new;
      key = ln.0.key;
      value = ln.0.value;
      next = λ i h. elim (Bool-cases (i == k)) [
        | inl level ↦
            let own = get_elem?_below ln.0.node.next k (room ln.0.node ln.0.there) in
            let e : i ≡ k = ground arith in
            rw e (get_elem?-set_self ln.0.node.next k (first_at k after) own.1)
        | inr other ↦
            get_elem?-set_other ln.0.node.next k i (first_at k after) (ground arith)
            ∙ ln.0.next i (ground arith)
      ];
    },
    ln.1,
    Linked-frame nodes after_round after (same_after after ln.1 apart.1) ln.2,
  )

  relinked :
      IsNode nodes v (vmid ++ short new key value k after ∷ after)
      → IsNode after_round v (vmid ++ tall new key value k after ∷ after)
  unfolding after_round node₂ vmid
  relinked n = record {
    node = node₂;
    there = get_elem?-set_self nodes₁ v.at node₂ there₁;
    key = lv.0.key;
    value = lv.0.value;
    next = λ i h. elim (Bool-cases (i == k)) [
      | inl level ↦
          let e : i ≡ k = ground arith in
          let points =
            first_at-none k vmid (tall new key value k after ∷ after)
              (find_last-behind k head before) in
          let is_new : first_at k (tall new key value k after ∷ after) ≡ some new = ground arith in
          rw e (
            get_elem?-set_self lv.0.node.next k (some new) (lv.0.next k v_height)
            ∙ ap some (sym (points ∙ is_new)))
      | inr other ↦
          get_elem?-set_other lv.0.node.next k i (some new) (ground arith)
          ∙ lv.0.next i h
          ∙ ap some (first_at-grow new key value k after i vmid (ground arith))
    ];
  }

  pub Linked-after_round : Linked after_round (head ∷ before ++ tall new key value k after ∷ after)
  unfolding v vmid
  Linked-after_round =
      grow new key value k after nodes after_round v.at same grown v vmid refl relinked
        (head ∷ before) (find_last-is_tall k head before top) l

  pub room-after_round :
      (m : ℕ)
      → ((node : Node) → get_elem? nodes new ≡ some node → m ≤ length node.next)
      → (node : Node) → get_elem? after_round new ≡ some node
      → m ≤ length node.next
  unfolding node₁
  room-after_round m h node at_new =
      let e : node ≡ node₁ = some-injective _ _ (sym at_new ∙ there_new) in
      rw (e, length-set ln.0.node.next k (first_at k after)) (h ln.0.node ln.0.there)

  pub length-after_round : length after_round ≡ length nodes
  unfolding after_round nodes₁
  length-after_round = length-set nodes₁ v.at node₂ ∙ length-set nodes new node₁

module _ (new : ℕ) (key : Bytes) (value : StorageEntry) (update : List ℕ) (head : Cell)
    (before after : List Cell) where
  -- What the loop makes of the nodes when it goes up to the level `top`.
  pub record IsLinked (nodes : List Node) (k left top : ℕ) : Type 0 where
    pub linked : List Node
    pub links : link left k new update nodes ≡ ok linked
    pub order : Linked linked (head ∷ before ++ new_cell new key value top ∷ after)
    pub size : length linked ≡ length nodes

  pub link-IsLinked :
      (left k top : ℕ) (nodes : List Node)
      → k + left ≡ top
      → Linked nodes (head ∷ before ++ new_cell new key value k ∷ after)
      → top ≤ head.height
      → ((node : Node) → get_elem? nodes new ≡ some node → top ≤ length node.next)
      → ((i : ℕ) → i < top → get_elem? update i ≡ some (last_from i head before).0.at)
      → IsLinked nodes k left top
  unfolding link
  link-IsLinked zero k top nodes e l h room u =
      let e' : k ≡ top = omega arith in
      record { linked = nodes; links = refl; order = rw e' at l; size = refl }
  link-IsLinked (suc left) k top nodes e l h room u =
      let low : k < head.height = omega arith in
      let room' : (node : Node) → get_elem? nodes new ≡ some node → k < length node.next =
        λ node q. level_of (room node q) in
      let round = after_round new key value after k nodes head before l low room' in
      let rest =
        link-IsLinked left (suc k) top round (omega arith)
          (Linked-after_round new key value after k nodes head before l low room') h
          (room-after_round new key value after k nodes head before l low room' top room) u in
      record {
        linked = rest.linked;
        links =
            link-after_round new key value after k nodes head before l low room' left update
              (u k (omega arith))
            ∙ (let up : k + 1 ≡ suc k = omega arith in rw up rest.links);
        order = rest.order;
        size = rest.size ∙ length-after_round new key value after k nodes head before l low room';
      }
    where
      level_of : {n : ℕ} → top ≤ n → k < n
      level_of h' = omega arith
