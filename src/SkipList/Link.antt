-- ===== src/SkipList/Link.antt =====
-- The loop of `add` that links the new node, one level after the other: the cell of the new node
-- grows by a level in each round.
use mathlib.Core.Path.{subst}
use mathlib.Core.Option.{some-injective}
use k_lsm_engine.Prelude.{
  ℕ, zero, suc, ◌<◌, ◌≡◌, ◌≢◌, inl, inr, refl, sym, ap, ◌∙◌, false, none, some, List, [], ◌∷◌, ◌++◌,
  All, ◌==◌, ◌==◌, length, get_elem?, set, Bool-cases, Option-cases, arith, Bytes,
}
use k_lsm_engine.Entry.{StorageEntry}
use k_lsm_engine.SkipList.{Node}
use k_lsm_engine.SkipList.Chain.{
  Cell, is_tall, first_at, find_last, find_last-low, last_from, IsNode, IsApart, Linked,
}

pub get_elem?-set_self {ℓ} :
    {A : Type ℓ} (xs : List A) (i : ℕ) (v : A) {old : A}
    → get_elem? xs i ≡ some old
    → get_elem? (set xs i v) i ≡ some v
get_elem?-set_self [] i v h = cc
get_elem?-set_self (x ∷ xs) zero v h = refl
get_elem?-set_self (x ∷ xs) (suc i) v h = get_elem?-set_self xs i v h

pub get_elem?-set_other {ℓ} :
    {A : Type ℓ} (xs : List A) (i j : ℕ) (v : A) → i ≢ j → get_elem? (set xs i v) j ≡ get_elem? xs j
get_elem?-set_other [] i j v h = refl
get_elem?-set_other (x ∷ xs) zero zero v h = absurd (h refl)
get_elem?-set_other (x ∷ xs) zero (suc j) v h = refl
get_elem?-set_other (x ∷ xs) (suc i) zero v h = refl
get_elem?-set_other (x ∷ xs) (suc i) (suc j) v h = get_elem?-set_other xs i j v (λ e. h (ap suc e))

pub get_elem?_below {ℓ} :
    {A : Type ℓ} (xs : List A) (i : ℕ) → i < length xs → (x : A) × (get_elem? xs i ≡ some x)
get_elem?_below [] i h = absurd (omega arith)
get_elem?_below (x ∷ xs) zero h = (x, refl)
get_elem?_below (x ∷ xs) (suc i) h = get_elem?_below xs i (omega arith)

pub All-middle :
    (P : Cell → Type 0) (before : List Cell) (c : Cell) (after : List Cell)
    → All P (before ++ c ∷ after)
    → P c
All-middle P [] c after h = h.0
All-middle P (b ∷ before) c after h = All-middle P before c after h.1

pub All-before :
    (P : Cell → Type 0) (before after : List Cell) → All P (before ++ after) → All P before
All-before P [] after h = tt
All-before P (b ∷ before) after h = (h.0, All-before P before after h.1)

pub All-after :
    (P : Cell → Type 0) (before after : List Cell) → All P (before ++ after) → All P after
All-after P [] after h = h
All-after P (b ∷ before) after h = All-after P before after h.1

pub All-replace :
    (P : Cell → Type 0) (before : List Cell) (c d : Cell) (after : List Cell)
    → (P c → P d)
    → All P (before ++ c ∷ after)
    → All P (before ++ d ∷ after)
All-replace P [] c d after f h = (f h.0, h.1)
All-replace P (b ∷ before) c d after f h = (h.0, All-replace P before c d after f h.1)

-- The cell of the new node after so many rounds.
abbrev pub new_cell : ℕ → Bytes → StorageEntry → ℕ → Cell
new_cell new key value height = record { at = new; key = key; value = value; height = height }

find_last-none_head :
    (i : ℕ) (d : Cell) (mid : List Cell) → find_last i (d ∷ mid) ≡ none → is_tall i d ≡ false
find_last-none_head i d mid h = elim (Bool-cases (is_tall i d)) [
  | inl tall ↦ elim (Option-cases (find_last i mid)) [
    | inl nothing ↦ let h' = rw (nothing, tall) at h in cc
    | inr (g, found) ↦ let h' = rw found at h in cc
  ]
  | inr low ↦ low
]

-- Where no cell is on the level, the pointer passes all of them.
pub first_at-none :
    (i : ℕ) (mid rest : List Cell)
    → find_last i mid ≡ none
    → first_at i (mid ++ rest) ≡ first_at i rest
first_at-none i [] rest h = refl
first_at-none i (d ∷ mid) rest h =
    let low = find_last-none_head i d mid h in
    rw low (first_at-none i mid rest (sym (find_last-low i d mid low) ∙ h))

-- Where one is, what comes behind does not matter.
first_at-some :
    (i : ℕ) (mid rest rest' : List Cell) {f : Cell × List Cell}
    → find_last i mid ≡ some f
    → first_at i (mid ++ rest) ≡ first_at i (mid ++ rest')
first_at-some i [] rest rest' h = cc
first_at-some i (d ∷ mid) rest rest' h = elim (Bool-cases (is_tall i d)) [
  | inl tall ↦ rw tall
  | inr low ↦ rw low (first_at-some i mid rest rest' (sym (find_last-low i d mid low) ∙ h))
]

-- Behind the last cell of a level there is none on the level.
pub find_last-behind :
    (i : ℕ) (c : Cell) (mid : List Cell) → find_last i (last_from i c mid).1 ≡ none
find_last-behind i c [] = refl
find_last-behind i c (d ∷ mid) =
    let rest = find_last-behind i d mid in
    elim (Option-cases (find_last i mid)) [
      | inl nothing ↦ elim (Bool-cases (is_tall i d)) [
        | inl tall ↦ rw (nothing, tall) nothing
        | inr low ↦ rw (nothing, low) (find_last-low i d mid low ∙ nothing)
      ]
      | inr (g, found) ↦ rw found (rw found at rest)
    ]

pub Linked-frame :
    (nodes nodes' : List Node) (cells : List Cell)
    → All (λ c. get_elem? nodes' c.at ≡ get_elem? nodes c.at) cells
    → Linked nodes cells
    → Linked nodes' cells
Linked-frame nodes nodes' [] h l = tt
Linked-frame nodes nodes' (c ∷ rest) h l = (
  record {
    node = l.0.node;
    there = h.0 ∙ l.0.there;
    key = l.0.key;
    value = l.0.value;
    next = l.0.next;
  },
  l.1,
  Linked-frame nodes nodes' rest h.1 l.2,
)

-- One round: the nodes `new` and `u` change, the one at the level k behind which the new node comes.
module _ (new : ℕ) (key : Bytes) (value : StorageEntry) (k : ℕ) (after : List Cell) where
  abbrev pub short : Cell
  short = new_cell new key value k

  abbrev pub tall : Cell
  tall = new_cell new key value (suc k)

  pub first_at-grow :
      (i : ℕ) (mid : List Cell)
      → i ≢ k
      → first_at i (mid ++ short ∷ after) ≡ first_at i (mid ++ tall ∷ after)
  first_at-grow i [] ne = ground arith
  first_at-grow i (d ∷ mid) ne = elim (Bool-cases (is_tall i d)) [
    | inl is_tall' ↦ rw is_tall'
    | inr low ↦ rw low (first_at-grow i mid ne)
  ]

  module _ (nodes nodes' : List Node) (u : ℕ)
      (same : (m : ℕ) → m ≢ new → m ≢ u → get_elem? nodes' m ≡ get_elem? nodes m)
      (grown : Linked nodes' (tall ∷ after)) where
    IsApart-grow :
        (c : Cell) (mid : List Cell)
        → IsApart c (mid ++ short ∷ after)
        → IsApart c (mid ++ tall ∷ after)
    IsApart-grow c mid h = All-replace (λ d. c.at ≢ d.at) mid short tall after (λ ne. ne) h

    not_new : (c : Cell) (mid : List Cell) → IsApart c (mid ++ short ∷ after) → c.at ≢ new
    not_new c mid h = All-middle (λ d. c.at ≢ d.at) mid short after h

    -- The cells that are not on the level keep their nodes.
    grow_low :
        (bs : List Cell)
        → find_last k bs ≡ none
        → All (λ d. u ≢ d.at) bs
        → Linked nodes (bs ++ short ∷ after)
        → Linked nodes' (bs ++ tall ∷ after)
    grow_low [] nothing ne l = grown
    grow_low (c ∷ mid) nothing ne l =
        let low : is_tall k c ≡ false = find_last-none_head k c mid nothing in
        (
          record {
            node = l.0.node;
            there = same c.at (not_new c mid l.1) (λ e. ne.0 (sym e)) ∙ l.0.there;
            key = l.0.key;
            value = l.0.value;
            next = λ i h. rw (← first_at-grow i mid (ground arith)) (l.0.next i h);
          },
          IsApart-grow c mid l.1,
          grow_low mid (sym (find_last-low k c mid low) ∙ nothing) ne.1 l.2,
        )

    -- The last cell on the level gets the new node as its next one.
    module _ (v : Cell) (vmid : List Cell) (v_at : v.at ≡ u)
        (linked : IsNode nodes v (vmid ++ short ∷ after)
          → IsNode nodes' v (vmid ++ tall ∷ after)) where
      find_last_is :
          (P : Cell → Type 0) (ds rest : List Cell) {f : Cell × List Cell}
          → find_last k ds ≡ some f
          → All P (ds ++ rest)
          → P f.0
      find_last_is P [] rest h a = cc
      find_last_is P (d ∷ ds) rest {f} h a = elim (Option-cases (find_last k ds)) [
        | inl nothing ↦ elim (Bool-cases (is_tall k d)) [
          | inl is_tall' ↦
              let e : some (d, ds) ≡ some f = rw (nothing, is_tall') at h in
              subst (λ (g : Cell × List Cell). P g.0) (some-injective _ _ e) a.0
          | inr low ↦ let h' = rw (nothing, low) at h in cc
        ]
        | inr (g, found) ↦
            let e : some g ≡ some f = rw found at h in
            subst (λ (g' : Cell × List Cell). P g'.0) (some-injective _ _ e)
              (find_last_is P ds rest found a.1)
      ]

      pub grow :
          (bs : List Cell)
          → find_last k bs ≡ some (v, vmid)
          → Linked nodes (bs ++ short ∷ after)
          → Linked nodes' (bs ++ tall ∷ after)
      grow [] h l = cc
      grow (c ∷ mid) h l = elim (Option-cases (find_last k mid)) [
        | inl nothing ↦ elim (Bool-cases (is_tall k c)) [
          | inl is_tall' ↦
              let e : some (c, mid) ≡ some (v, vmid) = rw (nothing, is_tall') at h in
              let p = some-injective _ _ e in
              let at_u : c.at ≡ u = ap (λ (g : Cell × List Cell). g.0.at) p ∙ v_at in
              (
                subst (λ (g : Cell × List Cell). IsNode nodes' g.0 (g.1 ++ tall ∷ after)) (sym p)
                    (linked (
                      subst (λ (g : Cell × List Cell). IsNode nodes g.0 (g.1 ++ short ∷ after)) p
                        l.0)),
                IsApart-grow c mid l.1,
                grow_low mid nothing
                    (subst (λ (m : ℕ). All (λ d. m ≢ d.at) mid) at_u
                      (All-before (λ d. c.at ≢ d.at) mid (short ∷ after) l.1))
                    l.2,
              )
          | inr low ↦ let h' = rw (nothing, low) at h in cc
        ]
        | inr (g, found) ↦
            let e : some g ≡ some (v, vmid) = rw found at h in
            let last = find_last_is (λ d. c.at ≢ d.at) mid (short ∷ after) (found ∙ e) l.1 in
            (
              record {
                node = l.0.node;
                there = same c.at (not_new c mid l.1) (λ q. last (q ∙ sym v_at)) ∙ l.0.there;
                key = l.0.key;
                value = l.0.value;
                next = λ i h'. elim (Bool-cases (i == k)) [
                  | inl level ↦
                      let e' : i ≡ k = ground arith in
                      rw (e', first_at-some k mid (tall ∷ after) (short ∷ after) found)
                        (l.0.next k (ground arith))
                  | inr other ↦ rw (← first_at-grow i mid (ground arith)) (l.0.next i h')
                ];
              },
              IsApart-grow c mid l.1,
              grow mid (found ∙ e) l.2,
            )
      ]
