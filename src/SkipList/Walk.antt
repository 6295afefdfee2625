-- ===== src/SkipList/Walk.antt =====
-- The walk of `add` and `get` ends, on each level, at the last cell below the key.
use k_lsm_engine.Prelude.{
  ℕ, zero, suc, ◌+◌, ◌≤◌, ◌<◌, ◌≡◌, inl, inr, refl, sym, ap, ◌∙◌, true, false, Option, some, List,
  [], ◌∷◌, ◌++◌, All, ◌==◌, length, get_elem?, Bool-cases, Option-cases, arith, Bytes, str_lt, ok,
}
use k_lsm_engine.SkipList.{Node, next_at, is_before, walk, find_update}
use k_lsm_engine.SkipList.Chain.{
  Cell, is_tall, first_at, find_last, from_last, last_from, last_from-tall, find_last-low, Linked,
  next_at-first_at, Linked-last_from, last_from-below, last_from_height,
}

abbrev pub AreBelow : Bytes → List Cell → Type 0
AreBelow key cells = All (λ c. str_lt c.key key ≡ true) cells

abbrev pub AreFrom : Bytes → List Cell → Type 0
AreFrom key cells = All (λ c. str_lt c.key key ≡ false) cells

is_before-first_at :
    (nodes : List Node) (key : Bytes) (i : ℕ) (after : List Cell)
    → Linked nodes after
    → AreFrom key after
    → is_before nodes key (first_at i after) ≡ ok false
unfolding is_before
is_before-first_at nodes key i [] l f = refl
is_before-first_at nodes key i (c ∷ after) l f = elim (Bool-cases (is_tall i c)) [
  | inl tall ↦ rw (tall, l.0.there, l.0.key, f.0)
  | inr low ↦ rw low (is_before-first_at nodes key i after l.2 f.1)
]

module _ (nodes : List Node) (key : Bytes) where
  -- A walk with a step for each cell below the key ends at the last of them on the level.
  pub walk-last_from :
      (i fuel : ℕ) (c : Cell) (start : List Cell) (mid after : List Cell)
      → next_at nodes c.at i ≡ ok (first_at i (mid ++ after))
      → Linked nodes (mid ++ after)
      → AreBelow key mid
      → AreFrom key after
      → length mid ≤ fuel
      → walk fuel nodes key i c.at ≡ ok (from_last (c, start) (find_last i mid)).0.at
  unfolding walk is_before
  walk-last_from i zero c start [] after n l b f m = refl
  walk-last_from i (suc fuel) c start [] after n l b f m =
      rw (n, is_before-first_at nodes key i after l f)
  walk-last_from i zero c start (d ∷ mid) after n l b f m = absurd (omega arith)
  walk-last_from i (suc fuel) c start (d ∷ mid) after n l b f m = elim (Bool-cases (is_tall i d)) [
    | inl tall ↦
        let n' = next_at-first_at nodes d (mid ++ after) i l.0 (ground arith) in
        let rest = walk-last_from i fuel d mid mid after n' l.2 b.1 f (omega arith) in
        let e = ap (λ (r : Cell × List Cell). ok r.0.at) (last_from-tall i (c, start) d mid tall) in
        rw (rw tall at n, l.0.there, l.0.key, b.0) (rest ∙ sym e)
    | inr low ↦
        let rest =
          walk-last_from i (suc fuel) c start mid after (rw low at n) l.2 b.1 f (omega arith) in
        let e =
          ap (λ (o : Option (Cell × List Cell)). ok (from_last (c, start) o).0.at)
            (find_last-low i d mid low) in
        rest ∙ sym e
  ]

-- the last cell below the key on each of the levels, that of the level 0 first
pub updates : ℕ → Cell → List Cell → List ℕ → List ℕ
updates zero c mid update = update
updates (suc i) c mid update = updates i c mid ((last_from i c mid).0.at ∷ update)

updates-below :
    (n k : ℕ) (c : Cell) (mid : List Cell) (update : List ℕ)
    → n ≤ suc k
    → updates n (last_from k c mid).0 (last_from k c mid).1 update ≡ updates n c mid update
unfolding updates
updates-below zero k c mid update le = refl
updates-below (suc n) k c mid update le =
    rw (last_from-below n k c mid (omega arith))
      (updates-below n k c mid ((last_from n c mid).0.at ∷ update) (omega arith))

AreBelow-last_from :
    (key : Bytes) (i : ℕ) (c : Cell) (mid : List Cell)
    → AreBelow key mid
    → AreBelow key (last_from i c mid).1
AreBelow-last_from key i c [] b = tt
AreBelow-last_from key i c (d ∷ mid) b =
    let rest = AreBelow-last_from key i d mid b.1 in
    elim (Option-cases (find_last i mid)) [
      | inl nothing ↦ elim (Bool-cases (is_tall i d)) [
        | inl tall ↦ rw (nothing, tall) b.1
        | inr low ↦ rw (nothing, low) b
      ]
      | inr (g, found) ↦ rw found (rw found at rest)
    ]

length-last_from : (i : ℕ) (c : Cell) (mid : List Cell) → length (last_from i c mid).1 ≤ length mid
length-last_from i c [] = omega arith
length-last_from i c (d ∷ mid) =
    let rest = length-last_from i d mid in
    elim (Option-cases (find_last i mid)) [
      | inl nothing ↦ elim (Bool-cases (is_tall i d)) [
        | inl tall ↦ rw (nothing, tall) (omega arith)
        | inr low ↦ rw (nothing, low) (omega arith)
      ]
      | inr (g, found) ↦ rw found (omega (arith, rw found at rest))
    ]

module _ (nodes : List Node) (key : Bytes) where
  pub find_update-updates :
      (n : ℕ) (c : Cell) (mid after : List Cell) (update : List ℕ)
      → n ≤ c.height
      → Linked nodes (c ∷ mid ++ after)
      → AreBelow key mid
      → AreFrom key after
      → length mid ≤ length nodes
      → find_update n nodes key c.at update ≡ ok (updates n c mid update)
  unfolding find_update updates
  find_update-updates zero c mid after update h l b f m = refl
  find_update-updates (suc i) c mid after update h l b f m =
      let (c', mid') = last_from i c mid in
      let stop =
        walk-last_from nodes key i (length nodes) c mid mid after
          (next_at-first_at nodes c (mid ++ after) i l.0 (omega arith)) l.2 b f m in
      rw stop (
        find_update-updates i c' mid' after (c'.at ∷ update)
          (omega (arith, last_from_height i c mid (omega arith)))
          (Linked-last_from nodes i c mid after l) (AreBelow-last_from key i c mid b) f
          (omega (arith, length-last_from i c mid))
        ∙ ap ok (updates-below i i c mid (c'.at ∷ update) (omega arith)))

-- Each level has its place among the updates.
get_elem?-updates_from :
    (n i k : ℕ) (c : Cell) (mid : List Cell) (update : List ℕ)
    → n + i ≡ k
    → get_elem? (updates n c mid update) k ≡ get_elem? update i
unfolding updates
get_elem?-updates_from zero i k c mid update e = let e' : k ≡ i = omega arith in rw e'
get_elem?-updates_from (suc n) i k c mid update e =
    get_elem?-updates_from n (suc i) k c mid ((last_from n c mid).0.at ∷ update) (omega arith)

pub get_elem?-updates :
    (n i : ℕ) (c : Cell) (mid : List Cell) (update : List ℕ)
    → i < n
    → get_elem? (updates n c mid update) i ≡ some (last_from i c mid).0.at
unfolding updates
get_elem?-updates zero i c mid update h = absurd (omega arith)
get_elem?-updates (suc n) i c mid update h = elim (Bool-cases (i == n)) [
  | inl last ↦
      let e : i ≡ n = ground arith in
      rw e (get_elem?-updates_from n 0 n c mid ((last_from n c mid).0.at ∷ update) (omega arith))
  | inr before ↦ get_elem?-updates n i c mid ((last_from n c mid).0.at ∷ update) (ground arith)
]

pub length-updates :
    (n : ℕ) (c : Cell) (mid : List Cell) (update : List ℕ)
    → length (updates n c mid update) ≡ n + length update
unfolding updates
length-updates zero c mid update = omega arith
length-updates (suc n) c mid update =
    omega (arith, length-updates n c mid ((last_from n c mid).0.at ∷ update))
