-- ===== src/SkipList/Clear.antt =====
-- A list that was cleared is empty.
use k_lsm_engine.Prelude.{◌≡◌, refl, none, List, [], ◌∷◌, ok, replicate, Bytes}
use k_lsm_engine.SkipList.{Node, SkipList, get, entries, clear}

-- What `clear` makes of the head and the other nodes.
cleared : Node → List Node → SkipList
cleared node rest = record {
  nodes = record node { next = replicate 16 none } ∷ rest;
  levels = 1;
  size = 0;
}

abbrev pub IsEmpty : SkipList → Type 0
IsEmpty l = (l.size ≡ 0) × (entries l ≡ ok []) × ((key : Bytes) → get l key ≡ ok none)

cleared-IsEmpty : (node : Node) (rest : List Node) → IsEmpty (cleared node rest)
unfolding cleared get entries
cleared-IsEmpty node rest = (refl, refl, λ key. refl)

-- A list with a head is cleared, whatever is in it: the result has size 0, no entries, and finds no
-- key.
pub clear-IsEmpty :
    (l : SkipList) (node : Node) (rest : List Node)
    → l.nodes ≡ node ∷ rest
    → (c : SkipList) × (clear l ≡ ok c) × IsEmpty c
unfolding clear cleared
clear-IsEmpty l node rest h = (cleared node rest, rw h, cleared-IsEmpty node rest)
