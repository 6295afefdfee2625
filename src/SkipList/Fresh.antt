-- ===== src/SkipList/Fresh.antt =====
-- The skip lists without keys: a new one, and one that was cleared.
use k_lsm_engine.Prelude.{
  ℕ, zero, suc, ◌<◌, ◌≡◌, refl, none, some, List, [], replicate, get_elem?, set, length-set, arith,
  ok,
}
use k_lsm_engine.SkipList.{Node, SkipList, head, new_skip_list, clear}
use k_lsm_engine.SkipList.Chain.{Cell}
use k_lsm_engine.SkipList.Link.{get_elem?-set_self}
use k_lsm_engine.SkipList.Invariant.{IsSkipList}

pub get_elem?-replicate {ℓ} :
    {A : Type ℓ} (n i : ℕ) (a : A) → i < n → get_elem? (replicate n a) i ≡ some a
get_elem?-replicate zero i a h = absurd (omega arith)
get_elem?-replicate (suc n) zero a h = refl
get_elem?-replicate (suc n) (suc i) a h = get_elem?-replicate n i a (omega arith)

-- A new skip list holds nothing.
pub new_skip_list-IsSkipList : IsSkipList new_skip_list []
unfolding new_skip_list
new_skip_list-IsSkipList = record {
  linked = (
    record {
      node = _;
      there = refl;
      key = refl;
      value = refl;
      next = λ i h. get_elem?-replicate 16 i none h;
    },
    tt,
    tt,
  );
  ordered = tt;
  heights = tt;
  levels = omega arith;
  size = refl;
  room = omega arith;
}

-- Whatever it holds, a skip list is cleared to one that holds nothing.
pub clear-IsSkipList :
    (l : SkipList) (cells : List Cell)
    → IsSkipList l cells
    → (l' : SkipList) × (clear l ≡ ok l') × IsSkipList l' []
unfolding clear
clear-IsSkipList l cells v =
    let n = v.linked.0 in
    let node : Node = record n.node { next = replicate 16 none } in
    (
      record { nodes = set l.nodes head node; levels = 1; size = 0 },
      rw n.there,
      record {
        linked = (
          record {
            node = node;
            there = get_elem?-set_self l.nodes head node n.there;
            key = n.key;
            value = n.value;
            next = λ i h. get_elem?-replicate 16 i none h;
          },
          tt,
          tt,
        );
        ordered = tt;
        heights = tt;
        levels = omega arith;
        size = refl;
        room = omega (arith, v.room, length-set l.nodes head node);
      },
    )
