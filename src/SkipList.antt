-- ===== src/SkipList.antt =====
-- internal/storage/memtable_skiplist.go: the nodes live in an arena, the head at index 0, and a
-- pointer is an index or nil. Following nil, or reading a level that a node does not have, panics.
-- The coins of `rand.N(2) == 0` are given by the caller.
pub mod Levels
pub mod Clear
pub mod Chain
pub mod Walk
pub mod Link
pub mod Round
pub mod Invariant
pub mod Reads
pub mod Overwrite
pub mod Insert
pub mod Add
pub mod Fresh
mod Tests
use k_lsm_engine.Prelude.{
  ℕ, zero, suc, ◌+◌, ◌-◌, Bool, true, false, Option, none, some, List, [], ◌∷◌, ◌++◌, length,
  get_elem?, get_or, set, take, drop, replicate, ltb, if◌then◌else◌, Bytes, str_eq, str_lt, Result,
  ok, panicked, ◌>>=◌, checked,
}
use k_lsm_engine.Entry.{
  EntryType, entry_type_put, entry_type_delete, other, StorageEntry, SstableEntry,
}

abbrev pub skip_list_max_levels : ℕ
skip_list_max_levels = 16

pub record Node : Type 0 where
  pub key : Bytes
  pub value : StorageEntry
  pub next : List (Option ℕ)

pub record SkipList : Type 0 where
  pub nodes : List Node
  pub levels : ℕ
  pub size : ℕ

abbrev pub no_entry : StorageEntry
no_entry = record { type = other []; value = [] }

abbrev pub head : ℕ
head = 0

pub new_skip_list : SkipList
new_skip_list = record {
  nodes = record { key = []; value = no_entry; next = replicate skip_list_max_levels none } ∷ [];
  levels = 1;
  size = 0;
}

-- `for level < skipListMaxLevels && rand.N(2) == 0`, on the levels that are left; true is a coin
-- that shows 0, and a list of coins that has run out shows no more of them
pub generate_level_loop : ℕ → ℕ → List Bool → ℕ
generate_level_loop zero level coins = level
generate_level_loop (suc left) level [] = level
generate_level_loop (suc left) level (coin ∷ coins) =
    let higher = generate_level_loop left (level + 1) coins in if coin then higher else level

pub generate_level : List Bool → ℕ
generate_level coins = generate_level_loop (skip_list_max_levels - 1) 1 coins

-- `n.next[i]` of the node at index n
pub next_at : List Node → ℕ → ℕ → Result (Option ℕ)
next_at nodes n i = do node ← checked (get_elem? nodes n); checked (get_elem? node.next i)

-- whether the node exists and its key is below the key
pub is_before : List Node → Bytes → Option ℕ → Result Bool
is_before nodes key none = ok false
is_before nodes key (some n) = do node ← checked (get_elem? nodes n); ok (str_lt node.key key)

abbrev pointed : Option ℕ → Result ℕ
pointed p = checked p

-- `for current.next[i] != nil && current.next[i].key < key`; a walk visits a node once, so the
-- number of nodes is enough fuel
pub walk : ℕ → List Node → Bytes → ℕ → ℕ → Result ℕ
walk zero nodes key i current = ok current
walk (suc fuel) nodes key i current = do
  next ← next_at nodes current i
  before ← is_before nodes key next
  let on = checked next >>= λ n. walk fuel nodes key i n
  if before then on else ok current

-- The loop `for i := levels - 1; i >= 0; i--` of `add`; `update` holds the nodes before the key,
-- that of the level 0 first.
pub find_update : ℕ → List Node → Bytes → ℕ → List ℕ → Result (List ℕ)
find_update zero nodes key current update = ok update
find_update (suc i) nodes key current update = do
  current' ← walk (length nodes) nodes key i current
  find_update i nodes key current' (current' ∷ update)

-- `update[i].next[i] = node`
pub set_next : List Node → ℕ → ℕ → Option ℕ → Result (List Node)
set_next nodes n i p = do
  node ← checked (get_elem? nodes n)
  _ ← checked (get_elem? node.next i)
  ok (set nodes n (record node { next = set node.next i p }))

-- `for i := 0; i < level; i++`, on the levels that are left, linking the node `new`
pub link : ℕ → ℕ → ℕ → List ℕ → List Node → Result (List Node)
link zero i new update nodes = ok nodes
link (suc left) i new update nodes = do
  before ← checked (get_elem? update i)
  after ← next_at nodes before i
  nodes₁ ← set_next nodes new i after
  nodes₂ ← set_next nodes₁ before i (some new)
  link left (i + 1) new update nodes₂

-- what stands behind the node before the key at the level 0, if it has the key
pub same_key : List Node → Bytes → Option ℕ → Result (Option ℕ)
same_key nodes key none = ok none
same_key nodes key (some n) = do
  node ← checked (get_elem? nodes n)
  ok (if str_eq node.key key then some n else none)

pub insert_node : SkipList → Bytes → StorageEntry → List ℕ → List Bool → Result SkipList
insert_node l key val update coins =
    let level = generate_level coins in
    let update' = update ++ replicate (level - l.levels) head in
    let node : Node = record { key = key; value = val; next = replicate level none } in
    do
      nodes ← link level 0 (length l.nodes) update' (l.nodes ++ node ∷ [])
      ok (record {
        nodes = nodes;
        levels = if ltb l.levels level then level else l.levels;
        size = l.size + 1;
      })

pub set_value : SkipList → ℕ → StorageEntry → Result SkipList
set_value l n val = do
  node ← checked (get_elem? l.nodes n)
  ok (record l { nodes = set l.nodes n (record node { value = val }) })

pub add_at : SkipList → Bytes → StorageEntry → List ℕ → List Bool → Option ℕ → Result SkipList
add_at l key val update coins (some n) = set_value l n val
add_at l key val update coins none = insert_node l key val update coins

unfoldable pub add : SkipList → Bytes → StorageEntry → List Bool → Result SkipList
unfolding find_update walk next_at is_before same_key add_at set_value insert_node link set_next
add l key val coins = do
  update ← find_update l.levels l.nodes key head []
  before ← checked (get_elem? update 0)
  after ← next_at l.nodes before 0
  found ← same_key l.nodes key after
  add_at l key val update coins found

pub value_at : List Node → Option ℕ → Result (Option StorageEntry)
value_at nodes none = ok none
value_at nodes (some n) = do node ← checked (get_elem? nodes n); ok (some node.value)

unfoldable pub get : SkipList → Bytes → Result (Option StorageEntry)
unfolding find_update walk next_at is_before same_key value_at
get l key = do
  path ← find_update l.levels l.nodes key head []
  current ← checked (get_elem? path 0)
  after ← next_at l.nodes current 0
  found ← same_key l.nodes key after
  value_at l.nodes found

-- the loop of `entries`, from the pointer on
pub entries_from : ℕ → List Node → Option ℕ → Result (List SstableEntry)
entries_from fuel nodes none = ok []
entries_from zero nodes (some n) = ok []
entries_from (suc fuel) nodes (some n) = do
  node ← checked (get_elem? nodes n)
  after ← next_at nodes n 0
  rest ← entries_from fuel nodes after
  ok (record { k = node.key; v = node.value.value; type = node.value.type } ∷ rest)

unfoldable pub entries : SkipList → Result (List SstableEntry)
unfolding entries_from next_at
entries l = do first ← next_at l.nodes head 0; entries_from (length l.nodes) l.nodes first

-- The nodes that the head no longer reaches are garbage: they may stay in the arena.
unfoldable pub clear : SkipList → Result SkipList
clear l = do
  node ← checked (get_elem? l.nodes head)
  ok (record {
    nodes = set l.nodes head (record node { next = replicate skip_list_max_levels none });
    levels = 1;
    size = 0;
  })
