-- ===== src/SkipList/Levels.antt =====
-- The level of a new node.
use k_lsm_engine.Prelude.{ℕ, zero, suc, ◌+◌, ◌≤◌, Bool, true, false, List, [], ◌∷◌, arith}
use k_lsm_engine.SkipList.{skip_list_max_levels, generate_level_loop, generate_level}

level_loop_bounds :
    (left level : ℕ) (coins : List Bool)
    → (level ≤ generate_level_loop left level coins)
      × (generate_level_loop left level coins ≤ level + left)
unfolding generate_level_loop
level_loop_bounds zero level coins = omega arith
level_loop_bounds (suc left) level [] = omega arith
level_loop_bounds (suc left) level (true ∷ coins) =
    omega (arith, level_loop_bounds left (level + 1) coins)
level_loop_bounds (suc left) level (false ∷ coins) = omega arith

-- Whatever the coins show, a new node has at least one level and at most sixteen.
pub generate_level_bounds :
    (coins : List Bool) → (1 ≤ generate_level coins) × (generate_level coins ≤ skip_list_max_levels)
unfolding generate_level
generate_level_bounds coins = omega (arith, level_loop_bounds 15 1 coins)
