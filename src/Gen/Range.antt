-- ===== src/Gen/Range.antt =====
-- The ranges of cmd/gen/main.go.
use k_lsm_engine.Prelude.{
  ◌+◌, Bool, ◌&&◌, Option, none, some, List, [], ◌∷◌, ◌++◌, ltb, if◌then◌else◌, Bytes, str_lt,
  str_le, take,
}
use k_lsm_engine.Std.Fields.{join}
use k_lsm_engine.Gen.Draws.{Drawn, ◌>>=◌, drawn, State, random_key}

-- The range: the first key that sorts above another.
unfoldable pub bump : Bytes → Option Bytes
bump [] = none
bump (b ∷ s) = elim (bump s) [
  | some t ↦ some (b ∷ t)
  | none ↦ if ltb b 122 then some ((b + 1) ∷ []) else none
]

-- the last byte below 'z' is raised, and the text cut behind it
unfoldable pub next_key : Bytes → Bytes
unfolding bump
next_key s = elim (bump s) [ none ↦ s ++ b'a' ∷ [] | some t ↦ t ]

-- `sort.Strings`
unfoldable pub insert_key : Bytes → List Bytes → List Bytes
insert_key k [] = k ∷ []
insert_key k (x ∷ xs) = let later = insert_key k xs in if str_lt x k then x ∷ later else k ∷ x ∷ xs

unfoldable pub sort_keys : List Bytes → List Bytes
unfolding insert_key
sort_keys [] = []
sort_keys (k ∷ ks) = insert_key k (sort_keys ks)

unfoldable pub keep_keys : (Bytes → Bool) → State → List Bytes
keep_keys keeps [] = []
keep_keys keeps ((k, v) ∷ rest) =
    let later = keep_keys keeps rest in if keeps k then k ∷ later else later

unfoldable pub last_key : Bytes → List Bytes → Bytes
last_key k [] = k
last_key k (x ∷ xs) = last_key x xs

unfoldable pub range_end : Bytes → List Bytes → Bytes
unfolding next_key last_key
range_end from [] = next_key from
range_end from (k ∷ ks) = next_key (last_key k ks)

unfoldable pub bounded_range : State → Drawn (Bytes × Bytes × Bytes)
unfolding random_key range_end sort_keys keep_keys join
bounded_range [] = do from ← random_key; to ← random_key; drawn (from, to, [])
bounded_range (entry ∷ state) = do
  from ← random_key
  let candidates = take 10 (sort_keys (keep_keys (λ k. str_le from k) (entry ∷ state)))
  drawn (from, range_end from candidates, join (b',' ∷ []) candidates)

pub range_keys : State → Bytes → Bytes → Bytes
unfolding sort_keys keep_keys join
range_keys state from to =
    join (b',' ∷ []) (sort_keys (keep_keys (λ k. str_le from k && str_lt k to) state))
