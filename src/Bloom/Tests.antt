-- ===== src/Bloom/Tests.antt =====
-- The theorems on the filter at small inputs, with a hash function that sums the bytes.
use k_lsm_engine.Prelude.{ℕ, ◌+◌, ◌≡◌, true, List, [], ◌∷◌, All, Bytes, ok}
use k_lsm_engine.Entry.{SstableEntry, entry_type_put, entry_type_delete}
use k_lsm_engine.Bloom.{
  new_bloom_filter, found, bloom_filter_for_entries, sidecar_contents, parse_sidecar,
}
use k_lsm_engine.Bloom.Members.{new_bloom_filter-IsFilter, found-bloom_filter_for_entries}
use k_lsm_engine.Bloom.Sidecar.{Accepted, parse_sidecar-sidecar_contents, parse_sidecar-inv}

abbrev sum_bytes : Bytes → ℕ
sum_bytes [] = 0
sum_bytes (b ∷ bs) = b + sum_bytes bs

abbrev sample : List SstableEntry
sample =
    record { k = 97 ∷ []; v = 49 ∷ []; type = entry_type_put }
    ∷ record { k = 98 ∷ []; v = []; type = entry_type_delete }
    ∷ []

found-bloom_filter_for_entries_example :
    All (λ e. found sum_bytes (bloom_filter_for_entries sum_bytes sample) e.k ≡ true) sample
found-bloom_filter_for_entries_example = found-bloom_filter_for_entries sum_bytes sample

parse_sidecar-sidecar_contents_example :
    (contents : Bytes) × (sidecar_contents new_bloom_filter ≡ ok contents)
    × (parse_sidecar contents ≡ ok new_bloom_filter)
parse_sidecar-sidecar_contents_example =
    parse_sidecar-sidecar_contents new_bloom_filter new_bloom_filter-IsFilter

-- the sidecar of the new filter
abbrev new_sidecar :
    (contents : Bytes) × (sidecar_contents new_bloom_filter ≡ ok contents)
    × (parse_sidecar contents ≡ ok new_bloom_filter)
new_sidecar = parse_sidecar-sidecar_contents new_bloom_filter new_bloom_filter-IsFilter

parse_sidecar-inv_example : Accepted new_sidecar.0 new_bloom_filter
parse_sidecar-inv_example = parse_sidecar-inv new_sidecar.0 new_sidecar.2
