-- ===== src/Bloom/Members.antt =====
-- The filter of a table never says "absent" of a key of the table.
use mathlib.Core.Bool.{false≢true}
use k_lsm_engine.Prelude.{
  ℕ, zero, suc, ◌+◌, ◌/◌, ◌<◌, ◌≡◌, refl, ◌∙◌, true, false, List, [], ◌∷◌, ◌++◌, Bool-cases, inl,
  inr, length, All, arith, Bytes,
}
use k_lsm_engine.Entry.{SstableEntry}
use k_lsm_engine.Bloom.{
  BloomFilter, new_bloom_filter, bit_index, set_bit, bit_clear, add_loop, found_loop, add, found,
  add_all, salt, bloom_filter_for_entries,
}
use k_lsm_engine.Bloom.Bits.{
  IsBytes, length-set_bit, set_bit-IsBytes, bit_clear-set_bit_self, bit_clear-set_bit,
}

-- A filter as the program makes it
pub record IsFilter (bf : BloomFilter) : Type 0 where
  pub size : length bf.bits ≡ 262
  pub bytes : IsBytes bf.bits
  pub length_is : bf.length ≡ 2096
  pub hashes_is : bf.hashes ≡ 5

bit_index-in_range : (h₁ h₂ i : ℕ) → bit_index h₁ h₂ 2096 i / 8 < 262
unfolding bit_index
bit_index-in_range h₁ h₂ i = omega arith

abbrev IsBits : Bytes → Type 0
IsBits bits = (length bits ≡ 262) × IsBytes bits

set_bit-IsBits : (bits : Bytes) (i : ℕ) → IsBits bits → IsBits (set_bit bits i)
set_bit-IsBits bits i (size, bytes) = (length-set_bit bits i ∙ size, set_bit-IsBytes bits i bytes)

add_loop-IsBits :
    (left i h₁ h₂ : ℕ) (bits : Bytes) → IsBits bits → IsBits (add_loop left i h₁ h₂ 2096 bits)
unfolding add_loop
add_loop-IsBits zero i h₁ h₂ bits h = h
add_loop-IsBits (suc left) i h₁ h₂ bits h =
    add_loop-IsBits left (i + 1) h₁ h₂ _ (set_bit-IsBits bits (bit_index h₁ h₂ 2096 i) h)

-- No round clears a bit.
add_loop-keeps :
    (left i h₁ h₂ : ℕ) (bits : Bytes) (j : ℕ)
    → IsBits bits
    → bit_clear bits j ≡ false
    → bit_clear (add_loop left i h₁ h₂ 2096 bits) j ≡ false
unfolding add_loop
add_loop-keeps zero i h₁ h₂ bits j h set = set
add_loop-keeps (suc left) i h₁ h₂ bits j h set =
    let at = bit_index h₁ h₂ 2096 i in
    let inside = bit_index-in_range h₁ h₂ i in
    add_loop-keeps left (i + 1) h₁ h₂ (set_bit bits at) j (set_bit-IsBits bits at h)
      (bit_clear-set_bit bits at h.1 j (omega (arith, inside)) set)

-- Every bit that the rounds of `found` test is set, if it is set in all the filters after `bits`.
add_loop-found :
    (left i h₁ h₂ : ℕ) (bits after : Bytes)
    → IsBits bits
    → ((j : ℕ) → bit_clear (add_loop left i h₁ h₂ 2096 bits) j ≡ false → bit_clear after j ≡ false)
    → found_loop left i h₁ h₂ 2096 after ≡ true
unfolding add_loop found_loop
add_loop-found zero i h₁ h₂ bits after h grows = refl
add_loop-found (suc left) i h₁ h₂ bits after h grows =
    let at = bit_index h₁ h₂ 2096 i in
    let inside = bit_index-in_range h₁ h₂ i in
    let next = set_bit-IsBits bits at h in
    let set =
      add_loop-keeps left (i + 1) h₁ h₂ (set_bit bits at) at next
        (bit_clear-set_bit_self bits at h.1 (omega (arith, inside))) in
    rw (grows at set) (add_loop-found left (i + 1) h₁ h₂ (set_bit bits at) after next grows)

found_loop-grows :
    (left i h₁ h₂ : ℕ) (before after : Bytes)
    → ((j : ℕ) → bit_clear before j ≡ false → bit_clear after j ≡ false)
    → found_loop left i h₁ h₂ 2096 before ≡ true
    → found_loop left i h₁ h₂ 2096 after ≡ true
unfolding found_loop
found_loop-grows zero i h₁ h₂ before after grows h = refl
found_loop-grows (suc left) i h₁ h₂ before after grows h =
    let at = bit_index h₁ h₂ 2096 i in
    elim (Bool-cases (bit_clear before at)) [
      | inl clear ↦ absurd (false≢true (rw clear at h))
      | inr set ↦
          rw (grows at set) (found_loop-grows left (i + 1) h₁ h₂ before after grows (rw set at h))
    ]

-- A filter whose bits only grow
abbrev Grows : BloomFilter → BloomFilter → Type 0
Grows a b = (j : ℕ) → bit_clear a.bits j ≡ false → bit_clear b.bits j ≡ false

pub new_bloom_filter-IsFilter : IsFilter new_bloom_filter
unfolding new_bloom_filter
new_bloom_filter-IsFilter = record {
  size = refl;
  bytes = omega arith;
  length_is = refl;
  hashes_is = refl;
}

module _ (sum32 : Bytes → ℕ) where
  module _ (bf : BloomFilter) (s : Bytes) (f : IsFilter bf) where
    add-IsFilter : IsFilter (add sum32 bf s)
    unfolding add
    add-IsFilter =
        rw (f.length_is, f.hashes_is)
          (let bits = add_loop-IsBits 5 0 (sum32 s) (sum32 (s ++ salt)) bf.bits (f.size, f.bytes) in
            record { size = bits.0; bytes = bits.1; length_is = refl; hashes_is = refl })

    add-Grows : Grows bf (add sum32 bf s)
    unfolding add
    add-Grows j set =
        rw (f.length_is, f.hashes_is)
          (add_loop-keeps 5 0 (sum32 s) (sum32 (s ++ salt)) bf.bits j (f.size, f.bytes) set)

    found-add_self : found sum32 (add sum32 bf s) s ≡ true
    unfolding add found
    found-add_self =
        rw (f.length_is, f.hashes_is)
          (add_loop-found 5 0 (sum32 s) (sum32 (s ++ salt)) bf.bits _ (f.size, f.bytes) (λ j h. h))

  found-Grows :
      (a b : BloomFilter) (s : Bytes)
      → IsFilter a
      → IsFilter b
      → Grows a b
      → found sum32 a s ≡ true
      → found sum32 b s ≡ true
  unfolding found
  found-Grows a b s fa fb grows h =
      rw (fb.length_is, fb.hashes_is)
        (found_loop-grows 5 0 (sum32 s) (sum32 (s ++ salt)) a.bits b.bits grows
          (rw (fa.length_is, fa.hashes_is) at h))

  add_all-IsFilter :
      (bf : BloomFilter) (es : List SstableEntry) → IsFilter bf → IsFilter (add_all sum32 bf es)
  unfolding add_all
  add_all-IsFilter bf [] f = f
  add_all-IsFilter bf (e ∷ es) f = add_all-IsFilter (add sum32 bf e.k) es (add-IsFilter bf e.k f)

  add_all-Grows :
      (bf : BloomFilter) (es : List SstableEntry) → IsFilter bf → Grows bf (add_all sum32 bf es)
  unfolding add_all
  add_all-Grows bf [] f j h = h
  add_all-Grows bf (e ∷ es) f j h =
      add_all-Grows (add sum32 bf e.k) es (add-IsFilter bf e.k f) j (add-Grows bf e.k f j h)

  add_all-found :
      (bf : BloomFilter) (es : List SstableEntry)
      → IsFilter bf
      → All (λ e. found sum32 (add_all sum32 bf es) e.k ≡ true) es
  unfolding add_all
  add_all-found bf [] f = tt
  add_all-found bf (e ∷ es) f =
      let next = add-IsFilter bf e.k f in
      (
        found-Grows (add sum32 bf e.k) (add_all sum32 (add sum32 bf e.k) es) e.k next
            (add_all-IsFilter (add sum32 bf e.k) es next) (add_all-Grows (add sum32 bf e.k) es next)
            (found-add_self bf e.k f),
        add_all-found (add sum32 bf e.k) es next,
      )

  pub bloom_filter_for_entries-IsFilter :
      (es : List SstableEntry) → IsFilter (bloom_filter_for_entries sum32 es)
  unfolding bloom_filter_for_entries
  bloom_filter_for_entries-IsFilter es =
      add_all-IsFilter new_bloom_filter es new_bloom_filter-IsFilter

  -- For every hash function and all entries, the filter of the entries finds the key of each of
  -- them: a read that skips a table on the word of its filter misses nothing.
  pub found-bloom_filter_for_entries :
      (es : List SstableEntry)
      → All (λ e. found sum32 (bloom_filter_for_entries sum32 es) e.k ≡ true) es
  unfolding bloom_filter_for_entries
  found-bloom_filter_for_entries es = add_all-found new_bloom_filter es new_bloom_filter-IsFilter
