-- ===== src/Bloom.antt =====
-- internal/storage/bloom_filter.go: the filter, and the bytes of its sidecar file. murmur3 is not
-- part of the repository: `sum32` stands for `murmur3.Sum32`, and nothing is assumed of it.
pub mod Bits
pub mod Members
pub mod Sidecar
mod Tests
use Prim.Native.Nat.{bit_and, bit_or}
use k_lsm_engine.Prelude.{
  ℕ, zero, suc, ◌+◌, ◌*◌, ◌/◌, ◌%◌, ◌^◌, Bool, true, false, ◌||◌, not, List, [], ◌∷◌, ◌++◌, length,
  get_or, set, take, drop, replicate, window, ltb, ◌==◌, if◌then◌else◌, Bytes, str_eq, Result, ok,
  err, ◌>>=◌, ◌>>◌, guard, unsupported_parameters, invalid_sidecar_size, invalid_sidecar_header,
  checksum_mismatch,
}
use k_lsm_engine.Std.Crc64.{checksum}
use k_lsm_engine.Std.LittleEndian.{put_le, get_le}
use k_lsm_engine.Entry.{SstableEntry}

abbrev pub bloom_filter_length : ℕ
bloom_filter_length = 2096

abbrev pub bloom_filter_hashes : ℕ
bloom_filter_hashes = 5

abbrev pub bloom_sidecar_header_size : ℕ
bloom_sidecar_header_size = 32

-- "KLSMBF01"
abbrev pub bloom_sidecar_magic : Bytes
bloom_sidecar_magic = 75 ∷ 76 ∷ 83 ∷ 77 ∷ 66 ∷ 70 ∷ 48 ∷ 49 ∷ []

pub record BloomFilter : Type 0 where
  pub bits : Bytes
  pub length : ℕ
  pub hashes : ℕ

pub new_bloom_filter : BloomFilter
new_bloom_filter = record {
  bits = replicate (bloom_filter_length / 8) 0;
  length = bloom_filter_length;
  hashes = bloom_filter_hashes;
}

-- "|salt"
abbrev pub salt : Bytes
salt = 124 ∷ 115 ∷ 97 ∷ 108 ∷ 116 ∷ []

-- `(h1 + uint32(i)*h2) % uint32(length)`, in uint32
pub bit_index : ℕ → ℕ → ℕ → ℕ → ℕ
bit_index h₁ h₂ len i = (h₁ + i * h₂ % 2 ^ 32) % 2 ^ 32 % (len % 2 ^ 32)

-- `bits[idx/8] |= 1 << (idx % 8)`
pub set_bit : Bytes → ℕ → Bytes
set_bit bits idx = set bits (idx / 8) (bit_or (get_or bits (idx / 8) 0) (2 ^ (idx % 8)))

-- `bits[idx/8] & (1 << (idx % 8)) == 0`
pub bit_clear : Bytes → ℕ → Bool
bit_clear bits idx = bit_and (get_or bits (idx / 8) 0) (2 ^ (idx % 8)) == 0

-- The loops over the rounds that are left, at the round i.
pub add_loop : ℕ → ℕ → ℕ → ℕ → ℕ → Bytes → Bytes
add_loop zero i h₁ h₂ len bits = bits
add_loop (suc left) i h₁ h₂ len bits =
    add_loop left (i + 1) h₁ h₂ len (set_bit bits (bit_index h₁ h₂ len i))

pub found_loop : ℕ → ℕ → ℕ → ℕ → ℕ → Bytes → Bool
found_loop zero i h₁ h₂ len bits = true
found_loop (suc left) i h₁ h₂ len bits =
    if bit_clear bits (bit_index h₁ h₂ len i) then false else found_loop left (i + 1) h₁ h₂ len bits

module _ (sum32 : Bytes → ℕ) where
  pub hash : Bytes → ℕ × ℕ
  hash s = (sum32 s, sum32 (s ++ salt))

  pub add : BloomFilter → Bytes → BloomFilter
  unfolding hash
  add bf s =
      let (h₁, h₂) = hash s in record bf { bits = add_loop bf.hashes 0 h₁ h₂ bf.length bf.bits }

  pub found : BloomFilter → Bytes → Bool
  unfolding hash
  found bf s = let (h₁, h₂) = hash s in found_loop bf.hashes 0 h₁ h₂ bf.length bf.bits

  pub add_all : BloomFilter → List SstableEntry → BloomFilter
  add_all filter [] = filter
  add_all filter (entry ∷ rest) = add_all (add filter entry.k) rest

  pub bloom_filter_for_entries : List SstableEntry → BloomFilter
  bloom_filter_for_entries entries = add_all new_bloom_filter entries

-- The header of the sidecar: magic, version 1, three bytes of padding, three uint32, the checksum.
pub sidecar_header : BloomFilter → Bytes
sidecar_header filter =
    bloom_sidecar_magic
    ++ (1 ∷ 0 ∷ 0 ∷ 0 ∷ [])
    ++ put_le 4 (filter.length % 2 ^ 32)
    ++ put_le 4 (filter.hashes % 2 ^ 32)
    ++ put_le 4 (length filter.bits % 2 ^ 32)
    ++ put_le 8 (checksum filter.bits)

-- The contents that `writeBloomFilterSidecar` writes.
unfoldable pub sidecar_contents : BloomFilter → Result Bytes
unfolding sidecar_header
sidecar_contents filter = do
  guard (not (filter.length == bloom_filter_length) || not (filter.hashes == bloom_filter_hashes))
      unsupported_parameters
  ok (sidecar_header filter ++ filter.bits)

-- What `readBloomFilterSidecar` makes of the contents of the file.
unfoldable pub parse_sidecar : Bytes → Result BloomFilter
parse_sidecar contents = do
  guard (not (length contents == bloom_sidecar_header_size + bloom_filter_length / 8))
      invalid_sidecar_size
  let header = take bloom_sidecar_header_size contents
  guard (not (str_eq (take 8 header) bloom_sidecar_magic) || not (get_or header 8 0 == 1))
      invalid_sidecar_header
  let len = get_le (window header 12 4)
  let hashes = get_le (window header 16 4)
  let bit_bytes = get_le (window header 20 4)
  guard
      (not (len == bloom_filter_length)
        || not (hashes == bloom_filter_hashes)
        || not (bit_bytes == bloom_filter_length / 8))
      unsupported_parameters
  let bits = drop bloom_sidecar_header_size contents
  guard (not (checksum bits == get_le (window header 24 8))) checksum_mismatch
  ok (record { bits = bits; length = len; hashes = hashes })
