-- ===== src/Bloom/Sidecar.antt =====
-- The sidecar file: what is written reads back, and what is read has a matching checksum.
use mathlib.Core.Path.{subst}
use k_lsm_engine.Prelude.{
  ℕ, ◌≡◌, refl, ap, ◌∙◌, true, false, not, ◌||◌, ◌++◌, length, take, drop, window, get_or, arith,
  Bytes, ok, length-drop, ==_iff, str_eq_refl, guard-eq-ok, bind-inv, guard, ok-injective,
  not-eq-false, Bool, ◌==◌, ◌-◌, str_eq, invalid_sidecar_size, invalid_sidecar_header,
  unsupported_parameters, checksum_mismatch,
}
use k_lsm_engine.Std.Crc64.{checksum, checksum-lt}
use k_lsm_engine.Std.LittleEndian.{put_le, get_le, get_le-put_le}
use k_lsm_engine.Bloom.{
  bloom_sidecar_magic, BloomFilter, sidecar_header, sidecar_contents, parse_sidecar,
}
use k_lsm_engine.Bloom.Members.{IsFilter}

-- A filter as the program makes it is written, and the sidecar reads back as the same filter.
pub parse_sidecar-sidecar_contents :
    (bf : BloomFilter)
    → IsFilter bf
    → (contents : Bytes) × (sidecar_contents bf ≡ ok contents) × (parse_sidecar contents ≡ ok bf)
unfolding sidecar_contents parse_sidecar put_le
parse_sidecar-sidecar_contents bf f =
    let sum = checksum bf.bits in
    (
      sidecar_header bf ++ bf.bits,
      rw (f.length_is, f.hashes_is),
      rw (
        f.length_is,
        f.hashes_is,
        f.size,
        str_eq_refl bloom_sidecar_magic,
        get_le-put_le 4 2096 (omega arith),
        get_le-put_le 4 5 (omega arith),
        get_le-put_le 4 262 (omega arith),
        get_le-put_le 8 sum (checksum-lt bf.bits),
        (==_iff sum sum).1 refl,
      ),
    )

-- A filter that is read has the parameters of the program, 262 bytes, and a checksum that matches
-- the stored one.
abbrev pub Accepted : Bytes → BloomFilter → Type 0
Accepted contents bf =
    (bf.length ≡ 2096)
    × (bf.hashes ≡ 5)
    × (length bf.bits ≡ 262)
    × (bf.bits ≡ drop 32 contents)
    × (checksum bf.bits ≡ get_le (window (take 32 contents) 24 8))

none_fails : (a b c : Bool) → not a || not b || not c ≡ false → (a ≡ true) × (b ≡ true) × (c ≡ true)
none_fails a b c h = ground arith

-- Whatever the file holds, a filter that is read has the parameters of the program, 262 bytes, and
-- a checksum that matches the stored one; any other sidecar is refused.
pub parse_sidecar-inv :
    (contents : Bytes) {bf : BloomFilter} → parse_sidecar contents ≡ ok bf → Accepted contents bf
unfolding parse_sidecar
parse_sidecar-inv contents {bf} h =
    let header = take 32 contents in
    let len = get_le (window header 12 4) in
    let hashes = get_le (window header 16 4) in
    let bit_bytes = get_le (window header 20 4) in
    let stored_sum = get_le (window header 24 8) in
    let bits = drop 32 contents in
    let bad_size = not (length contents == 294) in
    let bad_magic =
      not (str_eq (take 8 header) bloom_sidecar_magic) || not (get_or header 8 0 == 1) in
    let bad_sizes = not (len == 2096) || not (hashes == 5) || not (bit_bytes == 262) in
    let bad_sum = not (checksum bits == stored_sum) in
    let (_, g₁, h₁) = bind-inv (guard bad_size invalid_sidecar_size) _ h in
    let (_, _, h₂) = bind-inv (guard bad_magic invalid_sidecar_header) _ h₁ in
    let (_, g₃, h₃) = bind-inv (guard bad_sizes unsupported_parameters) _ h₂ in
    let (_, g₄, h₄) = bind-inv (guard bad_sum checksum_mismatch) _ h₃ in
    let (len_is, hashes_is, _) =
      none_fails (len == 2096) (hashes == 5) (bit_bytes == 262) (guard-eq-ok bad_sizes _ g₃) in
    let size : length contents ≡ 294 =
      (==_iff (length contents) 294).0 (not-eq-false _ (guard-eq-ok bad_size _ g₁)) in
    subst (Accepted contents)
      (ok-injective (record { bits = bits; length = len; hashes = hashes }) bf h₄)
      (
        (==_iff len 2096).0 len_is,
        (==_iff hashes 5).0 hashes_is,
        length-drop 32 contents ∙ ap (λ (n : ℕ). n - 32) size,
        refl,
        (==_iff (checksum bits) stored_sum).0 (not-eq-false _ (guard-eq-ok bad_sum _ g₄)),
      )
