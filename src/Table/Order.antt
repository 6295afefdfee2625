-- ===== src/Table/Order.antt =====
-- The order of the keys of a table, entry by entry, and the lookup that a table is meant to answer.
use mathlib.Core.Path.{subst}
use mathlib.Core.Option.{some-injective}
use k_lsm_engine.Prelude.{
  ℕ, zero, suc, ◌<◌, ◌≡◌, refl, ap, true, Option, none, some, List, [], ◌∷◌, map, length, get_elem?,
  take, drop, window, arith, if◌then◌else◌, Bytes, str_eq, str_lt, str_lt_trans,
}
use k_lsm_engine.Entry.{StorageEntry, SstableEntry, storage_entry}
use k_lsm_engine.Table.{not_above, key_of, key_at}
use k_lsm_engine.Table.Block.{IsTable, IsStorableEntry, stored}

-- The keys rise strictly.
pub record Rises (es : List SstableEntry) : Type 0 where
  pub lt : (i j : ℕ) → i < j → j < length es → str_lt (key_at es i) (key_at es j) ≡ true

-- What a table answers: the first entry with the key.
unfoldable pub find_entry : Bytes → List SstableEntry → Option StorageEntry
find_entry key [] = none
find_entry key (e ∷ es) = if str_eq e.k key then some (storage_entry e) else find_entry key es

pub IsTable-weaken :
    (before : Option Bytes) (es : List SstableEntry) → IsTable before es → IsTable none es
unfolding not_above
IsTable-weaken before [] h = tt
IsTable-weaken before (e ∷ es) h = (refl, h.1, h.2)

pub IsTable-drop :
    (before : Option Bytes) (n : ℕ) (es : List SstableEntry)
    → IsTable before es
    → IsTable none (drop n es)
IsTable-drop before zero es h = IsTable-weaken before es h
IsTable-drop before (suc n) [] h = tt
IsTable-drop before (suc n) (e ∷ es) h = IsTable-drop (some e.k) n es h.2

pub IsTable-take :
    (before : Option Bytes) (n : ℕ) (es : List SstableEntry)
    → IsTable before es
    → IsTable before (take n es)
IsTable-take before zero es h = tt
IsTable-take before (suc n) [] h = tt
IsTable-take before (suc n) (e ∷ es) h = (h.0, h.1, IsTable-take (some e.k) n es h.2)

-- Every key lies above the one before the table.
above_before :
    (before : Bytes) (es : List SstableEntry) (j : ℕ)
    → IsTable (some before) es
    → j < length es
    → str_lt before (key_at es j) ≡ true
unfolding not_above key_of
above_before before [] j h lt = absurd (omega arith)
above_before before (e ∷ es) zero h lt = ground (arith, h.0)
above_before before (e ∷ es) (suc j) h lt =
    ground (arith, h.0, above_before e.k es j h.2, str_lt_trans before e.k (key_at es j))

pub IsTable-lt :
    (before : Option Bytes) (es : List SstableEntry) (i j : ℕ)
    → IsTable before es
    → i < j
    → j < length es
    → str_lt (key_at es i) (key_at es j) ≡ true
unfolding key_of
IsTable-lt before [] i j h lt top = absurd (omega arith)
IsTable-lt before (e ∷ es) i zero h lt top = absurd (omega arith)
IsTable-lt before (e ∷ es) zero (suc j) h lt top = above_before e.k es j h.2 (omega arith)
IsTable-lt before (e ∷ es) (suc i) (suc j) h lt top =
    IsTable-lt (some e.k) es i j h.2 (omega arith) (omega arith)

pub IsTable-Rises : (before : Option Bytes) (es : List SstableEntry) → IsTable before es → Rises es
IsTable-Rises before es h = record { lt = λ i j. IsTable-lt before es i j h }

pub IsTable-entry :
    (before : Option Bytes) (es : List SstableEntry) (i : ℕ) {e : SstableEntry}
    → IsTable before es
    → get_elem? es i ≡ some e
    → IsStorableEntry e
IsTable-entry before [] i h at = cc
IsTable-entry before (x ∷ es) zero {e} h at = subst IsStorableEntry (some-injective _ _ at) h.1
IsTable-entry before (x ∷ es) (suc i) h at = IsTable-entry (some x.k) es i h.2 at

-- Storing changes no key.
pub key_at-map-stored : (es : List SstableEntry) (i : ℕ) → key_at (map stored es) i ≡ key_at es i
unfolding key_of stored
key_at-map-stored [] i = refl
key_at-map-stored (e ∷ es) zero = refl
key_at-map-stored (e ∷ es) (suc i) = key_at-map-stored es i

pub map-window {ℓ κ} :
    {A : Type ℓ} {B : Type κ} (f : A → B) (xs : List A) (at n : ℕ)
    → map f (window xs at n) ≡ window (map f xs) at n
map-window f xs zero zero = refl
map-window f [] zero (suc n) = refl
map-window f (x ∷ xs) zero (suc n) = ap (◌∷◌ (f x)) (map-window f xs zero n)
map-window f [] (suc at) zero = refl
map-window f [] (suc at) (suc n) = refl
map-window f (x ∷ xs) (suc at) n = map-window f xs at n

pub length-map {ℓ κ} :
    {A : Type ℓ} {B : Type κ} (f : A → B) (xs : List A) → length (map f xs) ≡ length xs
length-map f [] = refl
length-map f (x ∷ xs) = ap suc (length-map f xs)

pub Rises-map-stored : (es : List SstableEntry) → Rises es → Rises (map stored es)
Rises-map-stored es h = record {
  lt = λ i j p q.
      rw (key_at-map-stored es i, key_at-map-stored es j)
        (h.lt i j p (rw (length-map stored es) at q));
}
