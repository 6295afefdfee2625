-- ===== src/Compaction/Publish/Unique.antt =====
-- A key has one answer in a list of sources, and level 0 answers before level 1.
use mathlib.Core.Path.{subst}
use k_lsm_engine.Prelude.{
  ℕ, ◌<◌, ◌≡◌, ◌≢◌, ◌⊎◌, inl, inr, refl, sym, ap, ◌∙◌, false, Option, none, some, List, [], ◌∷◌,
  ◌++◌, All, arith, Bytes,
}
use k_lsm_engine.Entry.{StorageEntry}
use k_lsm_engine.Engine.Parts.{over}
use k_lsm_engine.Compaction.{SstableHeapItem}
use k_lsm_engine.Compaction.Merge.Least.{Source, find}
use k_lsm_engine.Compaction.Merge.Newest.{IsAnswer, nowhere, newest, Among, AreAlone, is_newer}
use k_lsm_engine.Compaction.Publish.Answer.{IsBelow}

All-Among : (P : Source → Type 0) (s : Source) (ss : List Source) → All P ss → Among s ss → P s
All-Among P s [] h a = absurd a
All-Among P s (x ∷ ss) h (inl e) = subst P (sym e) h.0
All-Among P s (x ∷ ss) h (inr a) = All-Among P s ss h.1 a

-- Sources with one index are one source.
AreAlone-eq :
    (a b : Source) (ss : List Source)
    → AreAlone ss
    → Among a ss
    → Among b ss
    → a.item.table_index ≡ b.item.table_index
    → a ≡ b
AreAlone-eq a b [] h x y e = absurd x
AreAlone-eq a b (s ∷ ss) h (inl x) (inl y) e = x ∙ sym y
AreAlone-eq a b (s ∷ ss) h (inl x) (inr y) e = absurd (
    All-Among (λ (z : Source). s.item.table_index ≢ z.item.table_index) b ss h.0 y
      (ap (λ (z : Source). z.item.table_index) (sym x) ∙ e))
AreAlone-eq a b (s ∷ ss) h (inr x) (inl y) e = absurd (
    All-Among (λ (z : Source). s.item.table_index ≢ z.item.table_index) a ss h.0 x
      (ap (λ (z : Source). z.item.table_index) (sym y) ∙ sym e))
AreAlone-eq a b (s ∷ ss) h (inr x) (inr y) e = AreAlone-eq a b ss h.1 x y e

not_newer :
    (key : Bytes) (a b : Source) (e : StorageEntry)
    → find key b ≡ some e
    → (find key b ≡ none) ⊎ (is_newer b.item a.item ≡ false)
    → is_newer b.item a.item ≡ false
not_newer key a b e found (inl absent) = cc
not_newer key a b e found (inr h) = h

same_index :
    (a b : SstableHeapItem)
    → is_newer a b ≡ false
    → is_newer b a ≡ false
    → a.table_index ≡ b.table_index
same_index a b h k = ground arith

-- A list of sources has one answer.
pub IsAnswer-unique :
    (key : Bytes) (ss : List Source) (o o' : Option StorageEntry)
    → AreAlone ss
    → IsAnswer key ss o
    → IsAnswer key ss o'
    → o ≡ o'
IsAnswer-unique key ss o o' alone (nowhere e all) (nowhere e' all') = e ∙ sym e'
IsAnswer-unique key ss o o' alone (nowhere e all) (newest x found m) =
    let absent = All-Among (λ s. find key s ≡ none) m.source ss all m.among in
    let there = m.entry in cc
IsAnswer-unique key ss o o' alone (newest x found m) (nowhere e all) =
    let absent = All-Among (λ s. find key s ≡ none) m.source ss all m.among in
    let there = m.entry in cc
IsAnswer-unique key ss o o' alone (newest x found m) (newest y found' k) =
    let a = m.source in
    let b = k.source in
    let older =
      λ (t : Source) (s : Source). (find key s ≡ none) ⊎ (is_newer s.item t.item ≡ false) in
    let ba = not_newer key a b y k.entry (All-Among (older a) b ss m.newest k.among) in
    let ab = not_newer key b a x m.entry (All-Among (older b) a ss k.newest m.among) in
    let same = AreAlone-eq a b ss alone m.among k.among (same_index a.item b.item ab ba) in
    found ∙ sym m.entry ∙ ap (find key) same ∙ k.entry ∙ sym found'

Among-append : (s : Source) (a b : List Source) → Among s a → Among s (a ++ b)
Among-append s [] b h = absurd h
Among-append s (x ∷ a) b (inl e) = inl e
Among-append s (x ∷ a) b (inr h) = inr (Among-append s a b h)

Among-append_right : (s : Source) (a b : List Source) → Among s b → Among s (a ++ b)
Among-append_right s [] b h = h
Among-append_right s (x ∷ a) b h = inr (Among-append_right s a b h)

All-append : (P : Source → Type 0) (a b : List Source) → All P a → All P b → All P (a ++ b)
All-append P [] b h k = k
All-append P (x ∷ a) b h k = (h.0, All-append P a b h.1 k)

All-imp : (P Q : Source → Type 0) (a : List Source) → ((s : Source) → P s → Q s) → All P a → All Q a
All-imp P Q [] f h = tt
All-imp P Q (x ∷ a) f h = (f x h.0, All-imp P Q a f h.1)

-- Level 0 is asked before level 1.
pub IsAnswer-levels :
    (key : Bytes) (n₁ n₀ : ℕ) (ss₁ ss₀ : List Source) (o₁ o₀ : Option StorageEntry)
    → IsBelow 1 n₁ ss₁
    → IsBelow 0 n₀ ss₀
    → IsAnswer key ss₁ o₁
    → IsAnswer key ss₀ o₀
    → IsAnswer key (ss₁ ++ ss₀) (over o₀ o₁)
IsAnswer-levels key n₁ n₀ ss₁ ss₀ o₁ o₀ b₁ b₀ a₁ (newest e found m) =
    let level =
      All-Among (λ s. (s.item.level ≡ 0) × (s.item.table_index < n₀)) m.source ss₀ b₀ m.among in
    rw found (
      newest e refl (record {
        source = m.source;
        among = Among-append_right m.source ss₁ ss₀ m.among;
        entry = m.entry;
        newest =
            All-append (λ s. (find key s ≡ none) ⊎ (is_newer s.item m.source.item ≡ false)) ss₁ ss₀
              (All-imp (λ s. (s.item.level ≡ 1) × (s.item.table_index < n₁))
                (λ s. (find key s ≡ none) ⊎ (is_newer s.item m.source.item ≡ false)) ss₁
                (λ s h. let l = h.0 in let l' = level.0 in inr (ground (arith, l, l'))) b₁)
              m.newest;
      }))
IsAnswer-levels key n₁ n₀ ss₁ ss₀ o₁ o₀ b₁ b₀ (nowhere e₁ all₁) (nowhere e all) =
    rw e (nowhere e₁ (All-append (λ s. find key s ≡ none) ss₁ ss₀ all₁ all))
IsAnswer-levels key n₁ n₀ ss₁ ss₀ o₁ o₀ b₁ b₀ (newest x found m) (nowhere e all) = rw e (
    newest x found (record {
      source = m.source;
      among = Among-append m.source ss₁ ss₀ m.among;
      entry = m.entry;
      newest =
          All-append (λ s. (find key s ≡ none) ⊎ (is_newer s.item m.source.item ≡ false)) ss₁ ss₀
            m.newest
            (All-imp (λ s. find key s ≡ none)
              (λ s. (find key s ≡ none) ⊎ (is_newer s.item m.source.item ≡ false)) ss₀
              (λ s h. inl h) all);
    }))
