-- ===== src/Wal/Lines.antt =====
-- The line of an entry is one line, and the scanner takes the lines apart again.
use k_lsm_engine.Prelude.{◌<◌, ◌≡◌, refl, ap, [], ◌∷◌, ◌++◌, length, arith, Bytes}
use k_lsm_engine.Std.Json.{
  HasNoNewline, HasNoNewline-append, encode_string, encode_string-HasNoNewline,
}
use k_lsm_engine.Entry.{EntryType}
use k_lsm_engine.Wal.{
  WalEntry, key_name, type_name, value_name, crc_name, member, members, type_text, marshal_entry,
}
use k_lsm_engine.Std.Scanner.{drop_cr}

member-HasNoNewline :
    (name text rest : Bytes)
    → HasNoNewline name
    → HasNoNewline rest
    → HasNoNewline (member name text rest)
unfolding member
member-HasNoNewline name text rest h h' =
    HasNoNewline-append name (encode_string text ++ rest) h
      (HasNoNewline-append (encode_string text) rest (encode_string-HasNoNewline text) h')

members-HasNoNewline :
    (key : Bytes) (type : EntryType) (value : Bytes) → HasNoNewline (members key type value)
unfolding members
members-HasNoNewline key type value =
    let last = member-HasNoNewline value_name value (125 ∷ []) (omega arith) (omega arith) in
    let middle = member-HasNoNewline type_name (type_text type) _ (omega arith) last in
    member-HasNoNewline key_name key _ (omega arith) middle

pub marshal_entry-HasNoNewline : (e : WalEntry) → HasNoNewline (marshal_entry e)
unfolding marshal_entry
marshal_entry-HasNoNewline e =
    let rest = members-HasNoNewline e.key e.type e.value in
    member-HasNoNewline crc_name e.crc (44 ∷ members e.key e.type e.value) (omega arith)
      (omega arith, rest)

-- A text that ends in no carriage return, and has an end.
record IsEnded (s : Bytes) : Type 0 where
  kept : drop_cr s ≡ s
  some_bytes : 0 < length s

IsEnded-append : (a s : Bytes) → IsEnded s → IsEnded (a ++ s)
unfolding drop_cr
IsEnded-append [] s h = h
IsEnded-append (b ∷ []) [] h = absurd (omega (arith, h.some_bytes))
IsEnded-append (b ∷ []) (c ∷ s) h = record { kept = ap (◌∷◌ b) h.kept; some_bytes = omega arith }
IsEnded-append (b ∷ c ∷ a) s h =
    let rest = IsEnded-append (c ∷ a) s h in
    record { kept = ap (◌∷◌ b) rest.kept; some_bytes = omega arith }

member-IsEnded : (name text rest : Bytes) → IsEnded rest → IsEnded (member name text rest)
unfolding member
member-IsEnded name text rest h =
    IsEnded-append name (encode_string text ++ rest) (IsEnded-append (encode_string text) rest h)

members-IsEnded :
    (key : Bytes) (type : EntryType) (value : Bytes) → IsEnded (members key type value)
unfolding members drop_cr
members-IsEnded key type value =
    let brace : IsEnded (125 ∷ []) = record { kept = refl; some_bytes = omega arith } in
    let last = member-IsEnded value_name value (125 ∷ []) brace in
    member-IsEnded key_name key _ (member-IsEnded type_name (type_text type) _ last)

pub drop_cr-marshal_entry : (e : WalEntry) → drop_cr (marshal_entry e) ≡ marshal_entry e
unfolding marshal_entry
drop_cr-marshal_entry e =
    let rest = members-IsEnded e.key e.type e.value in
    let after_comma = IsEnded-append (44 ∷ []) (members e.key e.type e.value) rest in
    (member-IsEnded crc_name e.crc (44 ∷ members e.key e.type e.value) after_comma).kept
