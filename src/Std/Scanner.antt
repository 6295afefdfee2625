-- ===== src/Std/Scanner.antt =====
-- The tokens of a `bufio.Scanner`: the lines, with an unfinished one at the end.
use k_lsm_engine.Prelude.{
  ℕ, ◌≡◌, refl, List, [], ◌∷◌, ◌++◌, ◌==◌, if◌then◌else◌, Bytes, ==-eq-false,
}
use k_lsm_engine.Std.Json.{HasNoNewline}

put_first : ℕ → List Bytes → List Bytes
put_first b [] = (b ∷ []) ∷ []
put_first b (line ∷ lines) = (b ∷ line) ∷ lines

unfoldable pub split_lines : Bytes → List Bytes
unfolding put_first
split_lines [] = []
split_lines (b ∷ s) = let rest = split_lines s in if b == 10 then [] ∷ rest else put_first b rest

-- a carriage return at the end of the line
unfoldable pub drop_cr : Bytes → Bytes
drop_cr [] = []
drop_cr (b ∷ []) = if b == 13 then [] else b ∷ []
drop_cr (b ∷ c ∷ s) = b ∷ drop_cr (c ∷ s)

-- A line and its newline must fit in 64 KiB.
abbrev pub max_line : ℕ
max_line = 65535

pub split_lines-line :
    (line rest : Bytes)
    → HasNoNewline line
    → split_lines (line ++ 10 ∷ rest) ≡ line ∷ split_lines rest
unfolding split_lines
split_lines-line [] rest h = refl
split_lines-line (b ∷ line) rest h = rw (==-eq-false b 10 h.0, split_lines-line line rest h.1)
