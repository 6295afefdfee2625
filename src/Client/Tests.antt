-- ===== src/Client/Tests.antt =====
-- A script of two lines, written and run.
use k_lsm_engine.Prelude.{ℕ, List, [], ◌∷◌, Bytes}

-- A put of a new key, then a get of it.
abbrev draws : List ℕ
draws = 1 ∷ 1 ∷ 1 ∷ 0 ∷ 1 ∷ 2 ∷ 3 ∷ 4 ∷ 7 ∷ 0 ∷ 1 ∷ 0 ∷ []

-- "PUT abcde 7" and "GET abcde 7"
abbrev script : Bytes
script =
    b'P' ∷ b'U' ∷ b'T' ∷ b' ' ∷ b'a' ∷ b'b' ∷ b'c' ∷ b'd' ∷ b'e' ∷ b' ' ∷ b'7' ∷ b'\n' ∷ b'G' ∷ b'E'
    ∷ b'T' ∷ b' ' ∷ b'a' ∷ b'b' ∷ b'c' ∷ b'd' ∷ b'e' ∷ b' ' ∷ b'7' ∷ b'\n' ∷ []
