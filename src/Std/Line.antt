-- ===== src/Std/Line.antt =====
-- Lines that `bufio.Scanner` and `strings.TrimSpace` leave as they are.
use k_lsm_engine.Prelude.{
  ℕ, ◌≡◌, ◌≢◌, refl, sym, ap, ◌∙◌, [], ◌∷◌, ◌++◌, All, arith, ==-eq-false, Bytes,
}
use k_lsm_engine.Std.Json.{HasNoNewline}
use k_lsm_engine.Std.Trim.{trim_space, IsPlain, trim_space-kept}
use k_lsm_engine.Std.Scanner.{drop_cr}

-- A line from which nothing is trimmed.
pub record IsLine (line : Bytes) : Type 0 where
  pub first : ℕ
  pub behind : Bytes
  pub before : Bytes
  pub last : ℕ
  pub starts : line ≡ first ∷ behind
  pub ends : line ≡ before ++ last ∷ []
  pub first_plain : IsPlain first
  pub last_plain : IsPlain last
  pub one_line : HasNoNewline line

pub trim_space-line : (line : Bytes) → IsLine line → trim_space line ≡ line
trim_space-line line h =
    ap trim_space h.starts
    ∙ trim_space-kept h.first h.last h.behind h.before h.first_plain h.last_plain
        (sym h.starts ∙ h.ends)
    ∙ sym h.starts

drop_cr-snoc : (t : Bytes) (c : ℕ) → c ≢ 13 → drop_cr (t ++ c ∷ []) ≡ t ++ c ∷ []
unfolding drop_cr
drop_cr-snoc [] c h = rw (==-eq-false c 13 h) refl
drop_cr-snoc (b ∷ []) c h = ap (◌∷◌ b) (drop_cr-snoc [] c h)
drop_cr-snoc (b ∷ d ∷ t) c h = ap (◌∷◌ b) (drop_cr-snoc (d ∷ t) c h)

pub drop_cr-line : (line : Bytes) → IsLine line → drop_cr line ≡ line
drop_cr-line line h =
    let ne : h.last ≢ 13 = omega (arith, h.last_plain.above) in
    ap drop_cr h.ends ∙ drop_cr-snoc h.before h.last ne ∙ sym h.ends

-- A text with an end, after some characters or none.
pub record IsEnded (s : Bytes) : Type 0 where
  pub before : Bytes
  pub last : ℕ
  pub ends : s ≡ before ++ last ∷ []
  pub plain : IsPlain last

pub IsEnded-cons : (b : ℕ) (s : Bytes) → IsEnded s → IsEnded (b ∷ s)
IsEnded-cons b s h = record {
  before = b ∷ h.before;
  last = h.last;
  ends = ap (◌∷◌ b) h.ends;
  plain = h.plain;
}

pub IsEnded-append : (t s : Bytes) → IsEnded s → IsEnded (t ++ s)
IsEnded-append [] s h = h
IsEnded-append (b ∷ t) s h = IsEnded-cons b (t ++ s) (IsEnded-append t s h)

pub plain-IsEnded : (b : ℕ) (s : Bytes) → IsPlain b → All IsPlain s → IsEnded (b ∷ s)
plain-IsEnded b [] p h = record { before = []; last = b; ends = refl; plain = p }
plain-IsEnded b (c ∷ s) p h = IsEnded-cons b (c ∷ s) (plain-IsEnded c s h.0 h.1)

pub plain-HasNoNewline : (s : Bytes) → All IsPlain s → HasNoNewline s
plain-HasNoNewline [] h = tt
plain-HasNoNewline (b ∷ s) h = ((omega (arith, h.0.above)), plain-HasNoNewline s h.1)
