-- ===== src/Std/Quote/RoundTrip.antt =====
-- A quoted text is unquoted to itself, and holds no control characters.
use k_lsm_engine.Prelude.{
  ℕ, zero, suc, ◌≤◌, ◌<◌, ◌≡◌, ◌≢◌, refl, ap, ◌∙◌, Bool, some, [], ◌∷◌, ◌++◌, length, take, drop,
  arith, ==-eq-false, length-drop, length-take, length-append, take-append-drop, Bytes,
  append_assoc,
}
use k_lsm_engine.Std.Quote.{
  width_after, quote_char, quote_body, quote, unquote_char, unquote_loop, unquote, whole,
}
use k_lsm_engine.Std.Quote.Escapes.{AreBytes, IsGraphic}
use k_lsm_engine.Std.Quote.Chars.{IsGraphic-append, quote_char-IsRead}

AreBytes-drop : (n : ℕ) (s : Bytes) → AreBytes s → AreBytes (drop n s)
AreBytes-drop zero s h = h
AreBytes-drop (suc n) [] h = tt
AreBytes-drop (suc n) (b ∷ s) h = AreBytes-drop n s h.1

-- A round of the loop for a character.
unquote_round :
    (fuel c : ℕ) (s rest out text behind : Bytes)
    → c ≢ b'"'
    → c ≢ 10
    → unquote_char b'"' c s ≡ some (out, rest)
    → unquote_loop fuel b'"' rest ≡ some (text, behind)
    → unquote_loop (suc fuel) b'"' (c ∷ s) ≡ some (out ++ text, behind)
unfolding unquote_loop
unquote_round fuel c s rest out text behind mark newline reads later =
    rw (==-eq-false c b'"' mark, ==-eq-false c 10 newline, reads, later) refl

module _ (is_print : ℕ → Bool) where
  length-quote_body :
      (f : ℕ) (s : Bytes) → AreBytes s → length s ≤ f → length s ≤ length (quote_body is_print f s)
  unfolding quote_body
  length-quote_body zero [] bytes h = omega arith
  length-quote_body zero (b ∷ s) bytes h = absurd (omega arith)
  length-quote_body (suc f) [] bytes h = omega arith
  length-quote_body (suc f) (b ∷ s) bytes h =
      let w = width_after b s in
      let q = quote_char-IsRead is_print b s bytes.0 in
      let less : length (drop w s) ≤ f = omega (arith, length-drop w s) in
      let later = length-quote_body f (drop w s) (AreBytes-drop w s bytes.1) less in
      omega (
        arith,
        q.long,
        later,
        length-drop w s,
        length-take w s,
        length-append (quote_char is_print b s) (quote_body is_print f (drop w s)),
      )

  quote_body-IsGraphic : (f : ℕ) (s : Bytes) → AreBytes s → IsGraphic (quote_body is_print f s)
  unfolding quote_body
  quote_body-IsGraphic zero s bytes = tt
  quote_body-IsGraphic (suc f) [] bytes = tt
  quote_body-IsGraphic (suc f) (b ∷ s) bytes =
      let w = width_after b s in
      IsGraphic-append (quote_char is_print b s) (quote_body is_print f (drop w s))
        (quote_char-IsRead is_print b s bytes.0).graphic
        (quote_body-IsGraphic f (drop w s) (AreBytes-drop w s bytes.1))

  pub quote-IsGraphic : (s : Bytes) → AreBytes s → IsGraphic (quote is_print s)
  unfolding quote
  quote-IsGraphic s bytes = (
    omega arith,
    IsGraphic-append (quote_body is_print (length s) s) (b'"' ∷ [])
        (quote_body-IsGraphic (length s) s bytes) (omega arith, tt),
  )

  unquote_loop-quote_body :
      (fuel f : ℕ) (s : Bytes)
      → AreBytes s
      → length s ≤ f
      → length s < fuel
      → unquote_loop fuel b'"' (quote_body is_print f s ++ b'"' ∷ []) ≡ some (s, [])
  unfolding unquote_loop quote_body
  unquote_loop-quote_body zero f s bytes h h' = absurd (omega arith)
  unquote_loop-quote_body (suc fuel) zero [] bytes h h' = refl
  unquote_loop-quote_body (suc fuel) zero (b ∷ s) bytes h h' = absurd (omega arith)
  unquote_loop-quote_body (suc fuel) (suc f) [] bytes h h' = refl
  unquote_loop-quote_body (suc fuel) (suc f) (b ∷ s) bytes h h' =
      let w = width_after b s in
      let q = quote_char-IsRead is_print b s bytes.0 in
      let body = quote_body is_print f (drop w s) in
      let less : length (drop w s) ≤ f = omega (arith, length-drop w s) in
      let fewer : length (drop w s) < fuel = omega (arith, length-drop w s) in
      let later =
        unquote_loop-quote_body fuel f (drop w s) (AreBytes-drop w s bytes.1) less fewer in
      ap (unquote_loop (suc fuel) b'"') (
        append_assoc (quote_char is_print b s) body (b'"' ∷ [])
        ∙ ap (λ (t : Bytes). t ++ (body ++ b'"' ∷ [])) q.starts)
      ∙ unquote_round fuel q.first (q.others ++ (body ++ b'"' ∷ [])) (body ++ b'"' ∷ [])
          (b ∷ take w s) (drop w s) [] q.no_mark q.no_newline (q.reads (body ++ b'"' ∷ [])) later
      ∙ ap (λ (t : Bytes). some (b ∷ t, [])) (take-append-drop w s)

  -- Unquoting gives back what was quoted, whatever bytes that has.
  pub unquote-quote : (s : Bytes) → AreBytes s → unquote (quote is_print s) ≡ some s
  unfolding unquote quote whole
  unquote-quote s bytes =
      let body = quote_body is_print (length s) s in
      ap whole (
        unquote_loop-quote_body (length (body ++ b'"' ∷ [])) (length s) s bytes (omega arith)
          (omega (arith, length-append body (b'"' ∷ []), length-quote_body (length s) s bytes)))
