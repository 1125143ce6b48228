-- ===== src/Reference/Waits.antt =====
-- A parser's run on a buffer that is cut off, beside its run on the whole.
use picohttpparser_rs.Base.{
  ℕ, ◌<◌, ◌≡◌, refl, sym, ◌∙◌, ap, [], ◌++◌, Res, ok, err, partial, arith, length,
}
use picohttpparser_rs.Base.Lists.{length-append}
use picohttpparser_rs.Reference.Agrees.{AgreesOn, Longer}
use picohttpparser_rs.Reference.Chars.{Bytes, Cursor}
use picohttpparser_rs.Reference.Ensures.{Ensures, returns, stops_partial, stops_malformed, Within}

-- A cursor with no byte behind it counts all of them.
pub at_end :
    {S : Type 0} {Q : S → Type 0} {size least : ℕ} {e : Res Cursor × S}
    → Ensures (Within size least) Q e
    → (b : Cursor) → e.0 ≡ ok b
    → b.rest ≡ []
    → b.at ≡ size
at_end (returns {a} w q) b eq end =
    let same : a ≡ b = cc in
    omega (arith, w.in_buffer, ap (λ c. c.at) same, ap (λ c. length c.rest) same, ap length end)
at_end (stops_partial q) b eq end = cc
at_end (stops_malformed q) b eq end = cc

-- If the whole is accepted to its last byte, the part is neither accepted nor refused.
pub waits :
    {S : Type 0} {P : Cursor → Type 0} {Q : S → Type 0} (more : Bytes) {e e' : Res Cursor × S}
    → AgreesOn (Longer more) e e'
    → Ensures P Q e
    → (b : Cursor) → e'.0 ≡ ok b
    → b.rest ≡ []
    → 0 < length more
    → e.0 ≡ err partial
waits more (AgreesOn.both {a} {a'} same) h b eq end lt =
    let to_b : a' ≡ b = cc in
    let rest : a.rest ++ more ≡ [] = ap (λ c. c.rest) (sym same ∙ to_b) ∙ end in
    absurd (omega (arith, ap length rest, length-append a.rest more))
waits more AgreesOn.refuse h b eq end lt = cc
waits more AgreesOn.wants_more h b eq end lt = refl
waits more AgreesOn.faults h b eq end lt = elim h [ ]
waits more AgreesOn.is_stuck h b eq end lt = elim h [ ]
