-- ===== src/Recovery/Prefix.antt =====
-- segmentsAfter answers what was pushed since.
use blood_trail.Prelude.{
  ℕ, ◌≡◌, ◌↔◌, refl, ap, ◌∙◌, true, List, [], ◌∷◌, ◌++◌, some, length, drop, arith, length-append,
}
use blood_trail.Recovery.{begins_with, segments_after}

begins_with-append : (captured tail : List ℕ) → begins_with (captured ++ tail) captured ≡ true
begins_with-append [] tail = refl
begins_with-append (s ∷ captured) tail = ground (arith, begins_with-append captured tail)

drop-append : (captured tail : List ℕ) → drop (length captured) (captured ++ tail) ≡ tail
drop-append [] tail = refl
drop-append (s ∷ captured) tail = drop-append captured tail

begins_with-split :
    (current captured : List ℕ)
    → begins_with current captured ≡ true
    → current ≡ captured ++ drop (length captured) current
begins_with-split current [] h = refl
begins_with-split [] (s ∷ captured) h = cc
begins_with-split (c ∷ current) (s ∷ captured) h =
    let same : c ≡ s = ground arith in
    rw same (ap (λ r. s ∷ r) (begins_with-split current captured (ground arith)))

-- segmentsAfter answers a tail exactly when the current stack is the captured one with that tail
-- pushed on it.
pub segments_after_iff :
    (current captured tail : List ℕ)
    → (segments_after current captured ≡ some tail) ↔ (current ≡ captured ++ tail)
unfolding segments_after
segments_after_iff current captured tail = (
  λ h.
      let begins : begins_with current captured ≡ true = ground arith in
      let cut : drop (length captured) current ≡ tail = ground arith in
      begins_with-split current captured begins ∙ ap (λ r. captured ++ r) cut,
  λ h.
      rw (h, begins_with-append captured tail, drop-append captured tail)
        (ground (arith, length-append captured tail)),
)
