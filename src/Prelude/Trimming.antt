-- ===== src/Prelude/Trimming.antt =====
-- What `trim` does to a `String`: a trimmed one is left alone by a second `trim`.
use mathlib.Core.Path.{◌≡◌, refl, sym, ap, subst, ◌∙◌}
use mathlib.Core.Logic.{inl, inr}
use mathlib.Core.Bool.{false}
use mathlib.Core.List.{[], ◌∷◌, ◌++◌, reverse, reverse-append, reverse-reverse}
use ntd.Prelude.Tests.{Bool-cases}
use ntd.Prelude.Lists.{is_empty}
use ntd.Prelude.Strings.{Text, is_whitespace, trim_start, trim, is_blank}

-- No space stands at the front.
abbrev Clean : Text → Type 0
Clean [] = Unit
Clean (c ∷ cs) = is_whitespace c ≡ false

trim_start-Clean : (cs : Text) → Clean (trim_start cs)
unfolding trim_start
trim_start-Clean [] = tt
trim_start-Clean (c ∷ cs) = elim (Bool-cases (is_whitespace c)) [
  | inl e ↦ rw e (trim_start-Clean cs)
  | inr e ↦ rw e e
]

Clean-trim_start : (cs : Text) → Clean cs → trim_start cs ≡ cs
unfolding trim_start
Clean-trim_start [] h = refl
Clean-trim_start (c ∷ cs) h = rw h refl

Clean-append : (us vs : Text) → Clean (us ++ vs) → Clean us
Clean-append [] vs h = tt
Clean-append (u ∷ us) vs h = h

-- `trim_start` cuts a piece off at the front.
trim_start_cut : (cs : Text) → (ws : Text) × (cs ≡ ws ++ trim_start cs)
unfolding trim_start
trim_start_cut [] = ([], refl)
trim_start_cut (c ∷ cs) = elim (Bool-cases (is_whitespace c)) [
  | inl e ↦ let (ws, k) = trim_start_cut cs in (c ∷ ws, rw e (ap (λ r. c ∷ r) k))
  | inr e ↦ ([], rw e refl)
]

-- A text without space at its front has none there when it is cut at its end.
cut-Clean : (cs : Text) → Clean cs → Clean (reverse (trim_start (reverse cs)))
cut-Clean cs h =
    let (ws, k) = trim_start_cut (reverse cs) in
    Clean-append (reverse (trim_start (reverse cs))) (reverse ws) (
      subst Clean
        (sym (reverse-reverse cs) ∙ ap reverse k ∙ reverse-append ws (trim_start (reverse cs))) h)

pub trim-trim : (cs : Text) → trim (trim cs) ≡ trim cs
unfolding trim
trim-trim cs =
    let y = trim_start cs in
    let z = trim_start (reverse y) in
    ap (λ r. reverse (trim_start (reverse r)))
      (Clean-trim_start (reverse z) (cut-Clean y (trim_start-Clean cs)))
    ∙ ap (λ r. reverse (trim_start r)) (reverse-reverse z)
    ∙ ap reverse (Clean-trim_start z (trim_start-Clean (reverse y)))

pub is_blank-trim : (cs : Text) → is_blank (trim cs) ≡ is_blank cs
unfolding is_blank
is_blank-trim cs = ap is_empty (trim-trim cs)
