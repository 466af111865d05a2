-- ===== src/Text/Trim.antt =====
-- A text that was trimmed has nothing to trim.
use Prim.Native.Char.{Char}
use fabric_ops.Prelude.{
  String, Bool, true, false, ◌&&◌, ◌≡◌, refl, sym, ap, subst, ◌∙◌, ◌==◌, if◌then◌else◌,
}
use fabric_ops.Text.{is_space, trim_left, trim_right, trim_space}

trim_right-trim_right : (s : String) → trim_right (trim_right s) ≡ trim_right s
unfolding trim_right
trim_right-trim_right String.[] = refl
trim_right-trim_right (String.◌∷◌ c s) =
    by_test (is_space c && trim_right s == "") refl (trim_right-trim_right s)
  where
    by_test :
        (b : Bool)
        → (is_space c && trim_right s == "") ≡ b
        → trim_right (trim_right s) ≡ trim_right s
        → trim_right (if b then String.[] else String.◌∷◌ c (trim_right s))
          ≡ (if b then String.[] else String.◌∷◌ c (trim_right s))
    by_test true e again = refl
    by_test false e again =
        subst
          (λ t.
            (if is_space c && t == "" then String.[] else String.◌∷◌ c t)
            ≡ String.◌∷◌ c (trim_right s))
          (sym again) (ap (λ (b : Bool). if b then String.[] else String.◌∷◌ c (trim_right s)) e)

-- A text that begins with no space keeps its first letter.
solid_right :
    (c : Char) (s : String)
    → is_space c ≡ false
    → trim_right (String.◌∷◌ c s) ≡ String.◌∷◌ c (trim_right s)
unfolding trim_right
solid_right c s e =
    ap (λ (b : Bool). if b && trim_right s == "" then String.[] else String.◌∷◌ c (trim_right s)) e

solid_left :
    (c : Char) (s : String) → is_space c ≡ false → trim_left (String.◌∷◌ c s) ≡ String.◌∷◌ c s
unfolding trim_left
solid_left c s e = ap (λ (b : Bool). if b then trim_left s else String.◌∷◌ c s) e

trim_left-trimmed : (s : String) → trim_left (trim_right (trim_left s)) ≡ trim_right (trim_left s)
unfolding trim_left trim_right
trim_left-trimmed String.[] = refl
trim_left-trimmed (String.◌∷◌ c s) = by_test (is_space c) refl (trim_left-trimmed s)
  where
    by_test :
        (b : Bool)
        → is_space c ≡ b
        → trim_left (trim_right (trim_left s)) ≡ trim_right (trim_left s)
        → trim_left (trim_right (if b then trim_left s else String.◌∷◌ c s))
          ≡ trim_right (if b then trim_left s else String.◌∷◌ c s)
    by_test true e rest = rest
    by_test false e rest =
        ap trim_left (solid_right c s e) ∙ solid_left c (trim_right s) e ∙ sym (solid_right c s e)

pub trim_space-trim_space : (s : String) → trim_space (trim_space s) ≡ trim_space s
unfolding trim_space
trim_space-trim_space s = ap trim_right (trim_left-trimmed s) ∙ trim_right-trim_right (trim_left s)
