-- ===== src/Text/Nonempty.antt =====
-- Texts that are not empty.
use Prim.Native.String.append.{nil, cons}
use Prim.Native.Char.{Char}
use fabric_ops.Prelude.{String, Bool, true, false, List, [], ◌∷◌, ◌≡◌, ◌≢◌, refl, sym, ap, ◌∙◌}
use fabric_ops.Text.{◌<>◌, join}

is_empty : String → Bool
is_empty String.[] = true
is_empty (String.◌∷◌ c s) = false

cons_nonempty : (c : Char) (s : String) → String.◌∷◌ c s ≢ ""
unfolding is_empty
cons_nonempty c s e = absurd (true_false (sym (ap is_empty e)))
  where
    true_false : true ≡ false → ⊥
    true_false h = absurd (cc)

pub append_nonempty : (a b : String) → a ≢ "" → (a <> b) ≢ ""
append_nonempty String.[] b h e = absurd (h refl)
append_nonempty (String.◌∷◌ c a) b h e = cons_nonempty c (a <> b) (sym (cons c a b) ∙ e)

pub ending_nonempty : (a b : String) → b ≢ "" → (a <> b) ≢ ""
ending_nonempty String.[] b h e = h (sym (nil b) ∙ e)
ending_nonempty (String.◌∷◌ c a) b h e = cons_nonempty c (a <> b) (sym (cons c a b) ∙ e)

pub join_nonempty :
    (separator m : String) (ms : List String) → m ≢ "" → join separator (m ∷ ms) ≢ ""
unfolding join
join_nonempty separator m [] h = h
join_nonempty separator m (n ∷ ms) h = append_nonempty m (separator <> join separator (n ∷ ms)) h
