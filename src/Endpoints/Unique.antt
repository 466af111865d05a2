-- ===== src/Endpoints/Unique.antt =====
-- The texts without repetition.
use fabric_ops.Prelude.{
  String, Bool, true, false, not, ◌&&◌, ◌||◌, List, [], ◌∷◌, map, ◌≡◌, refl, sym, ap, ◌∙◌, ◌==◌,
  eq_iff, if◌then◌else◌, arith,
}
use fabric_ops.Text.{trim_space}
use fabric_ops.Topology.Values.{has}
use fabric_ops.Topology.Lists.{Distinct, Apart, Apart-cons}
use fabric_ops.Endpoints.{unique_from, unique_trimmed_strings}

has-if :
    (b : Bool) (x : String) (xs ys : List String)
    → has x (if b then xs else ys) ≡ (if b then has x xs else has x ys)
has-if true x xs ys = refl
has-if false x xs ys = refl

-- One round, on what is asked of the texts: `same` is that the text of the round is the one looked for.
round_values :
    (blank known same x_blank x_known skipped taken more : Bool)
    → (same ≡ true → (x_blank ≡ blank) × (x_known ≡ known))
    → skipped ≡ (not x_blank && not x_known && more)
    → taken ≡ (not x_blank && not (same || x_known) && more)
    → (if blank || known then skipped else same || taken)
      ≡ (not x_blank && not x_known && (same || more))
round_values blank known true x_blank x_known skipped taken more h s t =
    let e = h refl in ground (arith, e, s, t)
round_values blank known false x_blank x_known skipped taken more h s t = by_blank blank known
  where
    by_blank :
        (b k : Bool) → (if b || k then skipped else taken) ≡ (not x_blank && not x_known && more)
    by_blank true k = s
    by_blank false true = s
    by_blank false false = t

same_text : (x text : String) (f : String → Bool) → (text == x) ≡ true → f x ≡ f text
same_text x text f e = ap f (sym ((eq_iff text x).0 e))

no_more : (a b : Bool) → false ≡ (a && b && false)
no_more a b = ground arith

not_known : (blank known : Bool) → false ≡ (blank || known) → known ≡ false
not_known blank known e = ground (arith, e)

unique_from-has :
    (seen values : List String) (x : String)
    → has x (unique_from seen values)
      ≡ (not (x == "") && not (has x seen) && has x (map trim_space values))
unfolding unique_from
unique_from-has seen [] x = no_more (not (x == "")) (not (has x seen))
unique_from-has seen (value ∷ rest) x =
    let text = trim_space value in
    has-if (text == "" || has text seen) x (unique_from seen rest)
      (text ∷ unique_from (text ∷ seen) rest)
    ∙ round_values (text == "") (has text seen) (text == x) (x == "") (has x seen)
        (has x (unique_from seen rest)) (has x (unique_from (text ∷ seen) rest))
        (has x (map trim_space rest))
        (λ e. (same_text x text (λ t. t == "") e, same_text x text (λ t. has t seen) e))
        (unique_from-has seen rest x) (unique_from-has (text ∷ seen) rest x)

unique_from-Distinct :
    (seen values : List String)
    → Apart seen (unique_from seen values) × Distinct (unique_from seen values)
unfolding unique_from
unique_from-Distinct seen [] = (tt, tt)
unique_from-Distinct seen (value ∷ rest) =
    by_test (trim_space value == "" || has (trim_space value) seen) (trim_space value == "") refl
      (unique_from-Distinct seen rest) (unique_from-Distinct (trim_space value ∷ seen) rest)
  where
    by_test :
        (b blank : Bool)
        → b ≡ (blank || has (trim_space value) seen)
        → Apart seen (unique_from seen rest) × Distinct (unique_from seen rest)
        → Apart (trim_space value ∷ seen) (unique_from (trim_space value ∷ seen) rest)
          × Distinct (unique_from (trim_space value ∷ seen) rest)
        → let out =
            if b
            then unique_from seen rest
            else trim_space value ∷ unique_from (trim_space value ∷ seen) rest in
          Apart seen out × Distinct out
    by_test true blank e skipped taken = skipped
    by_test false blank e skipped taken =
        let fresh =
          Apart-cons seen (trim_space value) (unique_from (trim_space value ∷ seen) rest) taken.0 in
        let unseen = not_known blank (has (trim_space value) seen) e in
        ((unseen, fresh.0), (fresh.1, taken.1))

-- The texts that uniqueTrimmedStrings returns are distinct, and a text is one of them
-- exactly if it is not empty and one of the values without the space around it.
pub unique_trimmed_strings-Distinct :
    (values : List String)
    → Distinct (unique_trimmed_strings values)
      × ((x : String)
          → has x (unique_trimmed_strings values)
            ≡ (not (x == "") && has x (map trim_space values)))
unfolding unique_trimmed_strings
unique_trimmed_strings-Distinct values = (
  (unique_from-Distinct [] values).1,
  λ x. unique_from-has [] values x ∙ drop (x == "") (has x (map trim_space values)),
)
  where
    drop : (a b : Bool) → (not a && true && b) ≡ (not a && b)
    drop true b = refl
    drop false b = refl
