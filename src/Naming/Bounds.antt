-- ===== src/Naming/Bounds.antt =====
-- The name of a resource is never longer than Kubernetes allows.
use fabric_ops.Prelude.{
  ℕ, zero, suc, ◌+◌, ◌≤◌, ◌≡◌, ap, String, Bool, true, false, ◌&&◌, ◌==◌, nat_eq, if◌then◌else◌,
  arith,
}
use Prim.Native.String.append.{nil, cons}
use Prim.Native.Char.{Char, code}
use fabric_ops.Text.{◌<>◌}
use fabric_ops.Naming.{
  str_length, str_take, trim_right_dash, or_default, shorten, sanitize_name,
  max_kubernetes_name_length,
}

length-nil : (t : String) → str_length ("" <> t) ≡ str_length t
length-nil t = ap str_length (nil t)

length-cons :
    (c : Char) (s t : String) → str_length (String.◌∷◌ c s <> t) ≡ suc (str_length (s <> t))
length-cons c s t = ap str_length (cons c s t)

length-append : (s t : String) → str_length (s <> t) ≡ str_length s + str_length t
length-append String.[] t = omega (arith, length-nil t)
length-append (String.◌∷◌ c s) t = omega (arith, length-append s t, length-cons c s t)

length-take : (n : ℕ) (s : String) → str_length (str_take n s) ≤ n
unfolding str_take
length-take zero s = omega arith
length-take (suc n) String.[] = omega arith
length-take (suc n) (String.◌∷◌ c s) = omega (arith, length-take n s)

length-if :
    (n : ℕ) (b : Bool) (s t : String)
    → str_length s ≤ n
    → str_length t ≤ n
    → str_length (if b then s else t) ≤ n
length-if n true s t hs ht = hs
length-if n false s t hs ht = ht

length-trim : (s : String) → str_length (trim_right_dash s) ≤ str_length s
unfolding trim_right_dash
length-trim String.[] = omega arith
length-trim (String.◌∷◌ c s) =
    length-if (suc (str_length s)) (nat_eq (code c) b'-' && trim_right_dash s == "") "" _
      (omega arith) (omega (arith, length-trim s))

length-or_default :
    (n : ℕ) (s t : String) → str_length s ≤ n → str_length t ≤ n → str_length (or_default s t) ≤ n
unfolding or_default
length-or_default n s t hs ht = ground arith

module _ (hash : String → String) (eight : (s : String) → str_length (hash s) ≡ 8) where
  length-shorten : (s : String) → str_length (shorten hash s) ≤ 63
  unfolding shorten
  length-shorten s =
      grind (arith, eight, length-append, length-take, length-or_default, length-trim)

  -- The name that sanitizeName makes has at most 63 characters, when the hash has eight.
  pub length-sanitize_name :
      (name : String) → str_length (sanitize_name hash name) ≤ max_kubernetes_name_length
  unfolding sanitize_name
  length-sanitize_name name = grind (arith, length-shorten)
