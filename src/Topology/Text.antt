-- ===== src/Topology/Text.antt =====
-- What the topology's checks use of `fmt`, `strings`, `net`, `strconv` and `regexp`.
-- `quote` is the verb `%q` on printable ASCII texts.
use Prim.Native.Char.{Char, code}
use fabric_ops.Prelude.{
  ℕ, zero, suc, String, Bool, true, not, ◌&&◌, ◌||◌, ◌⊎◌, inl, inr, List, [], ◌∷◌, Option, none,
  some, ◌≡◌, refl, ◌==◌, ltb, nat_eq, if◌then◌else◌,
}
use fabric_ops.Text.{◌<>◌, contains_char, parse_uint64}

escaped : String → String
escaped String.[] = ""
escaped (String.◌∷◌ c s) =
    let rest = String.◌∷◌ c (escaped s) in
    if nat_eq (code c) 34 || nat_eq (code c) 92 then "\\" <> rest else rest

unfoldable pub quote : String → String
unfolding escaped
quote s = "\"" <> escaped s <> "\""

-- `strings.Join(xs, ", ")`.
unfoldable pub comma_separated : List String → String
comma_separated [] = ""
comma_separated (x ∷ []) = x
comma_separated (x ∷ y ∷ xs) = x <> ", " <> comma_separated (y ∷ xs)

-- `strings.HasPrefix`.
unfoldable pub has_prefix : String → String → Bool
has_prefix String.[] p = p == ""
has_prefix (String.◌∷◌ c s) String.[] = true
has_prefix (String.◌∷◌ c s) (String.◌∷◌ d p) = nat_eq (code c) (code d) && has_prefix s p

-- `strings.TrimPrefix(s, p)` for one character.
unfoldable pub trim_first : Char → String → String
trim_first p String.[] = ""
trim_first p (String.◌∷◌ c s) = if nat_eq (code c) (code p) then s else String.◌∷◌ c s

-- What stands before the first `sep`, and after it.
unfoldable pub split_first : Char → String → Option (String × String)
split_first sep String.[] = none
split_first sep (String.◌∷◌ c s) =
    let rest = split_first sep s in
    if nat_eq (code c) (code sep)
    then some ("", s)
    else elim rest [ none ↦ none | some (before, after) ↦ some (String.◌∷◌ c before, after) ]

-- What stands before the last `sep`, and after it.
unfoldable pub split_last : Char → String → Option (String × String)
split_last sep String.[] = none
split_last sep (String.◌∷◌ c s) = elim (split_last sep s) [
  | some (before, after) ↦ some (String.◌∷◌ c before, after)
  | none ↦ if nat_eq (code c) (code sep) then some ("", s) else none
]

-- The end of `net.SplitHostPort`: the brackets that are left.
no_brackets : String → String → String × String → String ⊎ (String × String)
unfolding contains_char
no_brackets opens closes result =
    if contains_char "[" opens
    then inl "unexpected '[' in address"
    else if contains_char "]" closes
    then inl "unexpected ']' in address"
    else inr result

-- `net.SplitHostPort` of "[" <> inner, where `port` is what follows the last colon.
split_bracketed : String → String → String ⊎ (String × String)
unfolding split_first no_brackets has_prefix contains_char trim_first
split_bracketed inner port = elim (split_first "]" inner) [
  | none ↦ inl "missing ']' in address"
  | some (host, tail) ↦
      if not (has_prefix tail ":")
      then inl "missing port in address"
      else if contains_char ":" (trim_first ":" tail)
      then inl "too many colons in address"
      else no_brackets inner tail (host, port)
]

split_plain : String → String → String ⊎ (String × String)
unfolding no_brackets contains_char
split_plain host port =
    if contains_char ":" host
    then inl "too many colons in address"
    else no_brackets (host <> ":" <> port) (host <> ":" <> port) (host, port)

-- `net.SplitHostPort`, with its error's reason.
unfoldable pub split_host_port : String → String ⊎ (String × String)
unfolding split_last split_bracketed split_plain has_prefix trim_first
split_host_port s = elim (split_last ":" s) [
  | none ↦ inl "missing port in address"
  | some (host, port) ↦
      if has_prefix s "[" then split_bracketed (trim_first "[" s) port else split_plain host port
]

-- `strconv.Atoi` gives this number when it is positive; for zero, a negative number and an error,
-- it is `none`.
unfoldable pub positive_atoi : String → Option ℕ
unfolding parse_uint64 trim_first
positive_atoi s = elim (parse_uint64 (trim_first "+" s)) [
  | none ↦ none
  | some zero ↦ none
  | some (suc n) ↦ if ltb n 9223372036854775807 then some (suc n) else none
]

reversed : String → String → String
reversed String.[] done = done
reversed (String.◌∷◌ c s) done = reversed s (String.◌∷◌ c done)

-- The scan for `'([^']+)'`: `none` outside of quotes, `some read` (backwards) inside.
quoted_from : Option String → String → List String
unfolding reversed
quoted_from inside String.[] = []
quoted_from none (String.◌∷◌ c s) = quoted_from (if nat_eq (code c) 39 then some "" else none) s
quoted_from (some read) (String.◌∷◌ c s) =
    let next =
      if not (nat_eq (code c) 39)
      then some (String.◌∷◌ c read)
      else if read == ""
      then some ""
      else none in
    let rest = quoted_from next s in
    if nat_eq (code c) 39 && not (read == "") then reversed read "" ∷ rest else rest

-- The first groups of `signaturePolicyPrincipalPattern.FindAllStringSubmatch(policy, -1)`.
unfoldable pub quoted_parts : String → List String
unfolding quoted_from
quoted_parts = quoted_from none

topology_text :
    (split_host_port "[::1]:7050" ≡ inr ("::1", "7050"))
    × (split_host_port "a:b:1" ≡ inl "too many colons in address")
    × (split_host_port "peer0.org:7051" ≡ inr ("peer0.org", "7051"))
    × (quoted_parts "OR('A.peer', 'B.admin', '')" ≡ ("A.peer" ∷ "B.admin" ∷ []))
    × (quote "a\"b" ≡ "\"a\\\"b\"")
unfolding split_host_port quoted_parts quote
topology_text = (refl, refl, refl, refl, refl)
