-- ===== src/Naming.antt =====
-- The names of Kubernetes resources: `sanitizeName` of internal/controller/fabricnetwork_org.go.
-- The FNV-32a hash in eight hexadecimal digits is the parameter `hash`. As in `Text`, the case
-- of ASCII letters only is folded.
pub mod Bounds
use Prim.Native.Char.{Char, code}
use fabric_ops.Prelude.{
  ℕ, zero, suc, ◌+◌, ◌-◌, String, Bool, true, false, not, ◌&&◌, ◌||◌, ◌==◌, ltb, leb, nat_eq,
  if◌then◌else◌,
}
use fabric_ops.Text.{◌<>◌, trim_space, to_lower}

abbrev pub max_kubernetes_name_length : ℕ
max_kubernetes_name_length = 63

abbrev pub str_length : String → ℕ
str_length String.[] = 0
str_length (String.◌∷◌ c s) = suc (str_length s)

-- `s[:n]`.
unfoldable pub str_take : ℕ → String → String
str_take zero s = String.[]
str_take (suc n) String.[] = String.[]
str_take (suc n) (String.◌∷◌ c s) = String.◌∷◌ c (str_take n s)

unfoldable pub is_name_char : Char → Bool
is_name_char c = let n = code c in (leb b'a' n && leb n b'z') || (leb b'0' n && leb n b'9')

-- The loop over the characters; `last` is `lastDash`.
unfoldable pub dashed : Bool → String → String
unfolding is_name_char
dashed last String.[] = String.[]
dashed last (String.◌∷◌ c s) =
    let rest = dashed (not (is_name_char c)) s in
    if is_name_char c then String.◌∷◌ c rest else if last then rest else "-" <> rest

unfoldable pub trim_left_dash : String → String
trim_left_dash String.[] = String.[]
trim_left_dash (String.◌∷◌ c s) =
    let rest = trim_left_dash s in if nat_eq (code c) b'-' then rest else String.◌∷◌ c s

-- `strings.TrimRight(s, "-")`.
unfoldable pub trim_right_dash : String → String
trim_right_dash String.[] = String.[]
trim_right_dash (String.◌∷◌ c s) =
    let rest = trim_right_dash s in
    if nat_eq (code c) b'-' && rest == "" then String.[] else String.◌∷◌ c rest

unfoldable pub or_default : String → String → String
or_default s default = if s == "" then default else s

module _ (hash : String → String) where
  -- What the function does with a name that is too long.
  unfoldable pub shorten : String → String
  unfolding str_take trim_right_dash or_default
  shorten s =
      let suffix = hash s in
      let cut = str_take (max_kubernetes_name_length - str_length suffix - 1) s in
      or_default (trim_right_dash cut) cut <> "-" <> suffix

  unfoldable pub sanitize_name : String → String
  unfolding shorten dashed trim_left_dash trim_right_dash or_default trim_space to_lower
  sanitize_name name =
      let s =
        or_default (trim_right_dash (trim_left_dash (dashed false (to_lower (trim_space name)))))
          "resource" in
      if leb (str_length s) max_kubernetes_name_length then s else shorten s
