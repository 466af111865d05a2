-- ===== src/Raft/Result.antt =====
-- The errors of internal/channelconfig/raft.go: one constructor for each message, with the
-- arguments of its format; `panic` is an index out of range or a write to a nil map.
use fabric_ops.Prelude.{ℕ, String, Bool, true, false, Option, none, some, ◌≡◌, refl}

pub data Error : Type 0 where
  decode_config_block : Error
  not_one_transaction : Error
  not_config_transaction : String → Error
  decode_channel_config : Error
  bad_sequence : Error
  decode_consensus_type : Error
  unsupported_consensus : Error
  decode_current_consenters : Error
  current_consenters : Error → Error
  desired_consenters : Error → Error
  more_than_one_change : Error
  no_consenter : Error
  bad_host : ℕ → Error
  bad_port : ℕ → Error
  duplicate_endpoint : String → Error
  not_single_certificate : ℕ → Error
  bad_certificate : ℕ → Error
  ca_certificate : ℕ → Error
  certificate_reuse : ℕ → ℕ → Error
  decode_plan : Error
  not_a_plan : String → Error
  plan_mismatch : Error
  outside_delta : Error
  decode_field : String → Error
  missing_field : String → Error
  decode_json : Error
  panic : Error

-- What a function returns: an error, as in `return nil, err`, or its value.
pub data Result {ℓ} (V : Type ℓ) : Type ℓ where
  err : Error → Result V
  ok : V → Result V

-- `fmt.Errorf("...: %w", err)`
abbrev pub wrap {ℓ} : {A : Type ℓ} → (Error → Error) → Result A → Result A
wrap f (ok a) = ok a
wrap f (err e) = err (f e)

-- `if err != nil { return ..., err }` between two steps.
infixl 5 ◌>>=◌
abbrev pub ◌>>=◌ {κ ℓ} : {V : Type κ} {W : Type ℓ} → Result V → (V → Result W) → Result W
err problem >>= next = err problem
ok value >>= next = next value

-- The value, or the error `e` where there is none.
abbrev pub or_error {ℓ} : {A : Type ℓ} → Option A → Error → Result A
or_error none e = err e
or_error (some a) e = ok a

-- `if !test { return ..., e }`
abbrev pub guard : Bool → Error → Result (Unit {0})
guard false problem = err problem
guard true problem = ok tt

infixl 5 ◌>>◌
abbrev pub ◌>>◌ {ℓ} : {W : Type ℓ} → Result (Unit {0}) → Result W → Result W
first >> next = first >>= λ unit. next

pub guard-eq-ok {ℓ} :
    {B : Type ℓ} (b : Bool) (e : Error) (k : Result B) {r : B}
    → (guard b e >> k) ≡ ok r
    → (b ≡ true) × (k ≡ ok r)
guard-eq-ok true e k h = (refl, h)
guard-eq-ok false e k h = cc

pub wrap-eq-ok {ℓ} :
    {A : Type ℓ} (f : Error → Error) (m : Result A) {a : A} → wrap f m ≡ ok a → m ≡ ok a
wrap-eq-ok f (ok a) h = h
wrap-eq-ok f (err e) h = cc

pub or_error-eq-ok {ℓ} :
    {A : Type ℓ} (o : Option A) (e : Error) {a : A} → or_error o e ≡ ok a → o ≡ some a
or_error-eq-ok none e h = cc
or_error-eq-ok (some a) e h = cc

-- A chain that succeeds has a first step that succeeds, and the rest succeeds from its value.
pub >>=-eq-ok {κ ℓ} :
    {V : Type κ} {W : Type ℓ} (first : Result V) (next : V → Result W) {w : W}
    → first >>= next ≡ ok w
    → (v : V) × (first ≡ ok v) × (next v ≡ ok w)
>>=-eq-ok (err problem) next h = cc
>>=-eq-ok (ok value) next h = (value, refl, h)

-- The same, for a goal that follows from the parts.
pub >>=-elim {ℓ κ μ} :
    {A : Type ℓ} {B : Type κ} {C : Type μ} (m : Result A) (f : A → Result B) {b : B}
    → (m >>= f) ≡ ok b
    → ((a : A) → m ≡ ok a → f a ≡ ok b → C)
    → C
>>=-elim m f e k = let (a, p, q) = >>=-eq-ok m f e in k a p q
