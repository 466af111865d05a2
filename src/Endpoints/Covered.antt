-- ===== src/Endpoints/Covered.antt =====
-- The certificate of a workload is for the hosts under which it is advertised.
use fabric_ops.Prelude.{
  ℕ, zero, suc, ◌≤◌, ◌<◌, String, Bool, true, false, not, ◌&&◌, ◌||◌, List, [], ◌∷◌, ◌++◌, map,
  Option, none, some, ◌≡◌, ◌≢◌, ◌⊎◌, inl, inr, refl, ◌∙◌, ◌==◌, eq_iff, leb, ltb, if◌then◌else◌,
  arith,
}
use fabric_ops.Text.{trim_space, parse_uint64}
use fabric_ops.Topology.Text.{split_host_port, positive_atoi, trim_first}
use fabric_ops.Topology.Values.{has}
use fabric_ops.Api.Spec.{ExternalEndpoint}
use fabric_ops.Endpoints.{
  unique_trimmed_strings, external_endpoint_for_workload, workload_tls_hostname_override,
  workload_dns_names, endpoint_hosts, workload_csr_hosts, endpoint_port, endpoint_host,
}
use fabric_ops.Endpoints.Unique.{unique_trimmed_strings-Distinct}

has-map-append :
    (x : String) (xs ys : List String)
    → has x (map trim_space (xs ++ ys)) ≡ (has x (map trim_space xs) || has x (map trim_space ys))
has-map-append x [] ys = refl
has-map-append x (z ∷ zs) ys =
    let rest = has-map-append x zs ys in
    joined (trim_space z == x) (has x (map trim_space (zs ++ ys))) (has x (map trim_space zs))
      (has x (map trim_space ys)) rest
  where
    joined : (a b c d : Bool) → b ≡ (c || d) → (a || b) ≡ (a || c || d)
    joined true b c d e = refl
    joined false b c d e = e

last_host :
    (x : String) (xs : List String) (y : String)
    → trim_space y ≡ x
    → has x (map trim_space (xs ++ y ∷ [])) ≡ true
last_host x xs y e =
    has-map-append x xs (y ∷ [])
    ∙ with_true (has x (map trim_space xs)) (trim_space y == x) ((eq_iff (trim_space y) x).1 e)
  where
    with_true : (a b : Bool) → b ≡ true → (a || (b || false)) ≡ true
    with_true true b h = refl
    with_true false b h = ground (arith, h)

wanted : (x : String) (b : Bool) → x ≢ "" → b ≡ true → (not (x == "") && b) ≡ true
wanted x b h e = by_test (x == "") refl
  where
    by_test : (t : Bool) → (x == "") ≡ t → (not t && b) ≡ true
    by_test true f = absurd (h ((eq_iff x "").0 f))
    by_test false f = e

found-override :
    (name namespace : String) (e : ExternalEndpoint)
    → trim_space e.tls_hostname_override ≢ ""
    → has
        (trim_space e.tls_hostname_override)
        (unique_trimmed_strings (workload_dns_names name namespace ++ endpoint_hosts e))
      ≡ true
unfolding endpoint_hosts
found-override name namespace e h =
    let x = trim_space e.tls_hostname_override in
    let hosts =
      (if endpoint_host e.address == "" then [] else endpoint_host e.address ∷ []) ++ e.tls_hosts in
    (unique_trimmed_strings-Distinct (workload_dns_names name namespace ++ endpoint_hosts e)).1 x
    ∙ wanted x _ h (
        has-map-append x (workload_dns_names name namespace) (endpoint_hosts e)
        ∙ with_last (has x (map trim_space (workload_dns_names name namespace))) _
            (last_host x hosts e.tls_hostname_override refl))
  where
    with_last : (a b : Bool) → b ≡ true → (a || b) ≡ true
    with_last true b h = refl
    with_last false b h = h

-- A TLS host name override of a workload that is not empty is one of the hosts that its
-- certificate is requested for.
pub workload_tls_hostname_override-Covered :
    (endpoints : List ExternalEndpoint) (name namespace : String)
    → workload_tls_hostname_override endpoints name ≢ ""
    → has
        (workload_tls_hostname_override endpoints name)
        (workload_csr_hosts name namespace endpoints)
      ≡ true
unfolding workload_tls_hostname_override workload_csr_hosts
workload_tls_hostname_override-Covered endpoints name namespace =
    by_endpoint (external_endpoint_for_workload endpoints name)
  where
    by_endpoint :
        (found : Option ExternalEndpoint)
        → let override = elim found as (λ _. String) [
          | none ↦ ""
          | some e ↦ trim_space e.tls_hostname_override
        ] in
          override ≢ ""
          → has override (elim found as (λ _. List String) [
            | none ↦ workload_dns_names name namespace
            | some e ↦
                unique_trimmed_strings (workload_dns_names name namespace ++ endpoint_hosts e)
          ])
            ≡ true
    by_endpoint none h = absurd (h refl)
    by_endpoint (some e) h = found-override name namespace e h

-- A port that a socket can have.
abbrev pub IsPort : ℕ → Type 0
IsPort n = (0 < n) × (n ≤ 65535)

limited : ℕ → ℕ → ℕ
limited default n = if leb n 65535 then n else default

limited-IsPort : (default n : ℕ) → IsPort default → 0 < n → IsPort (limited default n)
unfolding limited
limited-IsPort default n h p = ground (arith, h, p)

pub atoi_positive : (s : String) (n : ℕ) → positive_atoi s ≡ some n → 0 < n
unfolding positive_atoi
atoi_positive s n = by_value (parse_uint64 (trim_first "+" s))
  where
    by_value :
        (o : Option ℕ)
        → elim o as (λ _. Option ℕ) [
          | none ↦ none
          | some zero ↦ none
          | some (suc m) ↦ if ltb m 9223372036854775807 then some (suc m) else none
        ]
          ≡ some n
        → 0 < n
    by_value none h = absurd (cc)
    by_value (some zero) h = absurd (cc)
    by_value (some (suc m)) h = ground (arith, h)

-- The port of an address, whatever its text, is from 1 to 65535 where the default is.
pub endpoint_port-IsPort :
    (address : String) (default : ℕ) → IsPort default → IsPort (endpoint_port address default)
unfolding endpoint_port limited
endpoint_port-IsPort address default h = by_split (split_host_port (trim_space address))
  where
    by_number :
        (port : String) (o : Option ℕ)
        → positive_atoi port ≡ o
        → IsPort
            (elim o as (λ _. ℕ) [ none ↦ default | some n ↦ if leb n 65535 then n else default ])
    by_number port none e = h
    by_number port (some n) e = limited-IsPort default n h (atoi_positive port n e)

    by_split :
        (split : String ⊎ (String × String))
        → IsPort (elim split as (λ _. ℕ) [
          | inl error ↦ default
          | inr (host, port) ↦ elim (positive_atoi port) [
            | none ↦ default
            | some n ↦ if leb n 65535 then n else default
          ]
        ])
    by_split (inl error) = h
    by_split (inr (host, port)) = by_number port (positive_atoi port) refl
