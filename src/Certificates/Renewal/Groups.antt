-- ===== src/Certificates/Renewal/Groups.antt =====
-- Each certificate that is to be renewed is in the request of its workload, and in no other.
use fabric_ops.Prelude.{
  ℕ, zero, suc, ◌+◌, String, Bool, false, ◌&&◌, ◌||◌, List, [], ◌∷◌, ◌++◌, Option, none, some, ◌≡◌,
  ◌<◌, inl, inr, refl, ◌∙◌, ap, ◌==◌, arith, eq_iff, nat_eq, any, get_elem?, Bool-cases,
}
use fabric_ops.Prelude.Maps.{Map, lookup, lookup-insert}
use fabric_ops.Certificates.Renewal.{
  CertificateInventoryItem, CertificateRenewalRequest, is_wanted, request_for, with_item, add_item,
  requests_by_workload,
}

-- The request has the index.
abbrev pub has_index : ℕ → Option CertificateRenewalRequest → Bool
has_index i none = false
has_index i (some request) = any (nat_eq i) request.indices

-- The item is to be renewed, and is of the workload.
abbrev pub is_due : String → CertificateInventoryItem → Bool
is_due workload item = is_wanted item && item.ref.workload_name == workload

-- The item of the list that has the index, counted from `first`, is due.
abbrev due_from : String → ℕ → ℕ → List CertificateInventoryItem → Bool
due_from workload i first [] = false
due_from workload i first (item ∷ items) =
    (nat_eq i first && is_due workload item) || due_from workload i (first + 1) items

any-append :
    (i j : ℕ) (xs : List ℕ) → any (nat_eq i) (xs ++ (j ∷ [])) ≡ (any (nat_eq i) xs || nat_eq i j)
any-append i j [] = ground arith
any-append i j (x ∷ xs) = ground (arith, any-append i j xs)

module _ (bytes_of : String → List ℕ) where
  has_index-with_item :
      (i j : ℕ) (item : CertificateInventoryItem) (o : Option CertificateRenewalRequest)
      → has_index i (some (with_item bytes_of j item (request_for item o)))
        ≡ (has_index i o || nat_eq i j)
  unfolding with_item request_for
  has_index-with_item i j item none = ground arith
  has_index-with_item i j item (some r) = any-append i j r.indices

  has_index-add_item :
      (workload : String) (i j : ℕ) (item : CertificateInventoryItem)
      (m : Map CertificateRenewalRequest)
      → has_index i (lookup workload (add_item bytes_of j item m))
        ≡ (has_index i (lookup workload m) || (nat_eq i j && is_due workload item))
  unfolding add_item
  has_index-add_item workload i j item m =
      let own = item.ref.workload_name in
      let request = with_item bytes_of j item (request_for item (lookup own m)) in
      elim (Bool-cases (own == workload)) [
        | inl same ↦
            let alike = ap (λ w. has_index i (lookup w m)) ((eq_iff own workload).0 same) in
            ground (
              arith,
              same,
              alike,
              lookup-insert own workload request m,
              has_index-with_item i j item (lookup own m),
            )
        | inr other ↦ ground (arith, other, lookup-insert own workload request m)
      ]

  has_index-requests :
      (workload : String) (i first : ℕ) (items : List CertificateInventoryItem)
      (m : Map CertificateRenewalRequest)
      → has_index i (lookup workload (requests_by_workload bytes_of m first items))
        ≡ (has_index i (lookup workload m) || due_from workload i first items)
  unfolding requests_by_workload
  has_index-requests workload i first [] m = ground arith
  has_index-requests workload i first (item ∷ items) m = ground (
    arith,
    has_index-add_item workload i first item m,
    has_index-requests workload i (first + 1) items (add_item bytes_of first item m),
  )

-- An item that may not be there.
abbrev pub is_due_at : String → Option CertificateInventoryItem → Bool
is_due_at workload none = false
is_due_at workload (some item) = is_due workload item

due_from-before :
    (workload : String) (i first : ℕ) (items : List CertificateInventoryItem)
    → i < first
    → due_from workload i first items ≡ false
due_from-before workload i first [] lt = refl
due_from-before workload i first (item ∷ items) lt =
    ground (arith, due_from-before workload i (first + 1) items (omega (arith, lt)))

due_from-get_elem :
    (workload : String) (i first : ℕ) (items : List CertificateInventoryItem)
    → due_from workload (first + i) first items ≡ is_due_at workload (get_elem? items i)
due_from-get_elem workload i first [] = refl
due_from-get_elem workload zero first (item ∷ items) =
    ground (arith, due_from-before workload (first + 0) (first + 1) items (omega arith))
due_from-get_elem workload (suc i) first (item ∷ items) =
    let shift : first + suc i ≡ (first + 1) + i = omega arith in
    ap (λ n. (nat_eq n first && is_due workload item) || due_from workload n (first + 1) items)
      shift
    ∙ ground (arith, due_from-get_elem workload i (first + 1) items)

-- After the loop of certificateRenewalRequests the request of a workload has an index
-- exactly if the inventory has an item at that index which is renewable, is expired or due
-- for renewal, and is of that workload.
pub requests_by_workload-partition :
    (bytes_of : String → List ℕ) (items : List CertificateInventoryItem) (workload : String) (i : ℕ)
    → has_index i (lookup workload (requests_by_workload bytes_of [] 0 items))
      ≡ is_due_at workload (get_elem? items i)
unfolding lookup
requests_by_workload-partition bytes_of items workload i =
    let found = has_index-requests bytes_of workload i 0 items [] in
    let read = due_from-get_elem workload i 0 items in
    let zero_add : 0 + i ≡ i = omega arith in
    let at = ap (λ n. due_from workload n 0 items) zero_add in ground (arith, found, read, at)
