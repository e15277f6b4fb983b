-- ===== src/Connection/Database/Replicas.antt =====
-- Which replica `primaryReplica` chooses.
use mathlib.Core.List.{foldl}
use typedb_client_java.Prelude.{
  ◌≤◌, List, [], ◌∷◌, none, some, Bool, true, false, ◌≡◌, refl, ap, subst, sym, ◌∙◌, ◌↔◌, ◌⊎◌, inl,
  inr, arith, All, Any, filter, Bool-cases,
}
use typedb_client_java.Connection.Database.{Replica, later, reduce_later, primary_replica}

later-cases :
    (r q : Replica) → ((later r q ≡ q) × (r.term ≤ q.term)) ⊎ ((later r q ≡ r) × (q.term ≤ r.term))
unfolding later
later-cases r q = ground arith

-- `m` is one of the replicas, and no other has a greater term.
abbrev IsLatest : Replica → List Replica → Type 0
IsLatest m rs = All (λ q. q.term ≤ m.term) rs × Any (λ q. q ≡ m) rs

IsLatest-cons :
    (m r q l : Replica) (rs : List Replica)
    → ((l ≡ q) × (r.term ≤ q.term)) ⊎ ((l ≡ r) × (q.term ≤ r.term))
    → IsLatest m (l ∷ rs)
    → IsLatest m (r ∷ q ∷ rs)
IsLatest-cons m r q l rs (inl (e, h)) ((up, all), at) =
    let same = ap (λ (x : Replica). x.term) e in
    (
      (omega arith, (omega arith, all)),
      elim at [ inl f ↦ inr (inl (sym e ∙ f)) | inr f ↦ inr (inr f) ],
    )
IsLatest-cons m r q l rs (inr (e, h)) ((up, all), at) =
    let same = ap (λ (x : Replica). x.term) e in
    ((omega arith, (omega arith, all)), elim at [ inl f ↦ inl (sym e ∙ f) | inr f ↦ inr (inr f) ])

foldl-IsLatest : (r : Replica) (rs : List Replica) → IsLatest (foldl later r rs) (r ∷ rs)
foldl-IsLatest r [] = ((omega arith, tt), inl refl)
foldl-IsLatest r (q ∷ rs) =
    IsLatest-cons (foldl later (later r q) rs) r q (later r q) rs (later-cases r q)
      (foldl-IsLatest (later r q) rs)

-- What a filter keeps, seen from the whole list.
module _ {A : Type 0} (p : A → Bool) (P : A → Type 0) where
  Any-filter : (xs : List A) → Any P (filter p xs) → Any (λ x. (p x ≡ true) × P x) xs
  Any-filter [] h = h
  Any-filter (x ∷ xs) h = elim (Bool-cases (p x)) [
    | inl keep ↦ elim (rw keep at h) [ inl q ↦ inl (keep, q) | inr q ↦ inr (Any-filter xs q) ]
    | inr drop ↦ inr (Any-filter xs (rw drop at h))
  ]

  All-filter : (xs : List A) → All P (filter p xs) → All (λ x. p x ≡ true → P x) xs
  All-filter [] h = tt
  All-filter (x ∷ xs) h = elim (Bool-cases (p x)) [
    | inl keep ↦ let (q, qs) = rw keep at h in ((λ _. q), All-filter xs qs)
    | inr drop ↦ ((λ e. cc), All-filter xs (rw drop at h))
  ]

reduce_later-IsLatest : (xs : List Replica) (m : Replica) → reduce_later xs ≡ some m → IsLatest m xs
unfolding reduce_later
reduce_later-IsLatest [] m h = cc
reduce_later-IsLatest (r ∷ rs) m h = subst (λ k. IsLatest k (r ∷ rs)) (cc) (foldl-IsLatest r rs)

none_primary :
    (rs : List Replica) → filter (λ r. r.primary) rs ≡ [] → All (λ r. r.primary ≡ false) rs
none_primary [] h = tt
none_primary (r ∷ rs) h = ground (arith, none_primary rs)

none_kept : (rs : List Replica) → All (λ r. r.primary ≡ false) rs → filter (λ r. r.primary) rs ≡ []
none_kept [] h = refl
none_kept (r ∷ rs) (h, hs) = ground (arith, none_kept rs hs)

reduce_later-nil : (xs : List Replica) → reduce_later xs ≡ none → xs ≡ []
unfolding reduce_later
reduce_later-nil [] h = refl
reduce_later-nil (r ∷ rs) h = cc

-- The primary replica that is chosen is marked as primary, is one of the replicas, and has the
-- greatest term among those that are marked.
pub primary_replica-eq-some :
    (rs : List Replica) (m : Replica)
    → primary_replica rs ≡ some m
    → Any (λ r. (r.primary ≡ true) × (r ≡ m)) rs × All (λ r. r.primary ≡ true → r.term ≤ m.term) rs
unfolding primary_replica
primary_replica-eq-some rs m h =
    let (all, at) = reduce_later-IsLatest (filter (λ r. r.primary) rs) m h in
    (Any-filter (λ r. r.primary) _ rs at, All-filter (λ r. r.primary) _ rs all)

-- There is no primary replica exactly when no replica is marked as primary.
pub primary_replica-eq-none_iff :
    (rs : List Replica) → (primary_replica rs ≡ none) ↔ All (λ r. r.primary ≡ false) rs
unfolding primary_replica reduce_later
primary_replica-eq-none_iff rs = (
  λ h. none_primary rs (reduce_later-nil (filter (λ r. r.primary) rs) h),
  λ h. ap reduce_later (none_kept rs h),
)
