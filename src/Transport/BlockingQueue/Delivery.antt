-- ===== src/Transport/BlockingQueue/Delivery.antt =====
-- nodejs/common/util/BlockingQueue.ts as a channel, over a history of calls.
use typedb_client_java.Prelude.{
  ℕ, zero, suc, ◌+◌, List, [], ◌∷◌, ◌++◌, Option, some, ◌≡◌, refl, ◌⊎◌, inl, inr, arith, length,
  length-append, get_elem?, ap, subst, map, append-nil, append_assoc, ap₂,
}
use typedb_client_java.Transport.BlockingQueue.{BlockingQueue, update, empty, add, take}

-- The numbers a, a + 1, …, `n` of them.
abbrev upto : ℕ → ℕ → List ℕ
upto a zero = []
upto a (suc n) = a ∷ upto (suc a) n

upto-snoc : (a n : ℕ) → upto a n ++ (a + n) ∷ [] ≡ upto a (suc n)
upto-snoc a zero = ground arith
upto-snoc a (suc n) = ap (◌∷◌ a) (
    subst (λ k. upto (suc a) n ++ k ∷ [] ≡ upto (suc a) (suc n)) (omega arith)
      (upto-snoc (suc a) n))

module _ {ℓ} {T : Type ℓ} where
  -- `values` were added, in this order, and `taken` promises handed out.
  pub record Holds (values : List T) (taken : ℕ) (q : BlockingQueue T) : Type ℓ where
    pub spare : ℕ
    pub missing : ℕ
    pub waiting : q.promises ≡ upto taken spare
    pub pending : q.resolvers ≡ upto (length values) missing
    pub spare_end : taken + spare ≡ q.created
    pub missing_end : length values + missing ≡ q.created
    pub tight : (spare ≡ 0) ⊎ (missing ≡ 0)
    pub values_at : (i : ℕ) → q.settled i ≡ get_elem? values i

  -- The queue with these lists.
  abbrev state : List T → ℕ → ℕ → ℕ → ℕ → (ℕ → Option T) → BlockingQueue T
  state values taken spare missing created settled = record {
    promises = upto taken spare;
    resolvers = upto (length values) missing;
    created = created;
    settled = settled;
  }

  Holds-state :
      (values : List T) (taken : ℕ) (q : BlockingQueue T) (h : Holds values taken q)
      → q ≡ state values taken h.spare h.missing q.created q.settled
  Holds-state values taken q h = ground (arith, h.waiting, h.pending)

  get_elem?-append :
      (values : List T) (t : T) (i : ℕ)
      → get_elem? (values ++ t ∷ []) i ≡ update (get_elem? values) (length values) (some t) i
  get_elem?-append [] t zero = refl
  get_elem?-append [] t (suc i) = ground arith
  get_elem?-append (v ∷ values) t zero = ground arith
  get_elem?-append (v ∷ values) t (suc i) = ground (arith, get_elem?-append values t i)

  add-state :
      (values : List T) (taken spare missing created : ℕ) (settled : ℕ → Option T) (t : T)
      → taken + spare ≡ created
      → length values + missing ≡ created
      → (spare ≡ 0) ⊎ (missing ≡ 0)
      → ((i : ℕ) → settled i ≡ get_elem? values i)
      → Holds (values ++ t ∷ []) taken (add t (state values taken spare missing created settled))
  unfolding add
  add-state values taken spare zero created settled t a b c d = record {
    spare = suc spare;
    missing = 0;
    waiting =
        subst (λ k. upto taken spare ++ k ∷ [] ≡ upto taken (suc spare)) a (upto-snoc taken spare);
    pending = refl;
    spare_end = omega arith;
    missing_end = omega (arith, length-append values (t ∷ []));
    tight = inr refl;
    values_at = λ i. ground (arith, get_elem?-append values t i, d i);
  }
  add-state values taken spare (suc missing) created settled t a b c d = record {
    spare = spare;
    missing = missing;
    waiting = refl;
    pending = ap (λ (n : ℕ). upto n missing) (omega (arith, length-append values (t ∷ [])));
    spare_end = a;
    missing_end = omega (arith, length-append values (t ∷ []));
    tight = ground arith;
    values_at = λ i. ground (arith, get_elem?-append values t i, d i);
  }

  take-state :
      (values : List T) (taken spare missing created : ℕ) (settled : ℕ → Option T)
      → taken + spare ≡ created
      → length values + missing ≡ created
      → (spare ≡ 0) ⊎ (missing ≡ 0)
      → ((i : ℕ) → settled i ≡ get_elem? values i)
      → let q = state values taken spare missing created settled in
        ((take q).0 ≡ some taken) × Holds values (suc taken) (take q).1
  unfolding take
  take-state values taken zero missing created settled a b c d = (
    ap some (omega arith),
    record {
      spare = 0;
      missing = suc missing;
      waiting = refl;
      pending =
          subst (λ k. upto (length values) missing ++ k ∷ [] ≡ upto (length values) (suc missing)) b
            (upto-snoc (length values) missing);
      spare_end = omega arith;
      missing_end = omega arith;
      tight = inl refl;
      values_at = d;
    },
  )
  take-state values taken (suc spare) missing created settled a b c d = (
    refl,
    record {
      spare = spare;
      missing = missing;
      waiting = refl;
      pending = refl;
      spare_end = omega arith;
      missing_end = b;
      tight = ground arith;
      values_at = d;
    },
  )

  -- A value that is added is the next in order, whether or not a promise waits for it.
  pub add-Holds :
      (values : List T) (taken : ℕ) (q : BlockingQueue T) (t : T)
      → Holds values taken q
      → Holds (values ++ t ∷ []) taken (add t q)
  add-Holds values taken q t h = rw (Holds-state values taken q h) (
      add-state values taken h.spare h.missing q.created q.settled t h.spare_end h.missing_end
        h.tight h.values_at)

  -- `take` hands out the promises in order, and never fails.
  pub take-Holds :
      (values : List T) (taken : ℕ) (q : BlockingQueue T)
      → Holds values taken q
      → ((take q).0 ≡ some taken) × Holds values (suc taken) (take q).1
  take-Holds values taken q h = rw (Holds-state values taken q h) (
      take-state values taken h.spare h.missing q.created q.settled h.spare_end h.missing_end
        h.tight h.values_at)

  pub empty-Holds : Holds [] 0 (empty {T = T})
  unfolding empty
  empty-Holds = record {
    spare = 0;
    missing = 0;
    waiting = refl;
    pending = refl;
    spare_end = refl;
    missing_end = refl;
    tight = inl refl;
    values_at = λ i. refl;
  }

-- A history of calls.
pub data Op {ℓ} (T : Type ℓ) : Type ℓ where
  adds : T → Op T
  takes : Op T

module _ {ℓ} {T : Type ℓ} where
  -- The promises that the `take`s of a history return, and the queue after it.
  abbrev pub run : List (Op T) → BlockingQueue T → List (Option ℕ) × BlockingQueue T
  run [] q = ([], q)
  run (adds t ∷ ops) q = run ops (add t q)
  run (takes ∷ ops) q = let (p, q') = take q in let (ps, q'') = run ops q' in (p ∷ ps, q'')

  abbrev pub added : List (Op T) → List T
  added [] = []
  added (adds t ∷ ops) = t ∷ added ops
  added (takes ∷ ops) = added ops

  abbrev pub takes_in : List (Op T) → ℕ
  takes_in [] = 0
  takes_in (adds t ∷ ops) = takes_in ops
  takes_in (takes ∷ ops) = suc (takes_in ops)

  run-Holds :
      (ops : List (Op T)) (values : List T) (taken : ℕ) (q : BlockingQueue T)
      → Holds values taken q
      → ((run ops q).0 ≡ map some (upto taken (takes_in ops)))
        × Holds (values ++ added ops) (taken + takes_in ops) (run ops q).1
  run-Holds [] values taken q h =
      (refl, rw (append-nil values) (subst (λ n. Holds values n q) (omega arith) h))
  run-Holds (adds t ∷ ops) values taken q h =
      let (same, holds) =
        run-Holds ops (values ++ t ∷ []) taken (add t q) (add-Holds values taken q t h) in
      (
        same,
        subst (λ vs. Holds vs (taken + takes_in ops) (run ops (add t q)).1)
            (append_assoc values (t ∷ []) (added ops)) holds,
      )
  run-Holds (takes ∷ ops) values taken q h =
      let (first, next) = take-Holds values taken q h in
      let (same, holds) = run-Holds ops values (suc taken) (take q).1 next in
      (
        ap₂ ◌∷◌ first same,
        subst (λ n. Holds (values ++ added ops) n (run (takes ∷ ops) q).1) (omega arith) holds,
      )

-- After any sequence of calls on a new queue the takes have returned the promises 0, 1, 2 and so on,
-- and the i-th promise is resolved with the i-th value added, or is not resolved if fewer were added.
pub delivery {ℓ} :
    {T : Type ℓ} (ops : List (Op T))
    → ((run ops empty).0 ≡ map some (upto 0 (takes_in ops)))
      × ((i : ℕ) → (run ops empty).1.settled i ≡ get_elem? (added ops) i)
delivery ops = let (same, holds) = run-Holds ops [] 0 empty empty-Holds in (same, holds.values_at)
