-- ===== src/Connection/Options/Bounds.antt =====
-- The values of the options in nodejs/api/connection/TypeDBOptions.ts.
use typedb_client_java.Prelude.{
  List, [], ◌∷◌, some, Bool, true, false, ◌≡◌, refl, sym, ◌∙◌, not, ◌↔◌, ◌⊎◌, inl, inr, arith, All,
  Bool-cases,
}
use typedb_client_java.Effect.{Result, ok, err}
use typedb_client_java.Connection.Options.{
  ℤ, below_one, Options, no_options, Flag, Number, Setting, flag, number, set_flag, set_number, set,
  assign, new_options, proto,
}

-- Each number that the message would carry is at least one.
abbrev pub IsPositive : Options → Type 0
IsPositive o = (f : Number) (n : ℤ) → (proto o).numbers f ≡ some n → below_one n ≡ false

-- Setting a number changes that field only.
set_number-numbers :
    (f g : Number) (n : ℤ) (o : Options)
    → ((proto (set_number f n o)).numbers g ≡ some n)
      ⊎ ((proto (set_number f n o)).numbers g ≡ (proto o).numbers g)
unfolding set_number proto
set_number-numbers Number.prefetch_size Number.prefetch_size n o = inl refl
set_number-numbers Number.session_idle_timeout_millis Number.session_idle_timeout_millis n o =
    inl refl
set_number-numbers Number.transaction_timeout_millis Number.transaction_timeout_millis n o =
    inl refl
set_number-numbers Number.schema_lock_acquire_timeout_millis
      Number.schema_lock_acquire_timeout_millis n o =
    inl refl
set_number-numbers _ _ n o = inr refl

set_number-IsPositive :
    (f : Number) (n : ℤ) (o : Options)
    → below_one n ≡ false
    → IsPositive o
    → IsPositive (set_number f n o)
set_number-IsPositive f n o h v g m e = elim (set_number-numbers f g n o) [
  | inl new ↦ ground (arith, new, e)
  | inr old ↦ v g m (sym old ∙ e)
]

set_flag-numbers :
    (f : Flag) (b : Bool) (o : Options) (g : Number)
    → (proto (set_flag f b o)).numbers g ≡ (proto o).numbers g
unfolding set_flag proto
set_flag-numbers Flag.infer b o Number.prefetch_size = refl
set_flag-numbers _ b o _ = refl

-- Whether a setting is one that the setter accepts.
abbrev pub accepted : Setting → Bool
accepted (flag f b) = true
accepted (number f n) = not (below_one n)

-- A setter succeeds exactly on what it accepts, and keeps the numbers positive either way.
set_at :
    (x : Setting) (o : Options)
    → IsPositive o
    → IsPositive (set x o).1 × (((set x o).0 ≡ ok tt) ↔ (accepted x ≡ true))
unfolding set
set_at (flag f b) o v = (λ g m e. v g m (sym (set_flag-numbers f b o g) ∙ e), ground arith)
set_at (number f n) o v = elim (Bool-cases (below_one n)) [
  | inl low ↦ rw low ((v, ((λ h. cc), λ h. cc)))
  | inr fine ↦ rw fine ((set_number-IsPositive f n o fine v, ((λ h. refl), λ h. refl)))
]

-- The rest of the object is assigned only where its first setting succeeded.
assign_step :
    (p : Result (Unit {0}) × Options) (x : Setting) (xs : List Setting)
    → IsPositive p.1
    → ((p.0 ≡ ok tt) ↔ (accepted x ≡ true))
    → IsPositive (assign xs p.1).1
    → (((assign xs p.1).0 ≡ ok tt) ↔ All (λ y. accepted y ≡ true) xs)
    → let q : Result (Unit {0}) × Options = elim p.0 [
      | ok a ↦ assign xs p.1
      | err e ↦ (err e, p.1)
    ] in
      IsPositive q.1 × ((q.0 ≡ ok tt) ↔ All (λ y. accepted y ≡ true) (x ∷ xs))
assign_step (ok a, o) x xs v first w rest =
    (w, ((λ h. (first.0 refl, rest.0 h)), λ h. rest.1 (h.1)))
assign_step (err e, o) x xs v first w rest = (v, ((λ h. cc), λ h. cc (first.1 (h.0))))

assign_at :
    (xs : List Setting) (o : Options)
    → IsPositive o
    → IsPositive (assign xs o).1 × (((assign xs o).0 ≡ ok tt) ↔ All (λ x. accepted x ≡ true) xs)
unfolding assign
assign_at [] o v = (v, ((λ h. tt), λ h. refl))
assign_at (x ∷ xs) o v =
    let (kept, allowed) = set_at x o v in
    let (rest_kept, rest) = assign_at xs (set x o).1 kept in
    assign_step (set x o) x xs kept allowed rest_kept rest

no_options-IsPositive : IsPositive no_options
unfolding proto no_options
no_options-IsPositive Number.prefetch_size n e = cc
no_options-IsPositive _ n e = cc

-- Whatever object the options are made of, and whether or not that fails, no number that they would
-- send is below one; and making them succeeds exactly when every number of the object is at least
-- one.
pub new_options-IsPositive :
    (obj : List Setting)
    → IsPositive (new_options obj).1
      × (((new_options obj).0 ≡ ok tt) ↔ All (λ x. accepted x ≡ true) obj)
unfolding new_options proto
new_options-IsPositive obj = assign_at obj no_options no_options-IsPositive
