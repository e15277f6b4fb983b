-- ===== src/Transport/Transmitter/Laws.antt =====
-- Closing in nodejs/stream/RequestTransmitter.ts.
use typedb_client_java.Prelude.{
  ℕ, List, [], ◌∷◌, true, false, not, filter, ◌==◌, ◌≡◌, ◌≢◌, refl, ◌∙◌, ap, Bool-cases, inl, inr,
  arith, All, Any,
}
use typedb_client_java.Transport.Dispatcher.{end_stream}
use typedb_client_java.Transport.Transmitter.{Transmitter, close_dispatcher, close_each, close}

-- What `delete` leaves of a set.
minus : List ℕ → List ℕ → List ℕ
minus xs [] = xs
minus xs (a ∷ rest) = minus (filter (λ b. not (b == a)) xs) rest

module _ {R : Type 0} where
  close_each-dispatchers :
      (xs : List ℕ) (t : Transmitter R) → (close_each xs t).dispatchers ≡ minus t.dispatchers xs
  unfolding close_each minus
  close_each-dispatchers [] t = refl
  close_each-dispatchers (a ∷ rest) t = close_each-dispatchers rest (close_dispatcher a t)

  close_each-is_open : (xs : List ℕ) (t : Transmitter R) → (close_each xs t).is_open ≡ t.is_open
  unfolding close_each
  close_each-is_open [] t = refl
  close_each-is_open (a ∷ rest) t = close_each-is_open rest (close_dispatcher a t)

  -- A stream that has ended stays so.
  close_each-ended :
      (xs : List ℕ) (t : Transmitter R) (a : ℕ)
      → (t.heap a).ended ≡ true
      → ((close_each xs t).heap a).ended ≡ true
  unfolding close_each end_stream
  close_each-ended [] t a h = h
  close_each-ended (b ∷ rest) t a h = close_each-ended rest (close_dispatcher b t) a (ground arith)

  close_each-reaches :
      (xs : List ℕ) (t : Transmitter R) (a : ℕ)
      → Any (λ b. b ≡ a) xs
      → ((close_each xs t).heap a).ended ≡ true
  unfolding close_each end_stream
  close_each-reaches [] t a m = elim m [ ]
  close_each-reaches (b ∷ rest) t a (inl e) =
      close_each-ended rest (close_dispatcher b t) a (ground arith)
  close_each-reaches (b ∷ rest) t a (inr m) = close_each-reaches rest (close_dispatcher b t) a m

  close_each-others :
      (xs : List ℕ) (t : Transmitter R) (a : ℕ)
      → All (λ b. b ≢ a) xs
      → (close_each xs t).heap a ≡ t.heap a
  unfolding close_each
  close_each-others [] t a h = refl
  close_each-others (b ∷ rest) t a (h, hs) =
      ground (arith, close_each-others rest (close_dispatcher b t) a hs)

minus-nil : (rest : List ℕ) → minus [] rest ≡ []
unfolding minus
minus-nil [] = refl
minus-nil (b ∷ rest) = minus-nil rest

minus-cons : (x : ℕ) (ys xs : List ℕ) → Any (λ b. b ≡ x) xs → minus (x ∷ ys) xs ≡ minus ys xs
unfolding minus
minus-cons x ys [] m = elim m [ ]
minus-cons x ys (a ∷ rest) (inl e) = ground arith
minus-cons x ys (a ∷ rest) (inr m) =
    ground (arith, minus-cons x (filter (λ b. not (b == a)) ys) rest m)

minus-contained : (ys xs : List ℕ) → All (λ y. Any (λ b. b ≡ y) xs) ys → minus ys xs ≡ []
minus-contained [] xs h = minus-nil xs
minus-contained (y ∷ ys) xs (h, hs) = minus-cons y ys xs h ∙ minus-contained ys xs hs

Any-weaken :
    (x : ℕ) (ys xs : List ℕ)
    → All (λ y. Any (λ b. b ≡ y) xs) ys
    → All (λ y. Any (λ b. b ≡ y) (x ∷ xs)) ys
Any-weaken x [] xs h = tt
Any-weaken x (y ∷ ys) xs (h, hs) = (inr h, Any-weaken x ys xs hs)

All-self : (xs : List ℕ) → All (λ y. Any (λ b. b ≡ y) xs) xs
All-self [] = tt
All-self (x ∷ xs) = (inl refl, Any-weaken x xs xs (All-self xs))

module _ {R : Type 0} where
  -- Closing an open transmitter leaves it closed and its set empty, has ended the stream of every
  -- dispatcher that was in the set, and has not touched any other.
  pub close-ended :
      (t : Transmitter R)
      → t.is_open ≡ true
      → ((close t).is_open ≡ false)
        × ((close t).dispatchers ≡ [])
        × ((a : ℕ) → Any (λ b. b ≡ a) t.dispatchers → ((close t).heap a).ended ≡ true)
        × ((a : ℕ) → All (λ b. b ≢ a) t.dispatchers → (close t).heap a ≡ t.heap a)
  unfolding close
  close-ended t h = rw h (
    close_each-is_open t.dispatchers (record t { is_open = false }),
    close_each-dispatchers t.dispatchers (record t { is_open = false })
        ∙ minus-contained t.dispatchers t.dispatchers (All-self t.dispatchers),
    close_each-reaches t.dispatchers (record t { is_open = false }),
    close_each-others t.dispatchers (record t { is_open = false }),
  )

  close_closed : (t : Transmitter R) → t.is_open ≡ false → close t ≡ t
  unfolding close
  close_closed t h = ground arith

  -- Closing a transmitter twice is closing it once.
  pub close_idempotent : (t : Transmitter R) → close (close t) ≡ close t
  close_idempotent t = elim (Bool-cases t.is_open) [
    | inl on ↦ close_closed (close t) (close-ended t on).0
    | inr off ↦ ap close (close_closed t off)
  ]
