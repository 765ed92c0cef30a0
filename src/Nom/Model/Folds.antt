-- ===== src/Nom/Model/Folds.antt =====
-- The concrete alternative and the concrete fold: a round of the fold takes an element at least.
use socket_io_server_rust.Prelude.{
  ℕ, zero, suc, ◌<◌, ◌≡◌, ◌≢◌, refl, List, length, arith, leb, if◌then◌else◌, ◌⊎◌, inl, inr,
}
use socket_io_server_rust.Nom.{Input, ErrorKind, many0, IResult, parsed, error, failure, panicked}

IResult-cases :
    {A : Type 0} (r : IResult A)
    → ((i : Input) × (k : ErrorKind) × (r ≡ error i k))
      ⊎ ((x : Input × A) × (r ≡ parsed x))
      ⊎ ((i : Input) × (k : ErrorKind) × (r ≡ failure i k))
      ⊎ (r ≡ panicked)
IResult-cases (error i k) = inl (i, k, refl)
IResult-cases (parsed x) = inr (inl (x, refl))
IResult-cases (failure i k) = inr (inr (inl (i, k, refl)))
IResult-cases panicked = inr (inr (inr refl))

module _ {O : Type 0} where
  unfoldable pub or_else : IResult O → IResult O → IResult O
  or_else (parsed r) other = parsed r
  or_else (error i k) other = other
  or_else (failure i k) other = failure i k
  or_else panicked other = panicked

  unfoldable pub alt_model : (Input → IResult O) → (Input → IResult O) → Input → IResult O
  alt_model f g s = or_else (f s) (g s)

  pub alt_model_first :
      (f g : Input → IResult O) (s : Input)
      → ((i : Input) (k : ErrorKind) → f s ≢ error i k)
      → alt_model f g s ≡ f s
  unfolding alt_model or_else
  alt_model_first f g s h = elim (IResult-cases (f s)) [
    | inl (i, k, e) ↦ absurd (h i k e)
    | inr (inl (r, e)) ↦ rw e
    | inr (inr (inl (i, k, e))) ↦ rw e
    | inr (inr (inr e)) ↦ rw e
  ]

  -- `fuel` bounds the number of rounds; each takes an element at least.
  unfoldable pub fold_after :
      Input → List O → (Input → O → IResult (List O)) → IResult O → IResult (List O)
  fold_after s acc again (parsed (rest, o)) =
      if leb (length s) (length rest) then error s many0 else again rest o
  fold_after s acc again (error i k) = parsed (s, acc)
  fold_after s acc again (failure i k) = failure i k
  fold_after s acc again panicked = panicked

  unfoldable pub fold_loop :
      ℕ → (Input → IResult O) → List O → (List O → O → List O) → Input → IResult (List O)
  fold_loop zero f acc g s = error s many0
  fold_loop (suc fuel) f acc g s =
      fold_after s acc (λ rest o. fold_loop fuel f (g acc o) g rest) (f s)

  fold_loop_fuel :
      (k m : ℕ) (f : Input → IResult O) (acc : List O) (g : List O → O → List O) (s : Input)
      → length s < k
      → length s < m
      → fold_loop k f acc g s ≡ fold_loop m f acc g s
  unfolding fold_loop fold_after
  fold_loop_fuel zero m f acc g s hk hm = absurd (omega arith)
  fold_loop_fuel (suc k) zero f acc g s hk hm = absurd (omega arith)
  fold_loop_fuel (suc k) (suc m) f acc g s hk hm = elim (IResult-cases (f s)) [
    | inl (i, d, e) ↦ rw (e, fold_loop)
    | inr (inl ((rest, o), e)) ↦
        rw (e, fold_loop) (ground (arith, fold_loop_fuel k m f (g acc o) g rest))
    | inr (inr (inl (i, d, e))) ↦ rw (e, fold_loop)
    | inr (inr (inr e)) ↦ rw (e, fold_loop)
  ]

  unfoldable pub fold_model :
      (Input → IResult O) → List O → (List O → O → List O) → Input → IResult (List O)
  fold_model f acc g s = fold_loop (suc (length s)) f acc g s

  pub fold_model_step :
      (f : Input → IResult O) (acc : List O) (g : List O → O → List O) (s rest : Input) (o : O)
      → f s ≡ parsed (rest, o)
      → length rest < length s
      → fold_model f acc g s ≡ fold_model f (g acc o) g rest
  unfolding fold_model fold_loop fold_after
  fold_model_step f acc g s rest o e h =
      rw (e, fold_model, fold_loop)
        (ground (arith, fold_loop_fuel (length s) (suc (length rest)) f (g acc o) g rest))

  pub fold_model_stuck :
      (f : Input → IResult O) (acc : List O) (g : List O → O → List O) (s rest : Input) (o : O)
      → f s ≡ parsed (rest, o)
      → length rest ≡ length s
      → fold_model f acc g s ≡ error s many0
  unfolding fold_model fold_loop fold_after
  fold_model_stuck f acc g s rest o e h = rw (e, fold_model, fold_loop) (ground arith)
