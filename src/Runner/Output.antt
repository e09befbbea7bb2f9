-- ===== src/Runner/Output.antt =====
-- What `_launch` of vfy/runner.py keeps of the output, against all that was read.
use mathlib.Core.List.{append_assoc, append-nil}
use verify_run.Base.{
  sym, Bool-cases, inl, inr, ℕ, zero, suc, ◌+◌, ◌-◌, ◌≤◌, true, ◌||◌, some, List, [], ◌∷◌, ◌++◌,
  length, ltb, ◌≡◌, refl, ap, ◌∙◌, arith,
}
use verify_run.Authorization.{Bytes}
use verify_run.Runner.Launched.{
  max_stdout_bytes, max_stderr_bytes, take, extend, capture, Ended, launch_outcome, concat,
}

module _ {ℓ} {A : Type ℓ} where
  take-all : (n : ℕ) (xs : List A) → length xs ≤ n → take n xs ≡ xs
  unfolding take
  take-all zero [] h = refl
  take-all zero (x ∷ xs) h = absurd (omega arith)
  take-all (suc n) [] h = refl
  take-all (suc n) (x ∷ xs) h = ap (◌∷◌ x) (take-all n xs (omega arith))

  length-take : (n : ℕ) (xs : List A) → length (take n xs) ≤ n
  unfolding take
  length-take zero xs = omega arith
  length-take (suc n) [] = omega arith
  length-take (suc n) (x ∷ xs) = omega (arith, length-take n xs)

  -- What is taken of the second list is what the first leaves room for.
  take-room :
      (n : ℕ) (xs ys : List A) → length xs ≤ n → xs ++ take (n - length xs) ys ≡ take n (xs ++ ys)
  unfolding take
  take-room n [] ys h = ap (λ k. take k ys) (omega arith)
  take-room zero (x ∷ xs) ys h = absurd (omega arith)
  take-room (suc n) (x ∷ xs) ys h =
      let less : suc n - suc (length xs) ≡ n - length xs = omega arith in
      ap (◌∷◌ x) (ap (λ k. xs ++ take k ys) less ∙ take-room n xs ys (omega arith))

  take-take_append : (n : ℕ) (xs ys : List A) → take n (take n xs ++ ys) ≡ take n (xs ++ ys)
  unfolding take
  take-take_append zero xs ys = refl
  take-take_append (suc n) [] ys = refl
  take-take_append (suc n) (x ∷ xs) ys = ap (◌∷◌ x) (take-take_append n xs ys)

  take-take : (m n : ℕ) (xs : List A) → m ≤ n → take m (take n xs) ≡ take m xs
  unfolding take
  take-take zero n xs h = refl
  take-take (suc m) zero xs h = absurd (omega arith)
  take-take (suc m) (suc n) [] h = refl
  take-take (suc m) (suc n) (x ∷ xs) h = ap (◌∷◌ x) (take-take m n xs (omega arith))

  length-take_long : (n : ℕ) (xs : List A) → n ≤ length xs → length (take n xs) ≡ n
  unfolding take
  length-take_long zero xs h = refl
  length-take_long (suc n) [] h = absurd (omega arith)
  length-take_long (suc n) (x ∷ xs) h = ap suc (length-take_long n xs (omega arith))

  longer-take : (n : ℕ) (xs : List A) → ltb n (length (take (n + 1) xs)) ≡ ltb n (length xs)
  unfolding take
  longer-take n xs = elim (Bool-cases (ltb n (length xs))) [
    | inl h ↦
        let whole : length (take (n + 1) xs) ≡ n + 1 = length-take_long (n + 1) xs (ground arith) in
        let longer : ltb n (n + 1) ≡ true = ground arith in rw (whole, longer) (sym h)
    | inr h ↦ ap (λ ys. ltb n (length ys)) (take-all (n + 1) xs (ground arith))
  ]

capture_lem :
    (limit : ℕ) (buffer : Bytes) (chunks : List Bytes)
    → length buffer ≤ limit + 1
    → capture limit buffer chunks ≡ take (limit + 1) (buffer ++ concat chunks)
unfolding capture concat
capture_lem limit buffer [] h =
    sym (take-all (limit + 1) buffer h) ∙ ap (take (limit + 1)) (sym (append-nil buffer))
capture_lem limit buffer (chunk ∷ chunks) h =
    let more : extend limit buffer chunk ≡ take (limit + 1) (buffer ++ chunk) =
      take-room (limit + 1) buffer chunk h in
    ap (λ b. capture limit b chunks) more
    ∙ capture_lem limit (take (limit + 1) (buffer ++ chunk)) chunks
        (length-take (limit + 1) (buffer ++ chunk))
    ∙ take-take_append (limit + 1) (buffer ++ chunk) (concat chunks)
    ∙ ap (take (limit + 1)) (append_assoc buffer chunk (concat chunks))

-- However the output was cut into chunks, the whole of it up to the limits is kept, and nothing beyond;
-- `truncated` says whether either stream went beyond its limit.
pub launch_outcome-output :
    (e : Ended)
    → let o = launch_outcome (some e) in
      (o.stdout ≡ take max_stdout_bytes (concat e.stdout_chunks))
      × (o.stderr ≡ take max_stderr_bytes (concat e.stderr_chunks))
      × (o.truncated ≡ (
          ltb max_stdout_bytes (length (concat e.stdout_chunks))
          || ltb max_stderr_bytes (length (concat e.stderr_chunks))))
unfolding launch_outcome
launch_outcome-output e =
    let stdout = capture_lem max_stdout_bytes [] e.stdout_chunks (omega arith) in
    let stderr = capture_lem max_stderr_bytes [] e.stderr_chunks (omega arith) in
    (
      ap (take max_stdout_bytes) stdout
          ∙ take-take max_stdout_bytes (max_stdout_bytes + 1) (concat e.stdout_chunks)
              (omega arith),
      ap (take max_stderr_bytes) stderr
          ∙ take-take max_stderr_bytes (max_stderr_bytes + 1) (concat e.stderr_chunks)
              (omega arith),
      rw
          (
            stdout,
            stderr,
            longer-take max_stdout_bytes (concat e.stdout_chunks),
            longer-take max_stderr_bytes (concat e.stderr_chunks),
          )
          refl,
    )
