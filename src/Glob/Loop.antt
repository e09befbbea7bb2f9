-- ===== src/Glob/Loop.antt =====
-- The main loop of `_glob` stops within its fuel and decides whether the text matches.
use verify_run.Base.{
  ℕ, zero, suc, ◌+◌, ◌*◌, ◌≤◌, ◌<◌, ◌≡◌, refl, sym, subst, ◌∙◌, ◌↔◌, inl, inr, Bool, true, false,
  Option, none, some, [], ◌∷◌, Text, length, ◌==◌, arith, Option-cases, Bool-cases,
}
use verify_run.Glob.{single, only_stars, Saved, retry, glob_loop, glob_run, answer, glob}
use verify_run.Glob.Matches.{
  Matches, leave, take, element, single-length, single-star, element_inv, no_element, star_inv,
  star_at_end, drop_element, only_stars_iff,
}

-- The run ended with an answer, and the answer is right about `G`.
abbrev pub Settles : Type 0 → Option Bool → Type 0
Settles G none = ⊥
Settles G (some true) = G
Settles G (some false) = ¬ G

Settles-some : {G : Type 0} (b : Bool) → (b ≡ true) ↔ G → Settles G (some b)
Settles-some true e = e.0 refl
Settles-some false e = λ g. cc (e.1 g)

reheaded : {m n : ℕ} {p s : Text} → m ≡ b'*' → n ≡ b'*' → Matches (m ∷ p) s → Matches (n ∷ p) s
reheaded {m} {n} {p} {s} e f = subst (λ h. Matches (h ∷ p) s) (e ∙ sym f)

two_stars : {m n : ℕ} {p s : Text} → m ≡ b'*' → n ≡ b'*' → Matches (m ∷ n ∷ p) s → Matches (n ∷ p) s
two_stars e f (leave _ d) = d
two_stars e f (take _ d) = take f (two_stars e f d)
two_stars e f (element h d) = absurd (single-star _ _ _ _ e h)

is_star : {x : ℕ} → (x == b'*') ≡ true → x ≡ b'*'
is_star h = ground arith

absurd_star : {x : ℕ} → x ≡ b'*' → (x == b'*') ≡ false → ⊥
absurd_star e h = ground arith

-- `G` is the question asked at the start, and every pattern in play is shorter than `k`.
module _ (G : Type 0) (k : ℕ) where
  -- What the saved star means. `m` bounds the text that is left to retry.
  abbrev IsSaved : ℕ → Text → Text → Saved → Type 0
  IsSaved m p s none = G → Matches p s
  IsSaved m p s (some (star, resume)) =
      (G ↔ Matches (b'*' ∷ star) resume)
      × (Matches star resume → Matches p s)
      × (length s ≤ length resume)
      × (length resume ≤ m)
      × (length star < k)

  record Inv (fuel m : ℕ) (p s : Text) (saved : Saved) : Type 0 where
    sound_now : Matches p s → G
    still_open : G → Matches (b'*' ∷ p) s
    saved_right : IsSaved m p s saved
    text_left : length s ≤ m
    pattern_left : length p < k
    enough : m * k + length p < fuel

  Inv-restart :
      {fuel m : ℕ} {p s : Text}
      → G ↔ Matches (b'*' ∷ p) s
      → length s ≤ m
      → length p < k
      → m * k + length p < fuel
      → Inv fuel m p s (some (p, s))
  Inv-restart e hs hp hf = record {
    sound_now = λ d. e.1 (leave refl d);
    still_open = e.0;
    saved_right = (e, λ d. d, omega arith, hs, hp);
    text_left = hs;
    pattern_left = hp;
    enough = hf;
  }

  IsSaved-element :
      (m c : ℕ) (p q s : Text) (saved : Saved)
      → single p c ≡ some q
      → IsSaved m p (c ∷ s) saved
      → IsSaved m q s saved
  IsSaved-element m c p q s none e h = λ g. element_inv q c e (h g)
  IsSaved-element m c p q s (some (star, resume)) e (goal, down, shorter, hs, hp) =
      (goal, λ d. element_inv q c e (down d), omega arith, hs, hp)

  Inv-element :
      {fuel m c : ℕ} {p s : Text} {saved : Saved} (q : Text)
      → single p c ≡ some q
      → Inv (suc fuel) m p (c ∷ s) saved
      → Inv fuel m q s saved
  Inv-element {m} {c} {p} {s} {saved} q e i = record {
    sound_now = λ d. i.sound_now (element e d);
    still_open = λ g. drop_element refl c c s e (i.still_open g);
    saved_right = IsSaved-element m c p q s saved e i.saved_right;
    text_left = omega arith;
    pattern_left = omega (arith, single-length p q c e);
    enough = omega (arith, single-length p q c e);
  }

  -- After a mismatch the saved star has to take a code point.
  retry-Settles :
      {fuel c : ℕ} {p s : Text} (m : ℕ) (saved : Saved) (again : Text → Text → Saved → Option Bool)
      → ((m' : ℕ) (p' s' : Text) (b : Saved) → Inv fuel m' p' s' b → Settles G (again p' s' b))
      → Inv (suc fuel) m p (c ∷ s) saved
      → ¬ Matches p (c ∷ s)
      → Settles G (retry saved again)
  unfolding retry
  retry-Settles m none again ih i mismatch = λ g. mismatch (i.saved_right g)
  retry-Settles m (some (star, [])) again ih i mismatch = absurd (omega arith)
  retry-Settles zero (some (star, r ∷ resume)) again ih i mismatch = absurd (omega arith)
  retry-Settles (suc m) (some (star, r ∷ resume)) again ih i mismatch =
      let (goal, down, _, _, _) = i.saved_right in
      ih m star resume (some (star, resume)) (
        Inv-restart
          (
            λ g. elim (star_inv refl (goal.0 g)) [ inl d ↦ absurd (mismatch (down d)) | inr d ↦ d ],
            λ d. goal.1 (take refl d),
          )
          (omega arith) (omega arith) (omega arith))

  loop-Settles :
      (fuel m : ℕ) (p s : Text) (saved : Saved)
      → Inv fuel m p s saved
      → Settles G (glob_loop fuel p s saved)
  unfolding glob_loop
  loop-Settles zero m p s saved i = omega arith
  loop-Settles (suc fuel) m p [] saved i =
      let (sound, complete) = only_stars_iff p in
      Settles-some (only_stars p)
        (λ h. i.sound_now (sound h), λ g. complete (star_at_end refl (i.still_open g)))
  loop-Settles (suc fuel) m [] (c ∷ s) saved i = elim (Option-cases (single [] c)) [
    | inl e ↦
        rw (e, glob_loop)
          (retry-Settles m saved (glob_loop fuel) (loop-Settles fuel) i λ d. no_element d e)
    | inr (q, e) ↦ rw (e, glob_loop) (loop-Settles fuel m q s saved (Inv-element q e i))
  ]
  loop-Settles (suc fuel) m (x ∷ p) (c ∷ s) saved i = elim (Option-cases (single (x ∷ p) c)) [
    | inr (q, e) ↦ rw (e, glob_loop) (loop-Settles fuel m q s saved (Inv-element q e i))
    | inl e ↦ elim (Bool-cases (x == b'*')) [
      | inr other ↦
          rw (e, other, glob_loop)
            (retry-Settles m saved (glob_loop fuel) (loop-Settles fuel) i
              λ d. absurd_star (no_element d e) other)
      | inl star ↦
          rw (e, star, glob_loop)
            (loop-Settles fuel m p (c ∷ s) (some (p, c ∷ s)) (
              Inv-restart
                (
                  λ g.
                      reheaded (is_star star) refl (two_stars refl (is_star star) (i.still_open g)),
                  λ d. i.sound_now (reheaded refl (is_star star) d),
                )
                i.text_left (omega arith) (omega arith)))
    ]
  ]

-- `_glob` stops within its fuel, and its answer is right: `true` is a match and `false` is none.
glob_run-Settles : (pattern text : Text) → Settles (Matches pattern text) (glob_run pattern text)
unfolding glob_run
glob_run-Settles pattern text =
    loop-Settles (Matches pattern text) (length pattern + 1) _ (length text) pattern text none
      (record {
        sound_now = λ d. d;
        still_open = leave refl;
        saved_right = λ d. d;
        text_left = omega arith;
        pattern_left = omega arith;
        enough = omega arith;
      })

Settles-answer :
    {G : Type 0} (r : Option Bool) → Settles G r → (r ≡ some (answer r)) × ((answer r ≡ true) ↔ G)
Settles-answer (some true) g = (refl, (λ _. g, λ _. refl))
Settles-answer (some false) g = (refl, (λ h. cc, λ h. absurd (g h)))
Settles-answer none g = absurd g

-- For every pattern and text, `_glob` returns, within (|text| + 1) * (|pattern| + 1) rounds, and it
-- returns True exactly on the texts that match the pattern, whatever the order of the search.
pub glob-Matches :
    (pattern text : Text)
    → (glob_run pattern text ≡ some (glob pattern text))
      × ((glob pattern text ≡ true) ↔ Matches pattern text)
unfolding glob
glob-Matches pattern text = Settles-answer (glob_run pattern text) (glob_run-Settles pattern text)
