-- ===== src/Standard/Retries.antt =====
-- The retries of the HTTP extractor: the first attempt that succeeds is the result.
use jayvee.Base.{
  ℕ, zero, suc, ◌+◌, ◌≤◌, ◌<◌, ◌≡◌, refl, sym, ap, ◌∙◌, subst, Result, ok, err, throws, arith, ◌↔◌,
  Bool-cases, inl, inr, not_same, ◌==◌, ==_iff, ◌⊎◌,
}
use jayvee.Standard.{fetch_from, execute_http_extractor}

outcome_cases :
    {F E : Type 0} (r : Result E F)
    → ((file : F) × (r ≡ ok file)) ⊎ (((failure : E) × (r ≡ err failure)) ⊎ (r ≡ throws))
outcome_cases (ok file) = inl (file, refl)
outcome_cases (err failure) = inr (inl (failure, refl))
outcome_cases throws = inr (inr refl)

module _ {F E : Type 0} (fetch : ℕ → Result E F) where
  -- Attempt number `attempt` is the first one from `first` on that succeeds, and it gives `file`.
  pub record IsFirstSuccess (first last : ℕ) (file : F) : Type 0 where
    pub attempt : ℕ
    pub begun : first ≤ attempt
    pub within : attempt ≤ last
    pub failed : (i : ℕ) → first ≤ i → i < attempt → (failure : E) × (fetch i ≡ err failure)
    pub fetched : fetch attempt ≡ ok file

  at_once :
      (first last : ℕ) (file : F)
      → first ≤ last
      → fetch first ≡ ok file
      → IsFirstSuccess first last file
  at_once first last file l e = record {
    attempt = first;
    begun = omega arith;
    within = l;
    failed = λ i a b. let absurd : ⊥ = omega (arith, a, b) in elim absurd [ ];
    fetched = e;
  }

  later_on :
      (first last : ℕ) (file : F) (failure : E)
      → fetch first ≡ err failure
      → IsFirstSuccess (suc first) last file
      → IsFirstSuccess first last file
  later_on first last file failure e s = record {
    attempt = s.attempt;
    begun = omega (arith, s.begun);
    within = s.within;
    failed = λ i a b. elim (Bool-cases (i == first)) [
      | inl same ↦ (failure, ap fetch ((==_iff i first).0 same) ∙ e)
      | inr other ↦ s.failed i (omega (arith, a, not_same i first other)) b
    ];
    fetched = s.fetched;
  }

  fetch_from-found :
      (retries first : ℕ) (file : F)
      → fetch_from fetch retries first ≡ ok file
      → IsFirstSuccess first (first + retries) file
  unfolding fetch_from
  fetch_from-found zero first file e = at_once first (first + 0) file (omega arith) e
  fetch_from-found (suc retries) first file e = elim (outcome_cases (fetch first)) [
    | inl (found, now) ↦
        at_once first (first + suc retries) file (omega arith) (now ∙ rw (fetch_from, now) at e)
    | inr (inl (failure, now)) ↦ later_on first _ file failure now (
        subst (λ k. IsFirstSuccess (suc first) k file) (omega arith)
          (fetch_from-found retries (suc first) file (rw (fetch_from, now) at e)))
    | inr (inr now) ↦ let absurd : throws ≡ ok file = rw (fetch_from, now) at e in cc
  ]

  fetch_from-eq :
      (retries first : ℕ) (file : F)
      → IsFirstSuccess first (first + retries) file
      → fetch_from fetch retries first ≡ ok file
  unfolding fetch_from
  fetch_from-eq zero first file s =
      let same : s.attempt ≡ first = omega (arith, s.begun, s.within) in
      ap fetch (sym same) ∙ s.fetched
  fetch_from-eq (suc retries) first file s = elim (Bool-cases (s.attempt == first)) [
    | inl same ↦
        let now = ap fetch (sym ((==_iff s.attempt first).0 same)) ∙ s.fetched in
        rw (fetch_from, now) refl
    | inr other ↦
        let more : first < s.attempt = omega (arith, s.begun, not_same s.attempt first other) in
        let (failure, now) = s.failed first (omega arith) more in
        rw (fetch_from, now)
          (fetch_from-eq retries (suc first) file (record {
            attempt = s.attempt;
            begun = omega (arith, more);
            within = omega (arith, s.within);
            failed = λ i a b. s.failed i (omega (arith, a)) b;
            fetched = s.fetched;
          }))
  ]

  -- The HTTP extractor gives a file if and only if one of the attempt and its retries gives that file
  -- and all attempts before it fail with an error.
  pub execute_http_extractor_iff :
      (retries : ℕ) (file : F)
      → execute_http_extractor fetch retries ≡ ok file ↔ IsFirstSuccess 0 retries file
  unfolding execute_http_extractor
  execute_http_extractor_iff retries file =
      subst (λ last. fetch_from fetch retries 0 ≡ ok file ↔ IsFirstSuccess 0 last file)
        (omega arith) (fetch_from-found retries 0 file, fetch_from-eq retries 0 file)
