-- ===== src/History/Pruned/Rows.antt =====
-- Runs without the first old ones, and the ids of those.
use qdrust.Base.{
  ℕ, zero, suc, ◌+◌, ◌<◌, ◌==◌, true, false, not, keep_if, List, [], ◌∷◌, map, length, take, All,
  if◌then◌else◌, ◌≡◌, ◌≢◌, refl, sym, ap, ◌∙◌, arith, inl, inr, Bool-cases, ==→eq,
}
use qdrust.Runs.{Run}
use qdrust.Runs.Invariant.{Distinct}
use qdrust.History.{is_old, has, old_ids}

same_id : (n : ℕ) → n == n ≡ true
same_id n = ground arith

other_id : (m n : ℕ) → m ≢ n → m == n ≡ false
other_id m n h = elim (Bool-cases (m == n)) [ inl e ↦ absurd (h (==→eq m n e)) | inr e ↦ e ]

-- The rows whose ids are not among these.
unfoldable pub without : List ℕ → List Run → List Run
without ids rs = keep_if (λ (r : Run). not (has ids r.id)) rs

without-nil : (ids : List ℕ) → without ids [] ≡ []
unfolding without
without-nil ids = refl

pub keep_all : (rs : List Run) → without [] rs ≡ rs
unfolding without has
keep_all [] = refl
keep_all (r ∷ rs) = ap (λ xs. r ∷ xs) (keep_all rs)

-- An id that no row has may as well be left out of the ids.
without-fresh :
    (i : ℕ) (ids : List ℕ) (rs : List Run)
    → All (λ q. q.id ≢ i) rs
    → without (i ∷ ids) rs ≡ without ids rs
unfolding without has
without-fresh i ids [] h = refl
without-fresh i ids (r ∷ rs) (p, h) =
    rw (other_id i r.id (λ e. p (sym e)), without-fresh i ids rs h) refl

without-first :
    (r : Run) (ids : List ℕ) (rs : List Run)
    → All (λ q. q.id ≢ r.id) rs
    → without (r.id ∷ ids) (r ∷ rs) ≡ without ids rs
unfolding without has
without-first r ids rs h = rw (same_id r.id) (without-fresh r.id ids rs h)

without-kept :
    (r : Run) (ids : List ℕ) (rs : List Run)
    → has ids r.id ≡ false
    → without ids (r ∷ rs) ≡ r ∷ without ids rs
unfolding without
without-kept r ids rs h = rw h refl

module _ (before : ℕ) where
  unfoldable pub young : List Run → List Run
  young rs = keep_if (λ r. not (is_old before r)) rs

  unfoldable pub olds : List Run → List Run
  olds rs = keep_if (is_old before) rs

  -- The rows without the first n that are old.
  pub drop_old : ℕ → List Run → List Run
  drop_old zero rs = rs
  drop_old (suc n) [] = []
  drop_old (suc n) (r ∷ rs) =
      let gone = drop_old n rs in
      let kept = drop_old (suc n) rs in if is_old before r then gone else r ∷ kept

  pub young-drop_old : (n : ℕ) (rs : List Run) → young (drop_old n rs) ≡ young rs
  unfolding drop_old young
  young-drop_old zero rs = refl
  young-drop_old (suc n) [] = refl
  young-drop_old (suc n) (r ∷ rs) = elim (Bool-cases (is_old before r)) [
    | inl e ↦ rw e (young-drop_old n rs)
    | inr e ↦ rw (e, e) (ap (λ xs. r ∷ xs) (young-drop_old (suc n) rs))
  ]

  pub length-olds-drop_old :
      (n : ℕ) (rs : List Run)
      → length (take n (olds rs)) + length (olds (drop_old n rs)) ≡ length (olds rs)
  unfolding drop_old olds
  length-olds-drop_old zero rs = omega arith
  length-olds-drop_old (suc n) [] = omega arith
  length-olds-drop_old (suc n) (r ∷ rs) = elim (Bool-cases (is_old before r)) [
    | inl e ↦ rw e (omega (arith, length-olds-drop_old n rs))
    | inr e ↦ rw (e, e) (length-olds-drop_old (suc n) rs)
  ]

  pub length-drop_old :
      (n : ℕ) (rs : List Run) → length (take n (olds rs)) + length (drop_old n rs) ≡ length rs
  unfolding drop_old olds
  length-drop_old zero rs = omega arith
  length-drop_old (suc n) [] = omega arith
  length-drop_old (suc n) (r ∷ rs) = elim (Bool-cases (is_old before r)) [
    | inl e ↦ rw e (omega (arith, length-drop_old n rs))
    | inr e ↦ rw e (omega (arith, length-drop_old (suc n) rs))
  ]

  -- Where fewer than n are old, none is left.
  pub drop_old-all :
      (n : ℕ) (rs : List Run) → length (take n (olds rs)) < n → drop_old n rs ≡ young rs
  unfolding drop_old olds young
  drop_old-all zero rs h = absurd (omega (arith, h))
  drop_old-all (suc n) [] h = refl
  drop_old-all (suc n) (r ∷ rs) h = elim (Bool-cases (is_old before r)) [
    | inl e ↦ (let low = rw e at h in rw e (drop_old-all n rs (omega (arith, low))))
    | inr e ↦ rw e (ap (λ xs. r ∷ xs) (drop_old-all (suc n) rs (rw e at h)))
  ]

  All-drop_old : (P : Run → Type 0) (n : ℕ) (rs : List Run) → All P rs → All P (drop_old n rs)
  unfolding drop_old
  All-drop_old P zero rs h = h
  All-drop_old P (suc n) [] h = tt
  All-drop_old P (suc n) (r ∷ rs) (p, h) = elim (Bool-cases (is_old before r)) [
    | inl e ↦ rw e (All-drop_old P n rs h)
    | inr e ↦ rw e (p, All-drop_old P (suc n) rs h)
  ]

  pub Distinct-drop_old : (n : ℕ) (rs : List Run) → Distinct rs → Distinct (drop_old n rs)
  unfolding drop_old
  Distinct-drop_old zero rs h = h
  Distinct-drop_old (suc n) [] h = tt
  Distinct-drop_old (suc n) (r ∷ rs) (p, h) = elim (Bool-cases (is_old before r)) [
    | inl e ↦ rw e (Distinct-drop_old n rs h)
    | inr e ↦ rw e (All-drop_old (λ q. q.id ≢ r.id) (suc n) rs p, Distinct-drop_old (suc n) rs h)
  ]

  -- An id that no row has is none of the old rows'.
  old_ids-fresh :
      (n i : ℕ) (rs : List Run) → All (λ q. q.id ≢ i) rs → has (old_ids n before rs) i ≡ false
  unfolding old_ids has
  old_ids-fresh zero i rs h = refl
  old_ids-fresh (suc n) i [] h = refl
  old_ids-fresh (suc n) i (r ∷ rs) (p, h) = elim (Bool-cases (is_old before r)) [
    | inl e ↦ rw (e, other_id r.id i p) (old_ids-fresh n i rs h)
    | inr e ↦ rw e (old_ids-fresh (suc n) i rs h)
  ]

  no_ids : (rs : List Run) → old_ids 0 before rs ≡ []
  unfolding old_ids
  no_ids rs = refl

  first_old :
      (n : ℕ) (r : Run) (rs : List Run)
      → is_old before r ≡ true
      → old_ids (suc n) before (r ∷ rs) ≡ r.id ∷ old_ids n before rs
  unfolding old_ids
  first_old n r rs e = rw e refl

  first_young :
      (n : ℕ) (r : Run) (rs : List Run)
      → is_old before r ≡ false
      → old_ids n before (r ∷ rs) ≡ old_ids n before rs
  unfolding old_ids
  first_young n r rs e = rw e refl

  drop_first :
      (n : ℕ) (r : Run) (rs : List Run)
      → is_old before r ≡ true
      → drop_old (suc n) (r ∷ rs) ≡ drop_old n rs
  unfolding drop_old
  drop_first n r rs e = rw e refl

  keep_first :
      (n : ℕ) (r : Run) (rs : List Run)
      → is_old before r ≡ false
      → drop_old (suc n) (r ∷ rs) ≡ r ∷ drop_old (suc n) rs
  unfolding drop_old
  keep_first n r rs e = rw e refl

  pub deleted-drop_old :
      (n : ℕ) (rs : List Run) → Distinct rs → without (old_ids n before rs) rs ≡ drop_old n rs
  unfolding drop_old
  deleted-drop_old zero rs h = ap (λ ids. without ids rs) (no_ids rs) ∙ keep_all rs
  deleted-drop_old (suc n) [] h = without-nil (old_ids (suc n) before [])
  deleted-drop_old (suc n) (r ∷ rs) (p, h) = elim (Bool-cases (is_old before r)) [
    | inl e ↦
        ap (λ ids. without ids (r ∷ rs)) (first_old n r rs e)
        ∙ without-first r (old_ids n before rs) rs p
        ∙ deleted-drop_old n rs h
        ∙ sym (drop_first n r rs e)
    | inr e ↦
        ap (λ ids. without ids (r ∷ rs)) (first_young (suc n) r rs e)
        ∙ without-kept r (old_ids (suc n) before rs) rs (old_ids-fresh (suc n) r.id rs p)
        ∙ ap (λ xs. r ∷ xs) (deleted-drop_old (suc n) rs h)
        ∙ sym (keep_first n r rs e)
  ]

  pub length-old_ids :
      (n : ℕ) (rs : List Run) → length (old_ids n before rs) ≡ length (take n (olds rs))
  unfolding old_ids olds
  length-old_ids n rs = length-map (take n (keep_if (is_old before) rs))
    where
      length-map : (rs : List Run) → length (map (λ (r : Run). r.id) rs) ≡ length rs
      length-map [] = refl
      length-map (r ∷ rs) = ap suc (length-map rs)
