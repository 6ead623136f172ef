-- ===== src/Runs/Leases.antt =====
-- What `claim_run` of store.rs leases, and what it leaves to others.
use mathlib.Core.Bool.{true≢false}
use mathlib.Core.Option.{some-injective, some-ne-none}
use qdrust.Base.{
  ℕ, ◌+◌, ◌<◌, ◌==◌, ==→eq, Text, true, false, ◌&&◌, keep_if, Option, none, some, List, [], All,
  ◌≡◌, ◌≢◌, refl, sym, ap, subst, ◌∙◌, arith, if◌then◌else◌, ◌⊎◌, inl, inr, Bool-cases,
  Option-cases,
}
use qdrust.Base.Int.{ℤ, at_least}
use qdrust.Runs.{
  Run, Queue, find, update_where, due_by, is_free, is_pending, is_held, is_claimable, comes_before,
  first_row, lease, claim_row, claim_run,
}
use qdrust.Runs.Invariant.{Distinct, IsSound, claims, step}
use qdrust.Runs.Invariant.Step.{Change, step-Change}
use qdrust.Runs.Safety.{Change-IsSound}
use qdrust.Runs.Claims.{
  first_row-least, first_row-holds, first_row-none, keep_if-holds, All-keep_if, find-Distinct,
  find-updated, find-others, changed-ne-zero,
}

module _ (priority : ℕ → ℤ) (worker : Text) (seconds : ℤ) (now : ℕ) (q : Queue) where
  unfoldable pub candidates : List Run
  candidates = keep_if (is_claimable now) q.runs

  unfoldable pub leased_row : Run → Run
  leased_row = lease worker (now + at_least 1 seconds)

  unfoldable pub Nothing : Option Run × Queue → Type 0
  unfolding candidates
  Nothing out = (candidates ≡ []) × (out ≡ (none, q))

  pub record Takes (out : Option Run × Queue) : Type 0 where
    pub row : Run
    pub stored : find row.id q.runs ≡ some row
    pub claimable : is_claimable now row ≡ true
    pub least : All (λ c. comes_before priority c row ≡ false) candidates
    pub result : out.0 ≡ some (leased_row row)
    pub table :
        (id : ℕ)
        → find id out.1.runs ≡ (if row.id == id then some (leased_row row) else find id q.runs)

  pub claimable-free : (b : Run) → is_claimable now b ≡ true → is_free now b ≡ true
  unfolding is_claimable
  claimable-free b h = ground arith

  lease_keeps : (r : Run) → (leased_row r).id ≡ r.id
  unfolding leased_row lease
  lease_keeps r = refl

  row_table :
      (b : Run)
      → find b.id q.runs ≡ some b
      → (b.id == b.id && is_free now b) ≡ true
      → (id : ℕ)
      → find id (update_where (λ r. r.id == b.id && is_free now r) leased_row q.runs)
        ≡ (if b.id == id then some (leased_row b) else find id q.runs)
  row_table b f t id =
      let test = λ (r : Run). r.id == b.id && is_free now r in
      elim (Bool-cases (b.id == id)) [
        | inl e ↦ rw e (
            subst (λ n. find n (update_where test leased_row q.runs) ≡ some (leased_row b))
              (==→eq b.id id e) (find-updated test leased_row lease_keeps b.id q.runs f t))
        | inr e ↦ rw e (find-others test leased_row lease_keeps id q.runs (λ r h k. ground arith))
      ]

  take_row :
      (b : Run)
      → find b.id q.runs ≡ some b
      → is_claimable now b ≡ true
      → All (λ c. comes_before priority c b ≡ false) candidates
      → Takes (claim_row worker (now + at_least 1 seconds) now (some b) q)
  unfolding claim_row leased_row
  take_row b f c l =
      let test = λ (r : Run). r.id == b.id && is_free now r in
      let t : test b ≡ true = ground (arith, claimable-free b c) in
      rw (changed-ne-zero test b.id q.runs f t) (record {
        row = b;
        stored = f;
        claimable = c;
        least = l;
        result = find-updated test leased_row lease_keeps b.id q.runs f t;
        table = row_table b f t;
      })

  -- A claim on a table of distinct ids either finds no claimable row, and then gives nothing and
  -- leaves the table, or takes a stored claimable row that no claimable row precedes, gives it
  -- leased to the worker, and changes the table in that row alone.
  pub claim_run-cases :
      Distinct q.runs
      → Nothing (claim_run priority worker seconds now q)
        ⊎ Takes (claim_run priority worker seconds now q)
  unfolding Nothing claim_run claim_row candidates
  claim_run-cases d = elim (Option-cases (first_row priority (keep_if (is_claimable now) q.runs))) [
    | inl e ↦ inl (first_row-none priority _ e, rw e refl)
    | inr (b, e) ↦ inr (
        subst (λ o. Takes (claim_row worker (now + at_least 1 seconds) now o q)) (sym e)
          (take_row b
            (first_row-holds priority (λ r. find r.id q.runs ≡ some r) _ e
              (All-keep_if (is_claimable now) _ q.runs (find-Distinct q.runs d)))
            (first_row-holds priority (λ r. is_claimable now r ≡ true) _ e
              (keep_if-holds (is_claimable now) q.runs))
            (first_row-least priority _ e)))
  ]

claim-Change :
    (priority : ℕ → ℤ) (worker : Text) (seconds : ℤ) (now : ℕ) (q : Queue)
    → Change q (claim_run priority worker seconds now q).1
unfolding step
claim-Change priority worker seconds now q =
    step-Change priority (λ t. t) now (claims worker seconds) q

leased_not-claimable :
    (r : Run) (worker : Text) (expires now : ℕ)
    → now < expires
    → is_claimable now (lease worker expires r) ≡ false
unfolding is_claimable is_free lease due_by is_pending is_held
leased_not-claimable r worker expires now h = ground arith

pub taken :
    (priority : ℕ → ℤ) (worker : Text) (seconds : ℤ) (now : ℕ) (q p : Queue) {r : Run}
    → Distinct q.runs
    → claim_run priority worker seconds now q ≡ (some r, p)
    → Takes priority worker seconds now q (some r, p)
unfolding Nothing
taken priority worker seconds now q p {r} d e =
    elim (claim_run-cases priority worker seconds now q d) [
      | inl n ↦ absurd (some-ne-none r (ap (λ o. o.0) (sym e ∙ n.1)))
      | inr t ↦ subst (Takes priority worker seconds now q) e t
    ]

given_id :
    (priority : ℕ → ℤ) (worker : Text) (seconds : ℤ) (now : ℕ) (q p : Queue) {r : Run}
    → (t : Takes priority worker seconds now q (some r, p)) → r.id ≡ t.row.id
unfolding leased_row lease
given_id priority worker seconds now q p {r} t = ap Run.id (some-injective r _ t.result)

-- The row that a claim gave stands in the table with its new lease, and no claim takes it.
given_not-claimable :
    (priority : ℕ → ℤ) (worker : Text) (seconds : ℤ) (now now' : ℕ) (q p : Queue) {r b : Run}
    → Takes priority worker seconds now q (some r, p)
    → now' < now + at_least 1 seconds
    → find b.id p.runs ≡ some b
    → b.id ≡ r.id
    → is_claimable now' b ≡ false
unfolding leased_row
given_not-claimable priority worker seconds now now' q p {r} {b} t h f same =
    let i : b.id ≡ t.row.id = same ∙ given_id priority worker seconds now q p t in
    let k : (t.row.id == b.id) ≡ true = ground arith in
    let e : some b ≡ some (leased_row priority worker seconds now q t.row) =
      sym f ∙ t.table b.id ∙ rw k refl in
    rw (some-injective b _ e) (leased_not-claimable t.row worker (now + at_least 1 seconds) now' h)

-- On a sound table, a run that one worker has claimed is not given to the next claim if that is
-- made before the lease ends: the second claim, if it gives a run, gives one with another id.
pub claim_run-exclusive :
    (priority : ℕ → ℤ) (worker other : Text) (seconds seconds' : ℤ) (now now' : ℕ) (q p p' : Queue)
    {r r' : Run}
    → IsSound q
    → claim_run priority worker seconds now q ≡ (some r, p)
    → now' < now + at_least 1 seconds
    → claim_run priority other seconds' now' p ≡ (some r', p')
    → r'.id ≢ r.id
claim_run-exclusive priority worker other seconds seconds' now now' q p p' {r} {r'} v e h e' same =
    let a = taken priority worker seconds now q p v.distinct e in
    let w =
      subst IsSound (ap (λ o. o.1) e)
        (Change-IsSound q _ (claim-Change priority worker seconds now q) v) in
    let b = taken priority other seconds' now' p p' w.distinct e' in
    let i = sym (given_id priority other seconds' now' p p' b) ∙ same in
    true≢false
      (sym b.claimable ∙ given_not-claimable priority worker seconds now now' q p a h b.stored i)
