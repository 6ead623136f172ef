-- ===== src/Template/Meaning.antt =====
-- What `TemplateDefinition::validate` of template.rs accepts.
use Prim.Native.Nat.{max}
use qdrust.Base.{
  ℕ, suc, ◌+◌, ◌≤◌, ◌<◌, ◌==◌, ==→eq, ltb→lt, lt→ltb, leb, ltb, leb→le, le→leb, is_blank, Bool,
  true, false, not, ◌&&◌, Result, ok, err, ensure, >>=-elim, ensure-eq-ok, ok-injective, ◌≡◌, ◌↔◌,
  refl, sym, ap, subst, arith,
}
use qdrust.Template.{
  Step, Steps, no_steps, step, request_step, extract_step, if_step, for_each, delay,
  TemplateDefinition, TemplateError, check_step, step_count, open_steps, validate_each,
  validate_nested, validate_steps, validate,
}

unfoldable pub passes : {A : Type 0} → Result TemplateError A → Bool
passes (ok a) = true
passes (err e) = false

unfoldable mutual
  unfolding step_count

  -- Every step, at every level, passes the tests of its own fields.
  pub well_formed : Steps → Bool
  well_formed no_steps = true
  well_formed (step s rest) = passes (check_step s) && well_formed_inside s && well_formed rest

  pub well_formed_inside : Step → Bool
  well_formed_inside (if_step c t o) = well_formed t && well_formed o
  well_formed_inside (for_each i xs t) = well_formed t
  well_formed_inside (request_step r) = true
  well_formed_inside (extract_step x) = true
  well_formed_inside (delay n) = true

  -- The levels of blocks below these steps.
  pub height : Steps → ℕ
  height no_steps = 0
  height (step s rest) = max (height_inside s) (height rest)

  pub height_inside : Step → ℕ
  height_inside (if_step c t o) = suc (max (height t) (height o))
  height_inside (for_each i xs t) = suc (height t)
  height_inside (request_step r) = 0
  height_inside (extract_step x) = 0
  height_inside (delay n) = 0

  -- The steps in the blocks below these steps.
  pub nested_count : Steps → ℕ
  nested_count no_steps = 0
  nested_count (step s rest) = count_inside s + nested_count rest

  pub count_inside : Step → ℕ
  count_inside (if_step c t o) = step_count t + nested_count t + (step_count o + nested_count o)
  count_inside (for_each i xs t) = step_count t + nested_count t
  count_inside (request_step r) = 0
  count_inside (extract_step x) = 0
  count_inside (delay n) = 0

open_steps_sound :
    (d : ℕ) (s : Steps) (c : ℕ) {n : ℕ}
    → open_steps d s c ≡ ok n
    → (d ≤ 16) × (n ≡ c + step_count s) × (n ≤ 1000)
unfolding open_steps
open_steps_sound d s c {n} h = >>=-elim (ensure (leb d 16) _) _ h (λ _ e h.
    >>=-elim (ensure (leb (c + step_count s) 1000) _) _ h (λ _ f h.
      let i = sym (ok-injective {a = c + step_count s} h) in
      (
        leb→le d 16 (ensure-eq-ok _ _ e),
        i,
        subst (λ m. m ≤ 1000) (sym i) (leb→le _ 1000 (ensure-eq-ok _ _ f)),
      )))

open_steps_complete :
    (d : ℕ) (s : Steps) (c : ℕ)
    → d ≤ 16
    → c + step_count s ≤ 1000
    → open_steps d s c ≡ ok (c + step_count s)
unfolding open_steps
open_steps_complete d s c h k = rw (le→leb d 16 h, le→leb (c + step_count s) 1000 k) refl

passes-ok : {A : Type 0} (m : Result TemplateError A) {a : A} → m ≡ ok a → passes m ≡ true
unfolding passes
passes-ok m h = rw h refl

ok-passes : (m : Result TemplateError (Unit {0})) → passes m ≡ true → m ≡ ok tt
unfolding passes
ok-passes (ok a) h = refl
ok-passes (err e) h = cc

abbrev Accepted : ℕ → ℕ → ℕ → ℕ → Bool → ℕ → Type 0
Accepted d c high more well n = (well ≡ true) × (d + high ≤ 16) × (n ≡ c + more) × (n ≤ 1000)

leaf_sound :
    (d c : ℕ) {n : ℕ}
    → d ≤ 16
    → c ≤ 1000
    → ◌≡◌ {A = Result TemplateError ℕ} (ok c) (ok n)
    → Accepted d c 0 0 true n
leaf_sound d c {n} l m h =
    let i = sym (ok-injective {a = c} h) in (refl, omega arith, omega (arith, i), omega (arith, i))

mutual
  unfolding validate_each well_formed

  each_sound :
      (s : Steps) (d c : ℕ) {n : ℕ}
      → d ≤ 16
      → c ≤ 1000
      → validate_each d s c ≡ ok n
      → Accepted d c (height s) (nested_count s) (well_formed s) n
  each_sound no_steps d c {n} l m h =
      let i = sym (ok-injective {a = c} h) in
      (refl, omega arith, omega (arith, i), omega (arith, i))
  each_sound (step s rest) d c {n} l m h = >>=-elim (check_step s) _ h (λ _ e h.
      >>=-elim (validate_nested d s c) _ h (λ k f h.
        let a = nested_sound s d c {n = k} l m f in
        let b = each_sound rest d k {n = n} l a.3 h in
        (
          rw (passes-ok (check_step s) e, a.0, b.0) refl,
          omega (arith, a.1, b.1),
          omega (arith, a.2, b.2),
          b.3,
        )))

  nested_sound :
      (s : Step) (d c : ℕ) {n : ℕ}
      → d ≤ 16
      → c ≤ 1000
      → validate_nested d s c ≡ ok n
      → Accepted d c (height_inside s) (count_inside s) (well_formed_inside s) n
  nested_sound (if_step x t o) d c {n} l m h = >>=-elim (open_steps (suc d) t c) _ h (λ k e h.
      >>=-elim (validate_each (suc d) t k) _ h (λ j f h.
        let a = open_steps_sound (suc d) t c {n = k} e in
        let b = each_sound t (suc d) k {n = j} a.0 a.2 f in
        >>=-elim (open_steps (suc d) o j) _ h (λ i e h.
          let u = open_steps_sound (suc d) o j {n = i} e in
          let v = each_sound o (suc d) i {n = n} u.0 u.2 h in
          (rw (b.0, v.0) refl, omega (arith, b.1, v.1), omega (arith, a.1, b.2, u.1, v.2), v.3))))
  nested_sound (for_each i xs t) d c {n} l m h = >>=-elim (open_steps (suc d) t c) _ h (λ k e h.
      let a = open_steps_sound (suc d) t c {n = k} e in
      let b = each_sound t (suc d) k {n = n} a.0 a.2 h in
      (b.0, omega (arith, b.1), omega (arith, a.1, b.2), b.3))
  nested_sound (request_step r) d c {n} l m h = leaf_sound d c l m h
  nested_sound (extract_step x) d c {n} l m h = leaf_sound d c l m h
  nested_sound (delay k) d c {n} l m h = leaf_sound d c l m h

mutual
  unfolding validate_each well_formed

  each_complete :
      (s : Steps) (d c : ℕ)
      → well_formed s ≡ true
      → d + height s ≤ 16
      → c + nested_count s ≤ 1000
      → validate_each d s c ≡ ok (c + nested_count s)
  each_complete no_steps d c w h k = ap ok (omega arith)
  each_complete (step s rest) d c w h k =
      let e = ok-passes (check_step s) (ground arith) in
      let f = nested_complete s d c (ground arith) (omega (arith, h)) (omega (arith, k)) in
      let g =
        each_complete rest d (c + count_inside s) (ground arith) (omega (arith, h))
          (omega (arith, k)) in
      rw (e, f, g) (ap ok (omega arith))

  nested_complete :
      (s : Step) (d c : ℕ)
      → well_formed_inside s ≡ true
      → d + height_inside s ≤ 16
      → c + count_inside s ≤ 1000
      → validate_nested d s c ≡ ok (c + count_inside s)
  nested_complete (if_step x t o) d c w h k =
      let e = open_steps_complete (suc d) t c (omega (arith, h)) (omega (arith, k)) in
      let f =
        each_complete t (suc d) (c + step_count t) (ground arith) (omega (arith, h))
          (omega (arith, k)) in
      let j = c + step_count t + nested_count t in
      let g = open_steps_complete (suc d) o j (omega (arith, h)) (omega (arith, k)) in
      let i =
        each_complete o (suc d) (j + step_count o) (ground arith) (omega (arith, h))
          (omega (arith, k)) in
      rw (e, f, g, i) (ap ok (omega arith))
  nested_complete (for_each i xs t) d c w h k =
      let e = open_steps_complete (suc d) t c (omega (arith, h)) (omega (arith, k)) in
      let f = each_complete t (suc d) (c + step_count t) w (omega (arith, h)) (omega (arith, k)) in
      rw (e, f) (ap ok (omega arith))
  nested_complete (request_step r) d c w h k = ap ok (omega arith)
  nested_complete (extract_step x) d c w h k = ap ok (omega arith)
  nested_complete (delay n) d c w h k = ap ok (omega arith)

-- The template is of version 1, has a name and a step, each of its steps passes the tests of its
-- fields, its blocks are at most 16 levels deep, and it has at most 1000 steps on all levels.
unfoldable pub Acceptable : TemplateDefinition → Type 0
Acceptable t =
    (t.version ≡ 1)
    × (is_blank t.name ≡ false)
    × (0 < step_count t.steps)
    × (well_formed t.steps ≡ true)
    × (height t.steps ≤ 16)
    × (step_count t.steps + nested_count t.steps ≤ 1000)

steps_sound :
    (s : Steps) {n : ℕ}
    → validate_steps 0 s 0 ≡ ok n
    → (well_formed s ≡ true) × (height s ≤ 16) × (step_count s + nested_count s ≤ 1000)
unfolding validate_steps
steps_sound s {n} h = >>=-elim (open_steps 0 s 0) _ h (λ k e h.
    let a = open_steps_sound 0 s 0 {n = k} e in
    let b = each_sound s 0 k {n = n} a.0 a.2 h in
    (b.0, omega (arith, b.1), omega (arith, a.1, b.2, b.3)))

steps_complete :
    (s : Steps)
    → well_formed s ≡ true
    → height s ≤ 16
    → step_count s + nested_count s ≤ 1000
    → validate_steps 0 s 0 ≡ ok (0 + step_count s + nested_count s)
unfolding validate_steps
steps_complete s w h k =
    let e = open_steps_complete 0 s 0 (omega arith) (omega (arith, k)) in
    rw e (each_complete s 0 (0 + step_count s) w (omega (arith, h)) (omega (arith, k)))

accepted : (t : TemplateDefinition) → validate t ≡ ok tt → Acceptable t
unfolding validate Acceptable
accepted t h = >>=-elim (ensure (t.version == 1) _) _ h (λ _ e h.
    >>=-elim (ensure (not (is_blank t.name)) _) _ h (λ _ f h.
      >>=-elim (ensure (ltb 0 (step_count t.steps)) _) _ h (λ _ g h.
        >>=-elim (validate_steps 0 t.steps 0) _ h (λ n i h.
          let all = steps_sound t.steps {n = n} i in
          let version = ==→eq t.version 1 (ensure-eq-ok _ _ e) in
          let name = ensure-eq-ok (not (is_blank t.name)) _ f in
          let steps = ltb→lt 0 (step_count t.steps) (ensure-eq-ok _ _ g) in
          (version, ground (arith, name), steps, all.0, all.1, all.2)))))

accepts : (t : TemplateDefinition) → Acceptable t → validate t ≡ ok tt
unfolding validate Acceptable
accepts t (v, n, s, w, h, k) =
    let i : (t.version == 1) ≡ true = ground (arith, v) in
    rw (i, n, lt→ltb 0 (step_count t.steps) s, steps_complete t.steps w h k) refl

-- The validation of a template succeeds exactly for the acceptable templates: those of version 1
-- with a name and a step, whose steps on all levels pass the tests of their fields, are nested at
-- most 16 levels deep and are at most 1000.
pub validate-iff-Acceptable : (t : TemplateDefinition) → (validate t ≡ ok tt) ↔ Acceptable t
validate-iff-Acceptable t = (accepted t, accepts t)
