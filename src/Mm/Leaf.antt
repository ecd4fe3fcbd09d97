-- ===== src/Mm/Leaf.antt =====
-- Writing an entry of a table of level 0: no table moves, and one page is mapped anew.
use lab.Memory.{Mem}
use lab.Mm.Install.{child-same, leaf_at-same}
use lab.Mm.Tree.{WalkPath, top, at, depth, Bounded, entry, and_then, table_at, leaf_at, IsTree}
use lab.Pgtable.{pte_valid}
use lab.Prelude.{
  ℕ, ◌%◌, ◌<◌, ◌≡◌, refl, ◌≢◌, inl, inr, true, some, List, arith, ap, Option-cases, eq_or_ne, ◌∙◌,
  sym,
}

-- From `m` to `n` entry `i` of the table `t` has become `v`, and no other entry has changed.
pub record Written (m n : Mem) (t i v : ℕ) : Type 0 where
  pub written : entry n t i ≡ v
  pub beside : (j : ℕ) → j < 512 → j ≢ i → entry n t j ≡ entry m t j
  pub elsewhere : (b j : ℕ) → b % 4096 ≡ 0 → b ≢ t → j < 512 → entry n b j ≡ entry m b j

module _ (m n : Mem) (root t i v : ℕ) (p : WalkPath) (free : List ℕ) (tree : IsTree m root free)
    (bounded : Bounded p) (deep : depth p ≡ 2) (low : table_at m root p ≡ some t)
    (done : Written m n t i v) where
  -- A table on the way down is not the one of level 0.
  upper-kept :
      (q : WalkPath) (b j : ℕ)
      → Bounded (at q j)
      → table_at m root q ≡ some b
      → entry n b j ≡ entry m b j
  upper-kept q b j bq e = elim (eq_or_ne b t) [
    | inl same ↦
        let eq = tree.distinct q p b bq.0 bounded e (rw same low) in
        absurd (omega (arith, ap depth eq, bq.2, deep))
    | inr other ↦ done.elsewhere b j (tree.pages q b bq.0 e).0.1 other bq.1
  ]

  -- Every path leads where it led.
  pub table_at-written : (q : WalkPath) → Bounded q → table_at n root q ≡ table_at m root q
  table_at-written top bq = refl
  table_at-written (at q j) bq = elim (Option-cases (table_at m root q)) [
    | inl nowhere ↦ rw (table_at-written q bq.0, nowhere) refl
    | inr (b, e) ↦ rw (table_at-written q bq.0, e) (child-same m n b j (upper-kept q b j bq e))
  ]

  pub IsTree-written : IsTree n root free
  IsTree-written = record {
    pages = λ q a bq e. tree.pages q a bq (sym (table_at-written q bq) ∙ e);
    distinct = λ q s a bq bs e e'.
        tree.distinct q s a bq bs (sym (table_at-written q bq) ∙ e)
          (sym (table_at-written s bs) ∙ e');
    no_leaf = λ q a j bq e valid.
        let old = sym (table_at-written q bq.0) ∙ e in
        let kept = upper-kept q a j bq old in
        rw kept (tree.no_leaf q a j bq old (rw kept at valid));
  }

  -- The entry that was written is found at its indices.
  pub leaf-written : pte_valid v ≡ true → and_then (table_at n root p) (λ b. leaf_at n b i) ≡ some v
  unfolding leaf_at
  leaf-written valid = rw (table_at-written p bounded, low, done.written, valid) refl

  -- All other entries are as before.
  pub leaf-kept :
      (q : WalkPath) (j : ℕ)
      → Bounded q
      → j < 512
      → ((q ≡ p) → j ≢ i)
      → and_then (table_at n root q) (λ b. leaf_at n b j)
        ≡ and_then (table_at m root q) (λ b. leaf_at m b j)
  leaf-kept q j bq lt ne = elim (Option-cases (table_at m root q)) [
    | inl nowhere ↦ rw (table_at-written q bq, nowhere) refl
    | inr (b, e) ↦ rw (table_at-written q bq, e) (leaf_at-same m n b j (kept b e))
  ]
    where
      kept : (b : ℕ) → table_at m root q ≡ some b → entry n b j ≡ entry m b j
      kept b e = elim (eq_or_ne b t) [
        | inl same ↦
            let eq = tree.distinct q p b bq bounded e (rw same low) in
            rw same (done.beside j lt (ne eq))
        | inr other ↦ done.elsewhere b j (tree.pages q b bq e).0.1 other lt
      ]
