-- ===== src/Store/Table.antt =====
-- A table of rows under a primary key, as a list of the rows with their keys.
use hrbackend.Prelude.{
  ℕ, ◌+◌, ◌≡◌, ◌≢◌, refl, Option, none, some, List, [], ◌∷◌, arith, ◌==◌, if◌then◌else◌, Bool-cases,
  inl, inr, subst,
}

abbrev pub Table : Type 0 → Type 0
Table R = List (ℕ × R)

module _ {R : Type 0} where
  -- `SELECT * FROM t WHERE id = k`.
  unfoldable pub select : ℕ → Table R → Option R
  select k [] = none
  select k ((j, r) ∷ t) = if j == k then some r else select k t

  -- `UPDATE t SET … WHERE id = k`.
  unfoldable pub update : ℕ → (R → R) → Table R → Table R
  update k f [] = []
  update k f ((j, r) ∷ t) = (j, if j == k then f r else r) ∷ update k f t

  -- `DELETE FROM t WHERE id = k`.
  unfoldable pub delete : ℕ → Table R → Table R
  delete k [] = []
  delete k ((j, r) ∷ t) = let rest = delete k t in if j == k then rest else (j, r) ∷ rest

  -- `INSERT INTO t …` with a key that is not in use.
  unfoldable pub insert : ℕ → R → Table R → Table R
  insert k r t = (k, r) ∷ t

  pub select-update :
      (k j : ℕ) (f : R → R) (t : Table R)
      → select j (update k f t)
        ≡ (if k == j then (elim (select j t) [ none ↦ none | some r ↦ some (f r) ]) else select j t)
  unfolding select update
  select-update k j f [] = ground arith
  select-update k j f ((i, r) ∷ t) = ground (arith, select-update k j f t)

  pub select-update_self :
      (k : ℕ) (f : R → R) (t : Table R) (r : R)
      → select k t ≡ some r
      → select k (update k f t) ≡ some (f r)
  select-update_self k f t r h = ground (arith, select-update k k f t)

  pub select-insert :
      (k j : ℕ) (r : R) (t : Table R)
      → select j (insert k r t) ≡ (if k == j then some r else select j t)
  unfolding select insert
  select-insert k j r t = refl

  pub select-delete :
      (k j : ℕ) (t : Table R) → select j (delete k t) ≡ (if k == j then none else select j t)
  unfolding select delete
  select-delete k j [] = ground arith
  select-delete k j ((i, r) ∷ t) = ground (arith, select-delete k j t)

  -- `SELECT SUM(f) FROM t`.
  unfoldable pub sum_rows : (R → ℕ) → Table R → ℕ
  sum_rows f [] = 0
  sum_rows f ((j, r) ∷ t) = f r + sum_rows f t

  pub sum_rows-insert :
      (f : R → ℕ) (k : ℕ) (r : R) (t : Table R) → sum_rows f (insert k r t) ≡ f r + sum_rows f t
  unfolding sum_rows insert
  sum_rows-insert f k r t = refl

  -- Every row satisfies P.
  abbrev pub AllRows : (R → Type 0) → Table R → Type 0
  AllRows P [] = Unit
  AllRows P ((j, r) ∷ t) = P r × AllRows P t

  -- No key stands twice: the primary key.
  abbrev pub Fresh : ℕ → Table R → Type 0
  Fresh k [] = Unit
  Fresh k ((j, r) ∷ t) = (k ≢ j) × Fresh k t

  abbrev pub HasKeys : Table R → Type 0
  HasKeys [] = Unit
  HasKeys ((j, r) ∷ t) = Fresh j t × HasKeys t

  pub update-Fresh : (k : ℕ) (f : R → R) (t : Table R) → Fresh k t → update k f t ≡ t
  unfolding update
  update-Fresh k f [] h = refl
  update-Fresh k f ((j, r) ∷ t) h = ground (arith, update-Fresh k f t h.1)

  -- An update of one row changes a sum by that row's share.
  pub sum_rows-update :
      (g : R → ℕ) (k : ℕ) (f : R → R) (t : Table R) (r : R)
      → HasKeys t
      → select k t ≡ some r
      → sum_rows g (update k f t) + g r ≡ sum_rows g t + g (f r)
  unfolding sum_rows update select
  sum_rows-update g k f [] r h e = ground arith
  sum_rows-update g k f ((j, s) ∷ t) r h e =
      ground (arith, update-Fresh k f t, sum_rows-update g k f t r h.1)

  pub Fresh-select : (k : ℕ) (t : Table R) → select k t ≡ none → Fresh k t
  unfolding select
  Fresh-select k [] h = tt
  Fresh-select k ((j, r) ∷ t) h = (ground arith, Fresh-select k t (ground arith))

  pub Fresh-update : (k j : ℕ) (f : R → R) (t : Table R) → Fresh k t → Fresh k (update j f t)
  unfolding update
  Fresh-update k j f [] h = tt
  Fresh-update k j f ((i, r) ∷ t) (h, hs) = (h, Fresh-update k j f t hs)

  pub update-HasKeys : (k : ℕ) (f : R → R) (t : Table R) → HasKeys t → HasKeys (update k f t)
  unfolding update
  update-HasKeys k f [] h = tt
  update-HasKeys k f ((j, r) ∷ t) (h, hs) = (Fresh-update j k f t h, update-HasKeys k f t hs)

  pub insert-HasKeys :
      (k : ℕ) (r : R) (t : Table R) → select k t ≡ none → HasKeys t → HasKeys (insert k r t)
  unfolding insert
  insert-HasKeys k r t h hs = (Fresh-select k t h, hs)

  pub update-insert :
      (k : ℕ) (f : R → R) (r : R) (t : Table R)
      → select k t ≡ none
      → update k f (insert k r t) ≡ insert k (f r) t
  unfolding update insert
  update-insert k f r t h = ground (arith, update-Fresh k f t (Fresh-select k t h))

  -- A row in a table satisfies what every row satisfies.
  pub select-AllRows :
      (P : R → Type 0) (k : ℕ) (t : Table R) (r : R) → AllRows P t → select k t ≡ some r → P r
  unfolding select
  select-AllRows P k [] r h e = ground arith
  select-AllRows P k ((j, s) ∷ t) r (h, hs) e = elim (Bool-cases (j == k)) [
    | inl eq ↦ subst P (ground arith) h
    | inr ne ↦ select-AllRows P k t r hs (ground arith)
  ]

  -- An update of one row keeps a property that the new row has.
  pub update-AllRows :
      (P : R → Type 0) (k : ℕ) (f : R → R) (t : Table R) (r : R)
      → HasKeys t
      → AllRows P t
      → select k t ≡ some r
      → P (f r)
      → AllRows P (update k f t)
  unfolding select update
  update-AllRows P k f [] r hk h e p = tt
  update-AllRows P k f ((j, s) ∷ t) r (hf, hk) (h, hs) e p = elim (Bool-cases (j == k)) [
    | inl eq ↦ (
      subst P (ground arith) p,
      subst (AllRows P) (ground (arith, update-Fresh k f t (ground arith))) hs,
    )
    | inr ne ↦ (subst P (ground arith) h, update-AllRows P k f t r hk hs (ground arith) p)
  ]

  pub insert-AllRows :
      (P : R → Type 0) (k : ℕ) (r : R) (t : Table R) → P r → AllRows P t → AllRows P (insert k r t)
  unfolding insert
  insert-AllRows P k r t p h = (p, h)

  delete-Fresh : (k j : ℕ) (t : Table R) → Fresh k t → Fresh k (delete j t)
  unfolding delete
  delete-Fresh k j [] h = tt
  delete-Fresh k j ((i, r) ∷ t) (h, hs) = elim (Bool-cases (i == j)) [
    | inl eq ↦ subst (Fresh k) (ground arith) (delete-Fresh k j t hs)
    | inr ne ↦ subst (Fresh k) {x = (i, r) ∷ delete j t} (ground arith) (h, delete-Fresh k j t hs)
  ]

  pub delete-HasKeys : (k : ℕ) (t : Table R) → HasKeys t → HasKeys (delete k t)
  unfolding delete
  delete-HasKeys k [] h = tt
  delete-HasKeys k ((j, r) ∷ t) (h, hs) = elim (Bool-cases (j == k)) [
    | inl eq ↦ subst HasKeys (ground arith) (delete-HasKeys k t hs)
    | inr ne ↦
        subst HasKeys {x = (j, r) ∷ delete k t} (ground arith)
          (delete-Fresh j k t h, delete-HasKeys k t hs)
  ]

  pub delete-AllRows : (P : R → Type 0) (k : ℕ) (t : Table R) → AllRows P t → AllRows P (delete k t)
  unfolding delete
  delete-AllRows P k [] h = tt
  delete-AllRows P k ((j, r) ∷ t) (h, hs) = elim (Bool-cases (j == k)) [
    | inl eq ↦ subst (AllRows P) (ground arith) (delete-AllRows P k t hs)
    | inr ne ↦
        subst (AllRows P) {x = (j, r) ∷ delete k t} (ground arith) (h, delete-AllRows P k t hs)
  ]
