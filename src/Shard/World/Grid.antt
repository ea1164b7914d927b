-- ===== src/Shard/World/Grid.antt =====
-- sharding/world.py: every place belongs to a shard of the grid.
use dssd.Prelude.{
  contains-append, ℕ, zero, suc, ◌<◌, ◌⊎◌, inl, inr, ◌≡◌, String, true, some, [], ◌∷◌, contains,
  arith, eq_refl, Option-cases,
}
use dssd.Shard.World.{
  ℤ, pos, negsuc, Python, GridConfig, clamp, tabulate, cell, shard_id_for, rows_of_ids,
  all_shard_ids,
}

lt_suc-cases : (i n : ℕ) → i < suc n → (i < n) ⊎ (i ≡ n)
lt_suc-cases i n h = omega arith

clamp-lt : (i : ℤ) (n : ℕ) → 0 < n → clamp i n < n
clamp-lt (pos i) n h = omega arith
clamp-lt (negsuc i) n h = h

contains-tabulate : (f : ℕ → String) (n i : ℕ) → i < n → contains (tabulate f n) (f i) ≡ true
unfolding tabulate
contains-tabulate f zero i h = elim h [ ]
contains-tabulate f (suc n) i h =
    rw (contains-append (tabulate f n) (f n ∷ []) (f i)) (elim (lt_suc-cases i n h) [
      | inl before ↦ ground (arith, contains-tabulate f n i before)
      | inr e ↦ rw e (ground (arith, eq_refl (f n)))
    ])

module _ {F : Type 0} (py : Python F) where
  contains-rows_of_ids :
      (rows cols row col : ℕ)
      → row < rows
      → col < cols
      → contains (rows_of_ids py rows cols) (py.shard_name row col) ≡ true
  unfolding rows_of_ids
  contains-rows_of_ids zero cols row col h k = elim h [ ]
  contains-rows_of_ids (suc n) cols row col h k =
      rw
        (contains-append (rows_of_ids py n cols) (tabulate (λ c. py.shard_name n c) cols)
          (py.shard_name row col))
        (elim (lt_suc-cases row n h) [
          | inl before ↦ ground (arith, contains-rows_of_ids n cols row col before k)
          | inr e ↦ rw e (ground (arith, contains-tabulate (λ c. py.shard_name n c) cols col k))
        ])

  cell-lt : (x width : F) (n i : ℕ) → 0 < n → cell py x width n ≡ some i → i < n
  unfolding cell
  cell-lt x width n i h e = elim (Option-cases (py.div_int width n)) [
    | inl e1 ↦ ground (arith, e1)
    | inr (w, e1) ↦ elim (Option-cases (py.floor_div x w)) [
      | inl e2 ↦ ground (arith, e1, e2)
      | inr (q, e2) ↦ elim (Option-cases (py.int q)) [
        | inl e3 ↦ ground (arith, e1, e2, e3)
        | inr (j, e3) ↦ ground (arith, e1, e2, e3, clamp-lt j n h)
      ]
    ]
  ]

  -- In a grid with at least one column and one row, the shard of a place, inside the world or
  -- outside, is one of the grid's shards, whenever the floating-point arithmetic yields one.
  pub shard_id_for-contained :
      (x y : F) (grid : GridConfig F) (id : String)
      → 0 < grid.cols
      → 0 < grid.rows
      → shard_id_for py x y grid ≡ some id
      → contains (all_shard_ids py grid) id ≡ true
  unfolding shard_id_for all_shard_ids
  shard_id_for-contained x y grid id hc hr e =
      elim (Option-cases (cell py x grid.width grid.cols)) [
        | inl e1 ↦ ground (arith, e1)
        | inr (col, e1) ↦ elim (Option-cases (cell py y grid.height grid.rows)) [
          | inl e2 ↦ ground (arith, e1, e2)
          | inr (row, e2) ↦ ground (
            arith,
            e1,
            e2,
            contains-rows_of_ids grid.rows grid.cols row col
                (cell-lt y grid.height grid.rows row hr e2)
                (cell-lt x grid.width grid.cols col hc e1),
          )
        ]
      ]
