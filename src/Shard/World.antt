-- ===== src/Shard/World.antt =====
-- sharding/world.py: the grid of shards, and how agents move on it. Python's floating point, its
-- conversions and its decimal printing are an interface, `Python`.
pub mod Grid
use dssd.Prelude.{
  ℕ, zero, suc, ◌+◌, ◌-◌, min, String, Bool, true, false, ◌||◌, Option, none, some, List, [], ◌∷◌,
  ◌++◌, map, ◌==◌, if◌then◌else◌,
}

-- Python's `int`
pub data ℤ : Type 0 where
  pos : ℕ → ℤ
  negsuc : ℕ → ℤ

-- What the module uses of Python: floats with their operators, `float / int`, `float // float` and
-- `int(float)`, where `none` is the exception of a zero divisor or of a value without an integer,
-- and the text f"{row}-{col}".
pub record Python (F : Type 0) : Type 0 where
  pub add : F → F → F
  pub sub : F → F → F
  pub mul : F → F → F
  pub neg : F → F
  pub lt : F → F → Bool
  pub literal : ℕ → F
  pub div_int : F → ℕ → Option F
  pub floor_div : F → F → Option F
  pub int : F → Option ℤ
  pub shard_name : ℕ → ℕ → String

pub record GridConfig (F : Type 0) : Type 0 where
  pub width : F
  pub height : F
  pub cols : ℕ
  pub rows : ℕ

pub record AgentState (F : Type 0) : Type 0 where
  pub id : String
  pub x : F
  pub y : F
  pub vx : F
  pub vy : F

-- `min(max(i, 0), n - 1)`, for `n` above 0: `div_int` has failed before for `n = 0`.
abbrev pub clamp : ℤ → ℕ → ℕ
clamp (pos i) n = min i (n - 1)
clamp (negsuc i) n = 0

-- `[f(0), …, f(n - 1)]`
unfoldable pub tabulate {ℓ} : {A : Type ℓ} → (ℕ → A) → ℕ → List A
tabulate f zero = []
tabulate f (suc n) = tabulate f n ++ f n ∷ []

module _ {F : Type 0} (py : Python F) where
  -- `min(max(int(x // (width / n)), 0), n - 1)`
  unfoldable pub cell : (x width : F) (n : ℕ) → Option ℕ
  cell x width n = elim (py.div_int width n) [
    | none ↦ none
    | some w ↦ elim (py.floor_div x w) [
      | none ↦ none
      | some q ↦ elim (py.int q) [ none ↦ none | some i ↦ some (clamp i n) ]
    ]
  ]

  unfoldable pub shard_id_for : (x y : F) → GridConfig F → Option String
  unfolding cell
  shard_id_for x y grid = elim (cell x grid.width grid.cols) [
    | none ↦ none
    | some col ↦ elim (cell y grid.height grid.rows) [
      | none ↦ none
      | some row ↦ some (py.shard_name row col)
    ]
  ]

  -- The rows from 0 on, each with all its columns.
  unfoldable pub rows_of_ids : (rows cols : ℕ) → List String
  unfolding tabulate
  rows_of_ids zero cols = []
  rows_of_ids (suc row) cols = rows_of_ids row cols ++ tabulate (λ col. py.shard_name row col) cols

  unfoldable pub all_shard_ids : GridConfig F → List String
  unfolding rows_of_ids
  all_shard_ids grid = rows_of_ids grid.rows grid.cols

  -- `_bounce`: the new position and velocity.
  unfoldable pub bounce : (place vel limit : F) → F × F
  bounce place vel limit =
      if py.lt place (py.literal 0)
      then (py.neg place, py.neg vel)
      else if py.lt limit place
      then (py.sub (py.mul (py.literal 2) limit) place, py.neg vel)
      else (place, vel)

  -- `AgentState.step`
  unfoldable pub step : (dt : F) → GridConfig F → AgentState F → AgentState F
  unfolding bounce
  step dt grid a =
      let (x, vx) = bounce (py.add a.x (py.mul a.vx dt)) a.vx grid.width in
      let (y, vy) = bounce (py.add a.y (py.mul a.vy dt)) a.vy grid.height in
      record a { x = x; y = y; vx = vx; vy = vy }

  abbrev pub shard_id : GridConfig F → AgentState F → Option String
  shard_id grid a = shard_id_for a.x a.y grid
