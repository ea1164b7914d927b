-- ===== src/Swim/Member.antt =====
-- swim.py, lines 23-51: a member as others see it, and SWIM's conflict rule.
pub mod Order
use dssd.Prelude.{ℕ, String, Bool, true, false, not, ltb, ◌==◌, if◌then◌else◌}

abbrev pub max_transmits_per_update : ℕ
max_transmits_per_update = 5

abbrev pub max_updates_per_message : ℕ
max_updates_per_message = 8

pub data State : Type 0 where
  alive suspect dead : State

-- The values of the IntEnum, which double as severity.
abbrev pub severity : State → ℕ
severity alive = 0
severity suspect = 1
severity dead = 2

abbrev pub same_state : State → State → Bool
same_state s t = severity s == severity t

pub record Member : Type 0 where
  pub id : String
  pub addr : String
  pub state : State
  pub incarnation : ℕ

unfoldable pub supersedes : Member → Member → Bool
supersedes update current =
    if same_state update.state dead
    then not (same_state current.state dead)
    else if not (update.incarnation == current.incarnation)
    then ltb current.incarnation update.incarnation
    else ltb (severity current.state) (severity update.state)
