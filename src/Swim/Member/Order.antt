-- ===== src/Swim/Member/Order.antt =====
-- `supersedes` as an order, and where it is none.
use dssd.Prelude.{ℕ, ◌+◌, ◌*◌, ◌<◌, ◌≡◌, ◌≢◌, refl, ◌↔◌, true, false, arith}
use dssd.Swim.Member.{State, alive, suspect, dead, severity, Member, supersedes}

-- How new the news is: by incarnation, then by severity.
abbrev pub rank : Member → ℕ
rank m = 2 * m.incarnation + severity m.state

severity-lt : (s : State) → s ≢ dead → severity s < 2
severity-lt alive h = omega arith
severity-lt suspect h = omega arith
severity-lt dead h = absurd (h refl)

-- Of two members that are not dead one supersedes the other exactly if it is at a higher
-- incarnation, or at the same incarnation and suspect where the other is alive: the order of
-- twice the incarnation plus the severity.
pub supersedes-rank :
    (a b : Member) → a.state ≢ dead → b.state ≢ dead → (supersedes a b ≡ true) ↔ (rank b < rank a)
unfolding supersedes
supersedes-rank a b ha hb = ground (arith, severity-lt a.state ha, severity-lt b.state hb)

-- Nothing supersedes itself.
pub supersedes_irrefl : (a : Member) → supersedes a a ≡ false
unfolding supersedes
supersedes_irrefl a = ground arith

-- A dead member and one that is not dead, at a higher incarnation, supersede each other.
pub supersedes_cycle :
    (a b : Member)
    → a.state ≡ dead
    → b.state ≢ dead
    → a.incarnation < b.incarnation
    → (supersedes a b ≡ true) × (supersedes b a ≡ true)
unfolding supersedes
supersedes_cycle a b ha hb h = ground arith
