-- ===== src/BuildState/Recovery.antt =====
-- A restart leaves no build running.
use node_vault.Base.{Time, ◌≡◌, refl, true, false, [], ◌∷◌, map, All, arith}
use node_vault.BuildState.{
  Build, answers, Table, terminal, interrupt, count_live, recover_interrupted,
}
use node_vault.BuildState.Lifecycle.{interrupt-keeps}

interrupt-terminal : (now : Time) (b : Build) → terminal (interrupt now b).status ≡ true
interrupt-terminal now b = ground arith

recovered :
    (now : Time) (t : Table)
    → All (λ b. terminal b.status ≡ true) (map (interrupt now) t)
      × (count_live (map (interrupt now) t) ≡ 0)
recovered now [] = (tt, refl)
recovered now (b ∷ bs) = (
  (interrupt-terminal now b, (recovered now bs).0),
  rw (interrupt-terminal now b) (recovered now bs).1,
)

interrupt-again :
    (now later : Time) (t : Table)
    → map (interrupt later) (map (interrupt now) t) ≡ map (interrupt now) t
interrupt-again now later [] = refl
interrupt-again now later (b ∷ bs) = ground (
  arith,
  interrupt-keeps later (interrupt now b),
  interrupt-terminal now b,
  interrupt-again now later bs,
)

-- After a restart no build is left running: when the recovery is not refused, every row that it
-- leaves has a terminal status, and recovering again marks no build and changes no row.
pub recover_interrupted_lem :
    (now later : Time) (t : Table)
    → All (λ b. terminal b.status ≡ true) (recover_interrupted false now t).1
      × (recover_interrupted false later (recover_interrupted false now t).1
          ≡ (answers 0, (recover_interrupted false now t).1))
unfolding recover_interrupted
recover_interrupted_lem now later t =
    ((recovered now t).0, rw (interrupt-again now later t, (recovered now t).1) refl)
