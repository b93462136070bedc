-- ===== src/Examples/Registers.antt =====
-- src/regalloc.c from the state that the program starts with.
use koshka.Base.{[], ◌∷◌}
use koshka.RegAlloc.Runs.{Run, IsAssignment, Run-IsAssignment}
use koshka.Base.{true, false, ◌≡◌, refl, arith, some, set}
use koshka.RegAlloc.{RegState, initial, scan, settle, reg_alloc, reg_reset}
use koshka.RegAlloc.Order.{Command, expected, nobody}
use koshka.RegAlloc.Refine.{answers, answers-expected}
use koshka.Base.{List}
use koshka.RegAlloc.Reset.{after_alloc}

-- X7 goes to RAX, X3 to RCX.
first_two : ((reg_alloc initial 7).0 ≡ some 0) × ((reg_alloc (after_alloc initial 7) 3).0 ≡ some 1)
unfolding reg_alloc scan settle
first_two = (refl, refl)

-- X7, X3, X7 again, and X1 after a reset.
abbrev calls : List Command
calls =
    Command.request 7
    ∷ Command.request 3
    ∷ Command.request 7
    ∷ Command.reset
    ∷ Command.request 1
    ∷ []

answers-expected_example : answers initial calls ≡ expected (nobody true) calls
answers-expected_example =
    answers-expected calls (omega arith, (omega arith, (omega arith, (omega arith, tt))))

expected-calls : expected (nobody true) calls ≡ some 0 ∷ some 1 ∷ some 0 ∷ some 0 ∷ []
expected-calls = refl

-- X7 in RAX.
abbrev one_taken : RegState
one_taken = record initial { taken_gp = set initial.taken_gp 0 8 }

-- After a reset X3 gets RAX, and X7 RCX.
abbrev one_again : RegState
one_again = record (reg_reset one_taken) { taken_gp = set (reg_reset one_taken).taken_gp 0 4 }

abbrev two_again : RegState
two_again = record one_again { taken_gp = set one_again.taken_gp 1 8 }

requests :
    (reg_alloc initial 7 ≡ (some 0, one_taken))
    × (reg_alloc (reg_reset one_taken) 3 ≡ (some 0, one_again))
    × (reg_alloc one_again 7 ≡ (some 1, two_again))
unfolding reg_alloc scan settle reg_reset
requests = (refl, refl, refl)

Run-IsAssignment_example : IsAssignment false ((7, 1) ∷ (3, 0) ∷ [])
Run-IsAssignment_example = Run-IsAssignment (
    Run.serve 7 1
      (Run.serve 3 0 (Run.reset (Run.serve 7 0 Run.start (omega arith) requests.0)) (omega arith)
        requests.1)
      (omega arith) requests.2)
