-- ===== src/MasterExamples.antt =====
-- The theorems on the master at a run with one cube worker: x1 has to hold, and x2 costs 1.
use cube_conquer_pb.Base.{
  ◌<ℤ◌, ℕ, All, ◌↔◌, ◌≡◌, refl, subst, true, false, List, [], ◌∷◌, some, inl, inr, ◌⊎◌, here, there,
  ℤ, pos, ◌==◌, if◌then◌else◌, arith, Bool-cases,
}
use cube_conquer_pb.Constraint.{WConstraint, Lit, plus, minus}
use cube_conquer_pb.Constraint.Semantics.{Assignment, Satisfies}
use cube_conquer_pb.Cubes.Laws.{AllHold}
use cube_conquer_pb.Tasks.{CubeTask, empty_set, insert_all}
use cube_conquer_pb.Tasks.Sets.{IsKeyed, insert_all-Satisfies}
use cube_conquer_pb.Master.{
  Config, Master, Message, result_of, handle_message, main_loop, goes_on, optimum,
}
use cube_conquer_pb.Master.Next.{IsBusy}
use cube_conquer_pb.Master.Handle.{Good}
use cube_conquer_pb.Master.Run.{handle_message-Good}
use cube_conquer_pb.Master.Outcome.{Says, IsHonest, main_loop-SomeWorker}
use cube_conquer_pb.Master.Init.{InitMessage, init_result, init_loop, initial, start, run_master}
use cube_conquer_pb.Master.Start.{IsHonestInit, initial_loop-Early}
use cube_conquer_pb.Master.Whole.{IsGenerated, start-Good, run_master-Says}

abbrev pub one_worker : Config
one_worker = record {
  size = 3;
  first_cube_worker = 2;
  num_cube_workers = 1;
  optimizing = true;
  minimizing = true;
}

abbrev pub HasFirst : Assignment → Type 0
HasFirst σ = σ 1 ≡ true

abbrev pub second_costs : Assignment → ℤ
second_costs σ = pos (if σ 2 then 1 else 0)

abbrev pub NoneLost : Assignment → Type 0
NoneLost σ = ⊥

abbrev pub two_cubes : List InitMessage
two_cubes = init_result 20 ((minus 2 ∷ []) ∷ (plus 2 ∷ []) ∷ []) ∷ []

abbrev answer : ℕ → ℤ → List ℕ → List (List Lit) → Message
answer code extra sol subs =
    result_of 2
      (record { result = code; extra = extra; sol = sol; new_constraints = []; subcubes = subs })

-- The first cube is split, and the others are solved, one with a 15.
abbrev three_answers : List Message
three_answers =
    answer 30 (pos 1) [] ((minus 2 ∷ plus 1 ∷ []) ∷ [])
    ∷ answer 15 (pos 1) (1 ∷ 1 ∷ []) []
    ∷ answer 10 (pos 0) (1 ∷ 0 ∷ []) []
    ∷ []

run_two_cubes : run_master one_worker two_cubes three_answers ≡ optimum (pos 0)
unfolding run_master
run_two_cubes = refl

-- A 15 that is not the least cost of its cube: there is a model of cost 0.
run_feasible :
    run_master one_worker (init_result 20 ([] ∷ []) ∷ []) (answer 15 (pos 1) (1 ∷ 1 ∷ []) [] ∷ [])
    ≡ optimum (pos 1)
unfolding run_master
run_feasible = refl

-- The literals of the cube of a slot hold.
slot_holds :
    (σ : Assignment) {t : CubeTask}
    → ((u : CubeTask) × (some t ≡ some u) × AllHold σ u.lits)
    → AllHold σ t.lits
slot_holds σ {t} (u, f, h) = let same : u ≡ t = cc in subst (λ w. AllHold σ w.lits) same h

abbrev first_only : Assignment
first_only v = v == 1

abbrev first_two : Assignment
first_two v = if v == 1 then true else v == 2

two_cubes-IsHonestInit :
    IsHonestInit one_worker HasFirst NoneLost second_costs two_cubes (initial one_worker)
two_cubes-IsHonestInit = λ _. (tt, tt)

two_cubes-IsGenerated :
    IsGenerated one_worker HasFirst NoneLost second_costs
      (init_loop one_worker two_cubes (initial one_worker))
unfolding init_loop
two_cubes-IsGenerated = record {
  found = λ o. cc;
  covers = λ σ h.
      inr (elim (Bool-cases (σ 2)) [ inl e ↦ there (here (e, tt)) | inr e ↦ here (rw e refl, tt) ]);
}

costs_one : (σ : Assignment) → σ 2 ≡ true → second_costs σ <ℤ pos 1 → ⊥
costs_one σ two less = let low : pos 1 <ℤ pos 1 = rw two at less in omega arith

three_answers-IsHonest :
    IsHonest one_worker HasFirst NoneLost second_costs three_answers
      (start one_worker (init_loop one_worker two_cubes (initial one_worker)).master)
unfolding init_loop start handle_message
three_answers-IsHonest = λ _. (
  (
    λ e. cc,
    λ _. record {
      held = (omega arith, refl);
      code = there (there (there (there (there (there (here refl))))));
      partly = λ e. absurd (omega arith);
      improved = λ e. absurd (omega arith);
      found = λ _ e. absurd (omega arith);
      satisfied = λ o e. absurd (cc);
      splits = λ _ σ l h. inr (here ((slot_holds σ h).0, (l.0, tt)));
      optimal = λ _ e. absurd (omega arith);
      feasible = λ _ e. absurd (omega arith);
      refuted = λ e. absurd (omega arith);
    },
  ),
  λ _. (
    (
      λ e. cc,
      λ _. record {
        held = (omega arith, refl);
        code = there (there (here refl));
        partly = λ e. refl;
        improved = λ e. absurd (omega arith);
        found = λ _ e. (omega arith, (first_two, refl, refl));
        satisfied = λ o e. absurd (cc);
        splits = λ e. absurd (omega arith);
        optimal = λ _ e. absurd (omega arith);
        feasible = λ _ _ σ h inside less.
            let two = (slot_holds σ inside).0 in absurd (costs_one σ two less);
        refuted = λ e. absurd (omega arith);
      },
    ),
    λ _. (
      (
        λ e. cc,
        λ _. record {
          held = (omega arith, refl);
          code = there (here refl);
          partly = λ e. absurd (omega arith);
          improved = λ e. absurd (omega arith);
          found = λ _ e. (omega arith, (first_only, refl, refl));
          satisfied = λ o e. absurd (cc);
          splits = λ e. absurd (omega arith);
          optimal = λ _ _ σ h inside. omega arith;
          feasible = λ _ e. absurd (omega arith);
          refuted = λ e. absurd (omega arith);
        },
      ),
      tt,
    ),
  ),
)

run_master-Says_example :
    Says one_worker HasFirst NoneLost second_costs (run_master one_worker two_cubes three_answers)
unfolding run_master
run_master-Says_example =
    run_master-Says one_worker HasFirst NoneLost second_costs two_cubes three_answers refl
      (omega arith) two_cubes-IsHonestInit two_cubes-IsGenerated
      (λ _. (three_answers-IsHonest, refl))

abbrev pub started : Master
started = start one_worker (init_loop one_worker two_cubes (initial one_worker)).master

started-Good : Good one_worker HasFirst NoneLost second_costs refl started
unfolding init_loop start
started-Good =
    start-Good one_worker HasFirst NoneLost second_costs refl
      (init_loop one_worker two_cubes (initial one_worker)).master
      (initial_loop-Early one_worker HasFirst NoneLost second_costs refl two_cubes (omega arith)
        two_cubes-IsHonestInit)
      refl refl (λ σ h. elim (two_cubes-IsGenerated.covers σ h) [ inl o ↦ absurd (cc) | inr c ↦ c ])

handle_message-Good_example :
    Good one_worker HasFirst NoneLost second_costs refl
      (handle_message one_worker (answer 30 (pos 1) [] ((minus 2 ∷ plus 1 ∷ []) ∷ [])) started)
unfolding goes_on start init_loop
handle_message-Good_example =
    handle_message-Good one_worker HasFirst NoneLost second_costs refl
      (answer 30 (pos 1) [] ((minus 2 ∷ plus 1 ∷ []) ∷ [])) started started-Good
      ((three_answers-IsHonest refl).0)

main_loop-SomeWorker_example :
    ((main_loop one_worker [] started).original_worker_active ≡ true)
    ⊎ ((k : ℕ) × IsBusy k (main_loop one_worker [] started))
unfolding goes_on start init_loop main_loop
main_loop-SomeWorker_example =
    main_loop-SomeWorker one_worker HasFirst NoneLost second_costs refl [] started started-Good tt
      refl

-- Two idle workers and three cubes.
abbrev two_workers : Config
two_workers = record {
  size = 4;
  first_cube_worker = 2;
  num_cube_workers = 2;
  optimizing = false;
  minimizing = true;
}

abbrev bounded : ℤ → CubeTask
bounded lb = record {
  lits = [];
  split_depth = 0;
  learned_constraints = empty_set;
  lower_bound = lb;
}

abbrev waiting : Master
waiting =
    let m = (initial two_workers).master in
    record m {
      cubes = bounded (pos 1) ∷ bounded (pos 5) ∷ bounded (pos 3) ∷ [];
      queue = 0 ∷ 1 ∷ 2 ∷ [];
    }

-- 2 x1 + x2 >= 1 in two orders
abbrev one_twice : List WConstraint
one_twice =
    record { lhs = (2, plus 1) ∷ (1, plus 2) ∷ []; rhs = pos 1 }
    ∷ record { lhs = (1, plus 2) ∷ (2, plus 1) ∷ []; rhs = pos 1 }
    ∷ []

insert_all-Satisfies_example :
    IsKeyed (insert_all one_twice empty_set)
    × ((σ : Assignment)
        → All (Satisfies σ) (insert_all one_twice empty_set).constraints
          ↔ (All (Satisfies σ) one_twice × All (Satisfies σ) []))
insert_all-Satisfies_example =
    insert_all-Satisfies one_twice empty_set (record { keyed = refl; distinct = tt })
