-- ===== src/Lib.antt =====
-- CubeConquerPB solves pseudo-Boolean problems by cube and conquer: a master gives the cubes of a search
-- tree to workers, each of which runs a solver behind one interface. This library models the constraint
-- routines that the solver and the master share, the way from the input to a stored constraint, the
-- generation of cubes, messages of constraints, the master with its tasks and its incumbent, packed reasons,
-- and the trail and the propagation of the solver.
--
-- Constraint (src/WConstraint.h, src/Constraint.h, src/Functions.h): a literal is a data type with the sign
-- as its constructor, a constraint is a list of terms with an integer constant. Its children:
--   Semantics   when an assignment satisfies a constraint
--   Duplicates  and Normal: removeDuplicates and the normalisation that every caller runs
--   Simplify    simplify of src/Constraint.h: saturation and division by the gcd
--   Lookup      the lookups by variable
--   Cut         applyCut of src/ConflictAnalysis.cpp, with Merge (its loops), Division (its last part), Sound
--               and Range (the integer type that it chooses)
--   Rounding    and Returns: fixRoundingProblemSAT of src/ConflictAnalysis.cpp
-- Problem (src/Parser.cpp, src/cubePB.cpp, src/CnfToOpb.cc, src/NativeBackend.cpp): linear constraints and
-- clauses on their way to the solver, in Linear, Clauses and Post.
-- Cubes (src/cubePB.cpp, src/ISolverBackend.h): generate_cubes over a record of the backend's operations,
-- with what it relies on in Laws; Probe (the rounds of failed literals), Branch and Node (what a branch and
-- a node leave), Cover (a worker alone), Split (a group of workers) and Subcubes (split_cube).
-- Messages (src/cubePB.cpp): send_constraints and recv_constraints over a record of the channel's operations
-- (RoundTrip) and compute_split_time_limit (TimeLimit).
-- Incumbent (src/cubePB.cpp): the best cost and solution that the master keeps, a step for each report.
-- Tasks (src/cubePB.cpp): constraint sets without duplicates (Sets) and the queue of cubes (Queue).
-- Master (src/cubePB.cpp): run_master. A message is a value with all that is received for it, and the master
-- is a record that each message changes. cube_of_worker and cube_depth_of_worker are the slots of the cube
-- workers. Assign and Dispatch hand out cubes, Next is a worker that has closed its cube, Split a cube that is
-- replaced by its subcubes; Honest says what an answer promises, Handle, Run and Outcome follow the loop to the
-- result that is printed; Init, Original, Start and Whole add the phase in which the initial cubes arrive.
-- Workers (src/cubePB.cpp): a worker's answers and how the master receives them; Values and Protocol follow
-- them over the channel of Messages, Work is the work that it receives, Solve is solve_cube over the interface
-- of src/ISolverBackend.h, Truth (with Codes) carries what it finds to what the master asks of an answer, and
-- Adapters is what src/NativeBackend.cpp, src/RoundingSatBackend.cpp and src/CadicalBackend.cpp make of it.
-- Reasons (src/Reason.h): a reason packed into a word, and Pack, which reads it back.
-- Trail (src/Model.cpp, src/Model.h): the trail of literals by decision level, and Undo.
-- ConstraintValue (src/ConstraintValue.cpp): a constraint or a clause under the trail; Slack and Entailed compare
-- its sums with the assignments that agree with the trail, Tests is the loops that stop early.
-- Solver (src/Solver.h, src/DBAddition.cpp, src/Propagate.cpp, src/Solver.cpp): the databases with their watch
-- and occurrence lists. Propagate, ClauseWatches and Loop are the code of propagation and of taking literals
-- back. Counted says which literals a counter counts, Grows which models a propagation reaches, Invariant what
-- holds of the databases. Visits and Restored follow the counters, Forced the binary clauses, Rewatched and
-- Watched the clauses, Round the three visits of a literal, Sound and Propagated the loop. Watching and Rounds
-- are the watch lists, Measure and Finish the end of the loop. Settled and Initial are the first propagation of
-- a constraint. Added and Occurrences are the addition of a
-- constraint, AddedClause that of a clause, Backjump is backjumpToDL.
-- Base holds the list, integer and arithmetic lemmas. Examples, CubeExamples, MessageExamples,
-- IncumbentExamples, MasterExamples, WorkerExamples, TrailExamples and SolverExamples hold the theorems at concrete inputs.
--
-- Coefficients are natural numbers without a bound and the constants are integers, so machine overflow is
-- outside the model, but for applyCut: it has the choice between int and long long, a value that the chosen
-- type does not hold is a result of its own, and Range says when there is none. The build is the one of the
-- Makefiles, without assertions (-DNDEBUG). Loops recurse on their list.
-- removeDuplicates consumes a term in each round, so the size is enough fuel; a binary search halves its
-- range, and the size and one is enough; a cube has at most 11 literals, and 12 is enough for the
-- recursion of generate_cubes. A failed literal assigns a variable, so the rounds of a node are at most the
-- variables and one.
--
-- The theorems on the master are for minimising. What it asks of the answers is a hypothesis, which Truth
-- derives from the laws of the solver for the answers to solve_cube. A 15 is documented as a feasible solution
-- of its cube, yet the master closes the cube with it as with a 10, so that it can lose the models of the cube
-- that cost less: `Lost` is a set with those models, and what is said of the best cost leaves them out.
-- The loop of the master recurses on the messages that it receives.
--
-- A round of propagate takes one literal of the trail, which has at most one for each variable.
--
-- Decisions, the heap of variables, restarts, learning beyond the cut, the cleanup of the databases, MPI, the
-- text formats, CaDiCaL and RoundingSat are not modelled.
pub mod Base
pub mod Constraint
pub mod ConstraintValue
pub mod Problem
pub mod Cubes
pub mod Examples
pub mod CubeExamples
pub mod Messages
pub mod MessageExamples
pub mod Incumbent
pub mod IncumbentExamples
pub mod MasterExamples
pub mod Reasons
pub mod Tasks
pub mod Master
pub mod Workers
pub mod Trail
pub mod TrailExamples
pub mod Solver
pub mod SolverExamples
pub mod WorkerExamples
