-- ===== src/Lib.antt =====
-- Parallel branch and bound for permutation problems, with the flow shop as its problem.
--
-- The program looks for an order of jobs with the least makespan. A search node fixes jobs at the
-- two ends of a permutation, a bound prunes it, and the nodes that are left are explored in one of two
-- ways. The multi-core search (multicore) walks a matrix of jobs with a position vector, and its
-- work is an interval of positions, which is cut when a thread steals (ivm.cpp, bbthread.cpp) and
-- which the distributed search sends as two big integers (distributed). The linked-list search
-- (multicoreLL) keeps a pool of nodes.
--
-- Base: names shared by all modules; cells of an array that is a function, and lists of them.
-- Weights: distributed/src/weights.cpp and distributed/src/fact_work.cpp. A GMP integer is a natural
--   number; what a fresh array holds is an argument.
-- Ivm: multicore/src/ivm.cpp and `shareWork` of multicore/src/bbthread.cpp. The matrix is a function
--   of line and column. The loop of `cuttingPosition` has the size plus one as its fuel, since the
--   position it returns is at most the size; `none` stands for the two exits of the program.
-- Work: distributed/src/work.cpp and distributed/src/interval.cpp, the intervals of a work unit, with
--   GMP integers as natural numbers. `intersection` takes the test that two intervals are one object
--   (the pointers that the code compares) as an argument; a walk of an iterator is a walk of the list.
--   Work/Uneven is `split2`, and Work/Initial the units of distributed/src/works.cpp at the start.
-- Flowshop: bounds/src/bound_fsp_weak.cpp. The arrays over machines and jobs are functions.
-- Subproblem: common/src/subproblem.cpp. The field `front` is `limit1 + 1`.
-- Solution: common/src/solution.cpp. A call holds its lock throughout, so it is one step.
-- Branching: `chooseChildrenSet` of multicore/src/ivm_bound.cpp and `chooseBranching` of
--   multicoreLL/src/tree.cpp, on arrays of bounds, each with its own loops.
-- Tree: multicoreLL/src/tree.cpp, with the loop of multicoreLL/src/mcBBLL.cpp on fuel; the number of
--   nodes of a full tree is enough fuel.
-- Explorer: multicore/src/ivm_bound.cpp and multicore/src/sequentialbb.cpp, with boundMode 0,
--   sortNodes 0 and no node priority. The loop of `next`, and the loop of multicore/src/main.cpp that
--   calls it, are on fuel; `limit` of the size is enough, since every move raises `potential`, a
--   weighted sum of the positions. `none` also stands for the exits of the program.
-- Sorting: the sorts of common/include/misc.h, one loop on fuel, for which the square of the number
--   of cells is enough; the keys are signed.
-- Heuristic: heuristic/src/fastinsertremove.cpp, heuristic/include/fastinsertremove.h,
--   heuristic/src/fastNEH.cpp, the moves of heuristic/src/fspnhoods.cpp and the local searches of
--   heuristic/src/IG.cpp, whose bound of 10000 rounds is that of the code. The tables keep what a
--   call does not write; the floating point numbers of `bestRemove` are a parameter, and so are
--   std::discrete_distribution, which draws where a weight is above 0, and the content of fresh
--   memory.
-- Strong: bounds/src/bound_fsp_strong.cpp, the bound by pairs of machines. `front` is `limite1 + 1`.
--   The sort of the pairs is a loop over the places with an inner one that moves a pair down.
-- Examples: problems and explorers at which the theorems are applied.
--
-- Numbers are natural numbers: processing times are not negative, and no sum reaches the limit of an
-- int. The signed accumulators of `chooseChildrenSet` are kept as two sums; those of `chooseBranching`
-- and the keys of the sorts are signed. The search starts with two jobs at least: a root with one open
-- job is a leaf whose cost is still 0, and the program would take 0 for its makespan.
--
-- Not modelled: input, output, memory management, timing and logging; MPI and pthreads beyond what
-- a lock makes one step; boundRoot, the order of siblings, the sort of the rows of tabJohnson, the
-- draws at random of iterated greedy with what depends on them, the controllers, the scheduler of
-- the works after its start and the GPU code.
pub mod Base
pub mod Weights
pub mod Ivm
pub mod Work
pub mod Flowshop
pub mod Sorting
pub mod Heuristic
pub mod Strong
pub mod Subproblem
pub mod Solution
pub mod Branching
pub mod Tree
pub mod Explorer
pub mod Examples
