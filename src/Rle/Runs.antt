-- ===== src/Rle/Runs.antt =====
-- The runs that the encoder finds, and the exact condition under which its output fits.
use bustaferl.Prelude.{
  ℕ, zero, suc, ◌+◌, ◌≤◌, ◌≡◌, refl, List, [], ◌∷◌, ◌++◌, arith, length, replicate,
}
use bustaferl.Rle.{take_run, rle_max_run}

pub length-take_run : (run v : ℕ) (xs : List ℕ) → length (take_run run v xs).1 ≤ length xs
unfolding take_run
length-take_run run v [] = omega arith
length-take_run run v (x ∷ xs) = ground (arith, length-take_run (run + 1) v xs)

pub take_run_bounds :
    (run v : ℕ) (xs : List ℕ)
    → run ≤ rle_max_run
    → (run ≤ (take_run run v xs).0) × ((take_run run v xs).0 ≤ rle_max_run)
unfolding take_run
take_run_bounds run v [] h = omega arith
take_run_bounds run v (x ∷ xs) h = ground (arith, take_run_bounds (run + 1) v xs)

replicate_suc_append : (n v : ℕ) (xs : List ℕ) → replicate (n + 1) v ++ xs ≡ replicate n v ++ v ∷ xs
replicate_suc_append zero v xs = refl
replicate_suc_append (suc n) v xs = ground (arith, replicate_suc_append n v xs)

-- A run and the rest are the input.
pub take_run-append :
    (run v : ℕ) (xs : List ℕ)
    → replicate (take_run run v xs).0 v ++ (take_run run v xs).1 ≡ replicate run v ++ xs
unfolding take_run
take_run-append run v [] = refl
take_run-append run v (x ∷ xs) =
    ground (arith, take_run-append (run + 1) v xs, replicate_suc_append run v xs)

-- The number of runs.
abbrev pub runs : ℕ → List ℕ → ℕ
runs fuel [] = 0
runs zero (v ∷ xs) = 0
runs (suc fuel) (v ∷ xs) = suc (runs fuel (take_run 1 v xs).1)
