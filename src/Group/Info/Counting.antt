-- ===== src/Group/Info/Counting.antt =====
-- What the scan of a group's directory makes of the numbers that it meets.
use gonewsd.Prelude.{ℕ, ◌≤◌, ◌≡◌, ◌⊎◌, Bool, true, false, ◌||◌, List, [], ◌∷◌, ◌==◌, length, All}
use gonewsd.Group.Types.{Group}
use gonewsd.Spool.Disk.{Disk}

abbrev pub has_number : ℕ → List ℕ → Bool
has_number n [] = false
has_number n (m ∷ ms) = m == n || has_number n ms

abbrev Within : Group → ℕ → Type 0
Within g n = (g.start ≤ n) × (n ≤ g.end)

-- The record that a group keeps of its articles: their number, and the least and the greatest.
pub record IsCountOf (ns : List ℕ) (g : Group) : Type 0 where
  pub total_is : g.total ≡ length ns
  pub within : All (Within g) ns
  pub attained : (length ns ≡ 0) ⊎ ((has_number g.start ns ≡ true) × (has_number g.end ns ≡ true))
  pub empty_is : length ns ≡ 0 → (g.start ≡ 0) × (g.end ≡ 0)

pub zeroed : Group → Group
zeroed g = record g { start = 0; end = 0; total = 0 }
