-- ===== src/Treemap/Shown.antt =====
-- The nodes of the NIST hierarchy that heimdall2-master/apps/frontend/src/utilities/treemap_util.ts shows.
use security_scan.Prelude.{ℕ, ◌<◌, ◌≡◌, true, List, length, ltb, Text, arith, ◌⊎◌, inl, inr, In}
use security_scan.Nist.Hierarchy.{Node}
use security_scan.Treemap.{lookup_key_for}

-- A child has more specifiers than its parent.
abbrev pub Deepening : (ℕ → Node) → Type 0
Deepening hierarchy =
    (n c : ℕ)
    → In c (hierarchy n).children
    → length (hierarchy n).control.sub_specifiers < length (hierarchy c).control.sub_specifiers

-- The nodes of the hierarchy that the map shows below a node: the children of one of these with fewer
-- specifiers than the depth are shown.
pub data Shown (hierarchy : ℕ → Node) (depth : ℕ) : ℕ → ℕ → Type 0 where
  itself : (n : ℕ) → Shown hierarchy depth n n
  deeper :
      {n c m : ℕ}
      → length (hierarchy n).control.sub_specifiers < depth
      → In c (hierarchy n).children
      → Shown hierarchy depth c m
      → Shown hierarchy depth n m

-- The key of a node that is shown below one.
abbrev pub ShownKey : (ℕ → Node) → ℕ → ℕ → Text → Type 0
ShownKey hierarchy depth n k =
    (m : ℕ) × Shown hierarchy depth n m × (lookup_key_for (hierarchy m).control depth ≡ k)

abbrev pub OfSome : (ℕ → Text → Type 0) → List ℕ → Text → Type 0
OfSome keys cs k = (c : ℕ) × In c cs × keys c k

-- What is shown below a node is it, or is shown below a child.
pub ShownKey-cases :
    (hierarchy : ℕ → Node) (depth n : ℕ) (k : Text)
    → ShownKey hierarchy depth n k
    → (lookup_key_for (hierarchy n).control depth ≡ k)
      ⊎ ((ltb (length (hierarchy n).control.sub_specifiers) depth ≡ true)
          × OfSome (ShownKey hierarchy depth) (hierarchy n).children k)
ShownKey-cases hierarchy depth n k (_, itself _, e) = inl e
ShownKey-cases hierarchy depth n k (m, deeper {c = c} shallow i below, e) =
    inr (ground (arith, shallow), (c, i, (m, below, e)))
