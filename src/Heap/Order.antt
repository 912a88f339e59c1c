-- ===== src/Heap/Order.antt =====
-- The heap order, over a total preorder of the elements.
use mathlib.Core.List.{Perm}
use mathlib.Core.List.Perm
use tordex.Prelude.{ℕ, zero, suc, ◌<◌, ◌≡◌, Bool, true, false, List, [], ◌∷◌, length, get_or, arith}
use tordex.Prelude.Outcome.{Outcome, Returns, Returns-map}
use tordex.Prelude.Vec.{swapped, swapped-perm}
use tordex.Heap.{parent}

-- `less` is the strict part of a total preorder: `Le x y` says that `y` does not come before `x`.
abbrev pub Le {ℓ} : {A : Type ℓ} → (A → A → Bool) → A → A → Type 0
Le less x y = less y x ≡ false

pub record IsOrder {ℓ} {A : Type ℓ} (less : A → A → Bool) : Type ℓ where
  pub le_trans : (x y z : A) → Le less x y → Le less y z → Le less x z
  pub le_of_less : (x y : A) → less x y ≡ true → Le less x y
  pub le_refl : (x : A) → Le less x x

module _ {ℓ} {A : Type ℓ} (less : A → A → Bool) where
  -- No element comes before its parent; `d` stands for what lies beyond the end.
  abbrev pub HeapFrom : A → List A → Type 0
  HeapFrom d xs = (c : ℕ) → 0 < c → c < length xs → Le less (get_or xs (parent c) d) (get_or xs c d)

  abbrev pub IsHeap : List A → Type ℓ
  IsHeap xs = (d : A) → HeapFrom d xs

  get_or_any : (xs : List A) (i : ℕ) (d e : A) → i < length xs → get_or xs i d ≡ get_or xs i e
  get_or_any [] i d e h = absurd (omega arith)
  get_or_any (x ∷ xs) zero d e h = cc
  get_or_any (x ∷ xs) (suc i) d e h = get_or_any xs i d e (omega arith)

  pub HeapFrom-IsHeap : (d : A) (xs : List A) → HeapFrom d xs → IsHeap xs
  HeapFrom-IsHeap d xs h e c p q =
      rw (get_or_any xs c e d q, get_or_any xs (parent c) e d (omega arith)) (h c p q)

  -- The list is a heap of the elements of `xs`.
  pub record Heaped (xs ys : List A) : Type ℓ where
    pub heap : IsHeap ys
    pub same : Perm ys xs

  pub Heaped-self : (d : A) (xs : List A) → HeapFrom d xs → Heaped xs xs
  Heaped-self d xs h = record { heap = HeapFrom-IsHeap d xs h; same = Perm.refl xs }

  -- What is made of a list after a swap holds the elements of the list before it.
  pub Heaped-swapped :
      (d : A) (xs : List A) (i j : ℕ)
      → i < length xs
      → j < length xs
      → (r : Outcome (List A)) → Returns (Heaped (swapped d xs i j)) r
      → Returns (Heaped xs) r
  Heaped-swapped d xs i j hi hj r h =
      Returns-map (Heaped (swapped d xs i j)) (Heaped xs) r h
        (λ ys k. record { heap = k.heap; same = Perm.trans k.same (swapped-perm d xs i j hi hj) })

  module _ (o : IsOrder less) where
    root_least_within :
        (k : ℕ) (d : A) (xs : List A) (i : ℕ)
        → HeapFrom d xs
        → i < k
        → i < length xs
        → Le less (get_or xs 0 d) (get_or xs i d)
    root_least_within zero d xs i h p q = absurd (omega arith)
    root_least_within (suc k) d xs zero h p q = o.le_refl (get_or xs 0 d)
    root_least_within (suc k) d xs (suc i) h p q =
        o.le_trans (get_or xs 0 d) (get_or xs (parent (suc i)) d) (get_or xs (suc i) d)
          (root_least_within k d xs (parent (suc i)) h (omega arith) (omega arith))
          (h (suc i) (omega arith) q)

    -- The root of a heap comes before or with every element.
    pub root_least :
        (d : A) (xs : List A) (i : ℕ)
        → HeapFrom d xs
        → i < length xs
        → Le less (get_or xs 0 d) (get_or xs i d)
    root_least d xs i h q = root_least_within (suc i) d xs i h (omega arith) q
